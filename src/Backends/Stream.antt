-- ===== src/Backends/Stream.antt =====
-- What the consumers of src/backends/*.ts ask of a conversation, and what every consumer promises.
use orca_ts.Model.{str, structured_output_validation_failed, Value, RuntimeError}
use orca_ts.Model.Events.{Schema, BackendResult, parse_structured_output, ConversationEvent}
use orca_ts.Base.{
  same_iff, refl, none, ◌>>=◌, inr, err, ap, ok, ◌∙◌, ◌==◌, ◌||◌, same, or_default, inl, arith,
  Bool-cases, ◌&&◌, ◌+◌, some, false, ◌∷◌, [], ◌≡◌, Result, suc, ◌++◌, leb, true, Option, ℕ, Bool,
  Text, List,
}

-- A call of `emit`, `succeed` or `fail`.
pub data Call (O : Type 0) : Type 0 where
  emitted : ConversationEvent → Call O
  succeeded : BackendResult O → Call O
  failed : RuntimeError → Call O

unfoldable pub settlements : {O : Type 0} → List (Call O) → ℕ
settlements [] = 0
settlements (emitted e ∷ cs) = settlements cs
settlements (succeeded r ∷ cs) = suc (settlements cs)
settlements (failed e ∷ cs) = suc (settlements cs)

pub settlements-append :
    {O : Type 0} (xs ys : List (Call O)) → settlements (xs ++ ys) ≡ settlements xs + settlements ys
unfolding settlements
settlements-append [] ys = omega arith
settlements-append (x ∷ xs) ys = ground (arith, settlements-append xs ys)

-- `raw.trim() === ""`.
unfoldable pub is_space : ℕ → Bool
is_space u =
    (leb 9 u && leb u 13)
    || u == 0x20
    || u == 0xa0
    || u == 0x1680
    || (leb 0x2000 u && leb u 0x200a)
    || u == 0x2028
    || u == 0x2029
    || u == 0x202f
    || u == 0x205f
    || u == 0x3000
    || u == 0xfeff

unfoldable pub is_blank : Text → Bool
unfolding is_space
is_blank [] = true
is_blank (u ∷ us) = is_space u && is_blank us

-- `type === expected` on an optional string.
abbrev pub is_type : Option Text → Text → Bool
is_type none expected = false
is_type (some actual) expected = same actual expected

-- A type that is one name is no other.
pub is_type_other :
    (t : Option Text) (x y : Text) → same x y ≡ false → is_type t x ≡ true → is_type t y ≡ false
is_type_other none x y e h = refl
is_type_other (some a) x y e h = ap (λ a. same a y) ((same_iff a x).0 h) ∙ e

-- `content?.map((part) => part.text ?? "").join("") ?? ""`.
unfoldable pub text_content : Option (List (Option Text)) → Text
text_content none = []
text_content (some []) = []
text_content (some (part ∷ parts)) = or_default part [] ++ text_content (some parts)

-- The `structured` part of a success: none without a schema; the text is read as JSON.
unfoldable pub structured_of_text :
    {O : Type 0}
    → (Text → Result Value Text)
    → Text
    → Option (Schema O)
    → Text
    → Result (Option O) RuntimeError
unfolding parse_structured_output
structured_of_text parse_json complaint none output = ok none
structured_of_text parse_json complaint (some schema) output = elim (parse_json output) [
  | err message ↦ err (structured_output_validation_failed (complaint ∷ []) (str output))
  | ok raw ↦ parse_structured_output schema raw >>= λ value. ok (some value)
]

-- What `JSON.parse(raw) as Line` gives, which checks nothing: it throws, with a message; or it gives
-- null, which has no fields to read; or it gives a line with the fields that its type declares.
pub data Reading (L : Type 0) : Type 0 where
  malformed : (message : Text) → Reading L
  null_line : Reading L
  shaped : L → Reading L

unfoldable pub is_null_line : {L : Type 0} → Reading L → Bool
is_null_line null_line = true
is_null_line _ = false

-- Whether the test holds of some line.
unfoldable pub any_line : (Text → Bool) → List Text → Bool
any_line is_bad [] = false
any_line is_bad (raw ∷ raws) = is_bad raw || any_line is_bad raws

-- A call of `consume` returns, or it throws before it has called or changed anything.
pub data Attempt (A : Type 0) : Type 0 where
  returns : A → Attempt A
  throws : Attempt A

-- A consumer: its state, a line, and the end of the stream.
pub record Consumer (O : Type 0) : Type 1 where
  pub State : Type 0
  pub aborted : State → Bool
  pub consume : State → Text → Attempt (State × List (Call O))
  pub finish : State → State × List (Call O)

-- A step that goes on settles nothing; one that aborts settles once.
abbrev pub IsStep : {O : Type 0} (c : Consumer O) → Attempt (c.State × List (Call O)) → Type 0
IsStep c (returns r) =
    (c.aborted r.0 ≡ false → settlements r.1 ≡ 0) × (c.aborted r.0 ≡ true → settlements r.1 ≡ 1)
IsStep c throws = Unit

pub record IsConsumer {O : Type 0} (c : Consumer O) : Type 0 where
  pub deaf : (s : c.State) (raw : Text) → c.aborted s ≡ true → c.consume s raw ≡ returns (s, [])
  pub step : (s : c.State) (raw : Text) → c.aborted s ≡ false → IsStep c (c.consume s raw)
  pub idle : (s : c.State) → c.aborted s ≡ true → (c.finish s).1 ≡ []
  pub close : (s : c.State) → c.aborted s ≡ false → settlements (c.finish s).1 ≡ 1

-- The calls made, and whether the consumer threw, which ends the reading without `finish`.
abbrev pub Feed : Type 0 → Type 0
Feed O = List (Call O) × Bool

unfoldable pub follow : {O S : Type 0} → Attempt (S × List (Call O)) → (S → Feed O) → Feed O
follow throws more = ([], true)
follow (returns (s, cs)) more = let (ds, threw) = more s in (cs ++ ds, threw)

-- A stream that does not throw settles once, and one that throws has settled nothing.
abbrev pub IsSettled : {O : Type 0} → Feed O → Type 0
IsSettled (calls, threw) =
    (threw ≡ false → settlements calls ≡ 1) × (threw ≡ true → settlements calls ≡ 0)

module _ {O : Type 0} (c : Consumer O) where
  -- The lines in turn, then the end.
  unfoldable pub feed : List Text → c.State → Feed O
  unfolding follow
  feed [] s = ((c.finish s).1, false)
  feed (raw ∷ raws) s = follow (c.consume s raw) (λ s'. feed raws s')

  -- If a consumer throws at bad lines only, a stream that throws has one.
  pub feed_throws :
      (is_bad : Text → Bool)
      → ((s : c.State) (raw : Text) → c.consume s raw ≡ throws → is_bad raw ≡ true)
      → (raws : List Text) (s : c.State) → (feed raws s).1 ≡ true
      → any_line is_bad raws ≡ true
  unfolding feed any_line follow
  feed_throws is_bad law [] s h = absurd (cc)
  feed_throws is_bad law (raw ∷ raws) s h =
      go (c.consume s raw) refl h (λ s' k. feed_throws is_bad law raws s' k)
    where
      go :
          (x : Attempt (c.State × List (Call O)))
          → c.consume s raw ≡ x
          → (follow x (λ s'. feed raws s')).1 ≡ true
          → ((s' : c.State) → (feed raws s').1 ≡ true → any_line is_bad raws ≡ true)
          → (is_bad raw || any_line is_bad raws) ≡ true
      go throws e k later = rw (law s raw e) refl
      go (returns (s', cs)) e k later = let rest = later s' k in ground arith

  module _ (law : IsConsumer c) where
    feed_aborted : (raws : List Text) (s : c.State) → c.aborted s ≡ true → feed raws s ≡ ([], false)
    unfolding feed follow
    feed_aborted [] s h = ap (λ cs. (cs, false)) (law.idle s h)
    feed_aborted (raw ∷ raws) s h = rw (law.deaf s raw h) (feed_aborted raws s h)

    follow-IsSettled :
        (raws : List Text) (x : Attempt (c.State × List (Call O)))
        → IsStep c x
        → ((s : c.State) → c.aborted s ≡ false → IsSettled (feed raws s))
        → IsSettled (follow x (λ s. feed raws s))
    unfolding follow settlements
    follow-IsSettled raws throws step later = (λ k. cc, λ k. refl)
    follow-IsSettled raws (returns (s, cs)) (on, off) later =
        let joined = settlements-append cs (feed raws s).0 in
        elim (Bool-cases (c.aborted s)) [
          | inl over ↦
              let none_left = ap (λ (f : Feed O). settlements f.0) (feed_aborted raws s over) in
              let whole = ap (λ (f : Feed O). f.1) (feed_aborted raws s over) in
              (λ k. omega (arith, joined, off over, none_left), λ k. absurd (cc))
          | inr going ↦
              let (settled, thrown) = later s going in
              (
                λ k. omega (arith, joined, on going, settled k),
                λ k. omega (arith, joined, on going, thrown k),
              )
        ]

    pub feed-IsSettled :
        (raws : List Text) (s : c.State) → c.aborted s ≡ false → IsSettled (feed raws s)
    unfolding feed
    feed-IsSettled [] s h = (λ k. law.close s h, λ k. cc)
    feed-IsSettled (raw ∷ raws) s h =
        follow-IsSettled raws (c.consume s raw) (law.step s raw h)
          (λ s' k. feed-IsSettled raws s' k)
