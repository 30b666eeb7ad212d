-- ===== src/Conversation/Stream/Settling.antt =====
-- What settles a conversation, as moves of its abstract view.
-- What a callback needs, by whether there is no cancellation.
use orca_ts.Conversation.Queue.{close}
use orca_ts.Conversation.Settlement.{defer, Ledger, SettlementKind}
use orca_ts.Conversation.Stream.Pending.{defer-AllPending, AllPending}
use orca_ts.Conversation.Stream.Phases.{
  cancel_ends, settled_by, goes, is_settled, stays, phase_of, IsOfCancellation, phase, IsOfBackend,
  Evolves-trans, Evolves,
}
use orca_ts.Conversation.Stream.{
  failed, cancelled, complete_unless, unless_cancelled, publish, settle_or_defer, resolved, pending,
  fails_cancellation, ends_cancellation, rejected, settles, settle_cancellation, Publish, Outcome,
  Cancellation, complete, StreamConversation,
}
use orca_ts.Base.{
  subst, sym, arith, Text, if_elim, not, is_none, ◌≡◌, Option, Bool, none, some, true, false, refl,
}

abbrev pub Fits : {O : Type 0} → Bool → Publish O → Type 0
Fits b (settles o) = IsOfBackend o
Fits b (ends_cancellation reason) = b ≡ false
Fits b (fails_cancellation cause error) = b ≡ false

pub Fits-cancelled : {O : Type 0} (b : Bool) (p : Publish O) → Fits b p → Fits false p
Fits-cancelled b (settles o) h = h
Fits-cancelled b (ends_cancellation reason) h = refl
Fits-cancelled b (fails_cancellation cause error) h = refl

is_none-settle_cancellation :
    (c : Cancellation) (o : Option Cancellation) → is_none (settle_cancellation c o) ≡ is_none o
is_none-settle_cancellation c none = refl
is_none-settle_cancellation c (some pending) = refl
is_none-settle_cancellation c (some resolved) = refl
is_none-settle_cancellation c (some (rejected e)) = refl

-- A settlement of the abstract view.
settling :
    {O : Type 0} (x : Option (Outcome O)) (b : Bool) (o : Outcome O)
    → is_none x ≡ true
    → (b ≡ true → IsOfBackend o)
    → (b ≡ false → IsOfCancellation o)
    → Evolves (phase_of x b) (is_settled o)
settling (some y) b o e h k = absurd (cc)
settling none true o e h k = goes (settled_by o (h refl)) stays
settling none false o e h k = goes (cancel_ends o (k refl)) stays

module _ {O : Type 0} where
  abbrev pub uncancelled : StreamConversation O → Bool
  uncancelled s = is_none s.cancellation

  -- What every state that is reached has.
  pub record IsCoherent (s : StreamConversation O) : Type 0 where
    pub settled : s.settled ≡ not (is_none s.outcome)
    pub fits : AllPending (Fits (uncancelled s)) s.ledger
    pub handler : s.handler ≡ true → uncancelled s ≡ false
    pub cleanup : (reason : Option Text) → s.cleanup ≡ some reason → uncancelled s ≡ false

  -- A step keeps the state coherent and the abstract view on its way.
  pub record IsStep (s s' : StreamConversation O) : Type 0 where
    pub coherent : IsCoherent s'
    pub evolves : Evolves (phase s) (phase s')

  pub IsStep_trans : {s t u : StreamConversation O} → IsStep s t → IsStep t u → IsStep s u
  IsStep_trans a b = record { coherent = b.coherent; evolves = Evolves-trans a.evolves b.evolves }

  -- What `complete` makes of a state that is not settled.
  abbrev completed_with : Outcome O → StreamConversation O → StreamConversation O
  completed_with o s = record s { settled = true; queue = (close s.queue).0; outcome = some o }

  completed_with-IsCoherent :
      (o : Outcome O) (s : StreamConversation O) → IsCoherent s → IsCoherent (completed_with o s)
  completed_with-IsCoherent o s c = record {
    settled = refl;
    fits = c.fits;
    handler = c.handler;
    cleanup = c.cleanup;
  }

  complete-IsStep :
      (o : Outcome O) (s : StreamConversation O)
      → IsCoherent s
      → (uncancelled s ≡ true → IsOfBackend o)
      → (uncancelled s ≡ false → IsOfCancellation o)
      → IsStep s (complete o s)
  unfolding complete
  complete-IsStep o s c h k =
      if_elim (IsStep s) s.settled {x = s} {y = completed_with o s}
        (λ _. record { coherent = c; evolves = stays })
        (λ going. record {
          coherent = completed_with-IsCoherent o s c;
          evolves = settling s.outcome (uncancelled s) o (ground (arith, c.settled)) h k;
        })

  complete-cancellation :
      (o : Outcome O) (s : StreamConversation O) → (complete o s).cancellation ≡ s.cancellation
  unfolding complete
  complete-cancellation o s =
      if_elim (λ (t : StreamConversation O). t.cancellation ≡ s.cancellation) s.settled (λ _. refl)
        (λ _. refl)

  -- The promise of a cancellation shows in none of it.
  settle_cancellation-IsStep :
      (x : Cancellation) (s t : StreamConversation O)
      → IsStep s t
      → IsStep s (record t { cancellation = settle_cancellation x t.cancellation })
  settle_cancellation-IsStep x s t h =
      let e = sym (is_none-settle_cancellation x t.cancellation) in
      record {
        coherent = record {
          settled = h.coherent.settled;
          fits = subst (λ b. AllPending (Fits b) t.ledger) e h.coherent.fits;
          handler = subst (λ b. t.handler ≡ true → b ≡ false) e h.coherent.handler;
          cleanup =
              subst (λ b. (reason : Option Text) → t.cleanup ≡ some reason → b ≡ false) e
                h.coherent.cleanup;
        };
        evolves = subst (λ b. Evolves (phase s) (phase_of t.outcome b)) e h.evolves;
      }

  pub publish-IsStep :
      (p : Publish O) (s : StreamConversation O)
      → IsCoherent s
      → Fits (uncancelled s) p
      → IsStep s (publish p s)
  unfolding publish
  publish-IsStep (settles o) s c h = go s.cancellation refl
    where
      go : (x : Option Cancellation) → s.cancellation ≡ x → IsStep s (complete_unless x o s)
      go none e = complete-IsStep o s c (λ _. h) (λ clash. absurd (cc))
      go (some x) e = record { coherent = c; evolves = stays }
  publish-IsStep (ends_cancellation reason) s c h =
      settle_cancellation-IsStep resolved s (complete (cancelled reason) s)
        (complete-IsStep (cancelled reason) s c (λ clash. absurd (cc)) (λ _. tt))
  publish-IsStep (fails_cancellation cause error) s c h =
      settle_cancellation-IsStep (rejected error) s (complete (failed cause) s)
        (complete-IsStep (failed cause) s c (λ clash. absurd (cc)) (λ _. tt))

  -- A step that changes only the reservations.
  pub ledger-IsStep :
      (l : Ledger (Publish O)) (s : StreamConversation O)
      → IsCoherent s
      → AllPending (Fits (uncancelled s)) l
      → IsStep s (record s { ledger = l })
  ledger-IsStep l s c h = record {
    coherent = record { settled = c.settled; fits = h; handler = c.handler; cleanup = c.cleanup };
    evolves = stays;
  }

  pub settle_or_defer-IsStep :
      (kind : SettlementKind) (p : Publish O) (s : StreamConversation O)
      → IsCoherent s
      → Fits (uncancelled s) p
      → IsStep s (settle_or_defer kind p s)
  unfolding settle_or_defer
  settle_or_defer-IsStep kind p s c h =
      let r = defer (record { kind = kind; publish = p }) s.ledger in
      if_elim (IsStep s) r.1 {x = record s { ledger = r.0 }} {y = publish p s}
        (λ _. ledger-IsStep r.0 s c (
          defer-AllPending (Fits (uncancelled s)) (record { kind = kind; publish = p }) s.ledger
            c.fits h))
        (λ _. publish-IsStep p s c h)

  -- A call that a cancellation silences.
  pub unless_cancelled-IsStep :
      (kind : SettlementKind) (o : Outcome O) (s : StreamConversation O)
      → IsCoherent s
      → IsOfBackend o
      → IsStep s (unless_cancelled s.cancellation (settle_or_defer kind (settles o)) s)
  unless_cancelled-IsStep kind o s c h = go s.cancellation
    where
      go :
          (x : Option Cancellation)
          → IsStep s (unless_cancelled x (settle_or_defer kind (settles o)) s)
      go none = settle_or_defer-IsStep kind (settles o) s c h
      go (some x) = record { coherent = c; evolves = stays }
