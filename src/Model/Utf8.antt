-- ===== src/Model/Utf8.antt =====
-- What a text of UTF-16 code units becomes when it is written as UTF-8 and read again, as `writeFile`
-- and `readFile` of node:fs do: a surrogate that stands alone is replaced by U+FFFD, and all else stays.
use orca_ts.Base.{
  ◌||◌, ap, ltb, arith, not, ◌&&◌, leb, ◌∷◌, ◌≡◌, if◌then◌else◌, Text, ℕ, Bool, [], true, false,
  refl,
}

unfoldable pub is_high : ℕ → Bool
is_high u = leb 0xd800 u && ltb u 0xdc00

unfoldable pub is_low : ℕ → Bool
is_low u = leb 0xdc00 u && ltb u 0xe000

unfoldable pub starts_low : Text → Bool
unfolding is_low
starts_low [] = false
starts_low (u ∷ us) = is_low u

-- Whether a unit has its place: a high surrogate before a low one, a low one after a high one. The first
-- argument says whether a high surrogate comes before.
unfoldable pub is_placed : Bool → ℕ → Text → Bool
unfolding is_high is_low starts_low
is_placed after_high u us = if is_high u then starts_low us else (not (is_low u) || after_high)

unfoldable pub well_formed_from : Bool → Text → Bool
unfolding is_placed is_high
well_formed_from after_high [] = true
well_formed_from after_high (u ∷ us) = is_placed after_high u us && well_formed_from (is_high u) us

unfoldable pub utf8_from : Bool → Text → Text
unfolding is_placed is_high
utf8_from after_high [] = []
utf8_from after_high (u ∷ us) =
    (if is_placed after_high u us then u else 0xfffd) ∷ utf8_from (is_high u) us

-- No surrogate stands alone.
abbrev pub is_well_formed : Text → Bool
is_well_formed t = well_formed_from false t

abbrev pub utf8_text : Text → Text
utf8_text t = utf8_from false t

utf8_from_lem :
    (after_high : Bool) (t : Text)
    → well_formed_from after_high t ≡ true
    → utf8_from after_high t ≡ t
unfolding utf8_from well_formed_from
utf8_from_lem after_high [] h = refl
utf8_from_lem after_high (u ∷ us) h =
    let placed : is_placed after_high u us ≡ true = ground arith in
    let rest : well_formed_from (is_high u) us ≡ true = ground arith in
    rw placed (ap (λ vs. u ∷ vs) (utf8_from_lem (is_high u) us rest))

-- A well-formed text is read back as it was written.
pub utf8_text_lem : (t : Text) → is_well_formed t ≡ true → utf8_text t ≡ t
utf8_text_lem t h = utf8_from_lem false t h
