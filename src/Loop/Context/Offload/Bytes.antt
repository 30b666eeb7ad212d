-- ===== src/Loop/Context/Offload/Bytes.antt =====
-- The bytes that an offload counts are those of the text that its file holds.
-- A surrogate takes three bytes where it stands for itself, as the character does that replaces it.
use orca_ts.Loop.Context.Offload.{byte_length, byte_length_from, unit_bytes}
use orca_ts.Model.Utf8.{utf8_text, utf8_from, is_high, is_placed, is_low, starts_low}
use orca_ts.Base.{
  ◌+◌, ◌&&◌, if◌then◌else◌, ap, subst, Bool-cases, if_elim, ◌∷◌, arith, ◌≡◌, ℕ, Text, Bool, [],
  true, false, refl, inl, inr,
}

unit_bytes-high : (u : ℕ) → is_high u ≡ true → (is_low u ≡ false) × (unit_bytes u ≡ 3)
unfolding is_high is_low unit_bytes
unit_bytes-high u h = ground arith

unit_bytes-low : (u : ℕ) → is_low u ≡ true → unit_bytes u ≡ 3
unfolding is_low unit_bytes
unit_bytes-low u h = ground arith

starts_low-utf8_from : (us : Text) → starts_low us ≡ false → starts_low (utf8_from true us) ≡ false
unfolding starts_low utf8_from is_low
starts_low-utf8_from [] h = refl
starts_low-utf8_from (u ∷ us) h =
    if_elim (λ (v : ℕ). is_low v ≡ false) (is_placed true u us) (λ placed. h) (λ out. refl)

-- A unit that is not low takes the same bytes whatever comes before it.
byte_length_from_lem :
    (us : Text) → starts_low us ≡ false → byte_length_from true us ≡ byte_length_from false us
unfolding starts_low byte_length_from
byte_length_from_lem [] h = refl
byte_length_from_lem (u ∷ us) h = rw h refl

-- A unit that has no place is replaced, with the same bytes.
byte_length-replaced :
    (after_high : Bool) (u : ℕ) (us : Text)
    → is_placed after_high u us ≡ false
    → byte_length_from (is_high u) (utf8_from (is_high u) us) ≡ byte_length_from (is_high u) us
    → byte_length_from after_high (0xfffd ∷ utf8_from (is_high u) us)
      ≡ byte_length_from after_high (u ∷ us)
unfolding is_placed byte_length_from
byte_length-replaced after_high u us out rest = elim (Bool-cases (is_high u)) [
  | inl high ↦
      let lone : starts_low us ≡ false = ground arith in
      let same =
        subst (λ b. byte_length_from b (utf8_from b us) ≡ byte_length_from b us) high rest in
      let alike = byte_length_from_lem (utf8_from true us) (starts_low-utf8_from us lone) in
      let (low, three) = unit_bytes-high u high in
      rw (high, low, three) (ground (arith, same, alike))
  | inr other ↦
      let low : is_low u ≡ true = ground arith in
      let first : after_high ≡ false = ground arith in
      let three = unit_bytes-low u low in
      let same =
        subst (λ b. byte_length_from b (utf8_from b us) ≡ byte_length_from b us) other rest in
      rw (other, first, three) (ground (arith, same))
]

byte_length-kept :
    (after_high : Bool) (u : ℕ) (us vs : Text)
    → byte_length_from (is_high u) vs ≡ byte_length_from (is_high u) us
    → byte_length_from after_high (u ∷ vs) ≡ byte_length_from after_high (u ∷ us)
unfolding byte_length_from
byte_length-kept after_high u us vs rest =
    ap (λ n. (if after_high && is_low u then 1 else unit_bytes u) + n) rest

byte_length-utf8_from :
    (after_high : Bool) (t : Text)
    → byte_length_from after_high (utf8_from after_high t) ≡ byte_length_from after_high t
unfolding utf8_from
byte_length-utf8_from after_high [] = refl
byte_length-utf8_from after_high (u ∷ us) =
    let rest = byte_length-utf8_from (is_high u) us in
    elim (Bool-cases (is_placed after_high u us)) [
      | inl placed ↦ rw placed (byte_length-kept after_high u us (utf8_from (is_high u) us) rest)
      | inr out ↦ rw out (byte_length-replaced after_high u us out rest)
    ]

-- A text takes as many bytes as what is read back of it.
pub byte_length-utf8_text : (t : Text) → byte_length (utf8_text t) ≡ byte_length t
unfolding byte_length
byte_length-utf8_text t = byte_length-utf8_from false t
