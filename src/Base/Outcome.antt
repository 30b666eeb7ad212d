-- ===== src/Base/Outcome.antt =====
-- The result of a fallible operation, `Result<A, E>`, with its chaining.
use mathlib.Core.Path.{◌≡◌, refl}

pub data Result {ℓ κ} (A : Type ℓ) (E : Type κ) : Type (ℓ ⊔ κ) where
  ok : A → Result A E
  err : E → Result A E

infixl 5 ◌>>=◌
abbrev pub ◌>>=◌ {ℓ κ ν} :
    {A : Type ℓ} {B : Type κ} {E : Type ν} → Result A E → (A → Result B E) → Result B E
ok a >>= f = f a
err e >>= f = err e

-- A chain that succeeds went through a value of its first part.
pub >>=-eq-ok {ℓ κ ν} :
    {A : Type ℓ} {E : Type κ} {C : Type ν} (first : Result A E) (next : A → Result C E) {last : C}
    → (first >>= next) ≡ ok last
    → (middle : A) × (first ≡ ok middle) × (next middle ≡ ok last)
>>=-eq-ok (err refused) next went = cc
>>=-eq-ok (ok middle) next went = (middle, refl, went)

pub ok_injective {ℓ κ} :
    {A : Type ℓ} {E : Type κ} (a b : A) → ◌≡◌ {A = Result A E} (ok a) (ok b) → a ≡ b
ok_injective a b h = cc
