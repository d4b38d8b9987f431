-- ===== src/Base/Results.antt =====
-- Go's pair of a value and an error.
use mathlib.Core.Path.{◌≡◌, refl}
use mathlib.Core.Logic.{◌⊎◌, inl, inr}

-- A call that went wrong, with its error, or one that went well, with its value.
pub data Result {ℓ κ} (Failure : Type ℓ) (Value : Type κ) : Type (ℓ ⊔ κ) where
  err : Failure → Result Failure Value
  ok : Value → Result Failure Value

module _ {ℓ κ υ} {E : Type ℓ} {A : Type κ} {B : Type υ} where
  -- `if err != nil { return err }` between two calls.
  infixl 5 ◌>>=◌
  abbrev pub ◌>>=◌ : Result E A → (A → Result E B) → Result E B
  first >>= second = elim first [ err failure ↦ err failure | ok value ↦ second value ]

  -- Inversion of a successful chain.
  pub >>=-eq-ok :
      (first : Result E A) (second : A → Result E B) {last : B}
      → (first >>= second) ≡ ok last
      → (value : A) × (first ≡ ok value) × (second value ≡ ok last)
  >>=-eq-ok (err failure) second q = cc
  >>=-eq-ok (ok value) second q = (value, refl, q)

module _ {ℓ κ} {E : Type ℓ} {A : Type κ} where
  pub Result-cases : (r : Result E A) → ((a : A) × (r ≡ ok a)) ⊎ ((e : E) × (r ≡ err e))
  Result-cases (err e) = inr (e, refl)
  Result-cases (ok a) = inl (a, refl)

  pub eq_of_ok : {a b : A} → ◌≡◌ {A = Result E A} (ok a) (ok b) → a ≡ b
  eq_of_ok h = cc
