-- ===== src/Base/Fallible.antt =====
-- Rust's `Result<T, Error>`: an error is what the source's message names.
use mathlib.Core.Path.{◌≡◌, refl}
use mathlib.Core.Logic.{◌⊎◌, inl, inr}

pub data Result {ℓ} (Fault Value : Type ℓ) : Type ℓ where
  err : Fault → Result Fault Value
  ok : Value → Result Fault Value

-- How a result came about.
pub Result-cases {ℓ} :
    {Fault Value : Type ℓ} (outcome : Result Fault Value)
    → ((fault : Fault) × (outcome ≡ err fault)) ⊎ ((value : Value) × (outcome ≡ ok value))
Result-cases (err fault) = inl (fault, refl)
Result-cases (ok value) = inr (value, refl)

module _ {ℓ} {Fault Value Next : Type ℓ} where
  infixl 5 ◌>>=◌
  -- The `?` operator, in a do block.
  abbrev pub ◌>>=◌ : Result Fault Value → (Value → Result Fault Next) → Result Fault Next
  err fault >>= next = err fault
  ok value >>= next = next value

  -- Both steps of a successful pair of steps succeed.
  pub >>=-eq-ok :
      (first : Result Fault Value) (next : Value → Result Fault Next) {last : Next}
      → (first >>= next) ≡ ok last
      → (value : Value) × (first ≡ ok value) × (next value ≡ ok last)
  >>=-eq-ok (err fault) next h = cc
  >>=-eq-ok (ok value) next h = (value, refl, h)

pub ok-eq {ℓ} :
    {Fault Value : Type ℓ} {x y : Value} → ◌≡◌ {A = Result Fault Value} (ok x) (ok y) → x ≡ y
ok-eq h = cc
