-- ===== src/Prelude/Outcome.antt =====
-- The outcome of code that may fault, under a bound on its rounds.
use mathlib.Core.Path.{◌≡◌, refl}
use mathlib.Core.Option.{Option, none, some}
use native.Mathlib.Omega.{arith}

-- `fault` is a null pointer that is used or an assertion that fails.
pub data Outcome {ℓ} (A : Type ℓ) : Type ℓ where
  done : A → Outcome A
  fault : Outcome A
  out_of_fuel : Outcome A

infixl 5 ◌>>=◌
abbrev pub ◌>>=◌ {ℓ κ} : {A : Type ℓ} {B : Type κ} → Outcome A → (A → Outcome B) → Outcome B
done a >>= f = f a
fault >>= f = fault
out_of_fuel >>= f = out_of_fuel

abbrev pub or_fault {ℓ} : {A : Type ℓ} → Option A → Outcome A
or_fault none = fault
or_fault (some a) = done a

pub >>=-eq-done {ℓ κ} :
    {A : Type ℓ} {B : Type κ} (m : Outcome A) (f : A → Outcome B) {b : B}
    → (m >>= f) ≡ done b
    → (a : A) × (m ≡ done a) × (f a ≡ done b)
>>=-eq-done (done a) f h = (a, refl, h)
>>=-eq-done fault f h = cc
>>=-eq-done out_of_fuel f h = cc

pub or_fault-eq-done {ℓ} : {A : Type ℓ} (o : Option A) {a : A} → or_fault o ≡ done a → o ≡ some a
or_fault-eq-done none h = cc
or_fault-eq-done (some b) h = ground arith
