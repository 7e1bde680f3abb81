-- ===== src/Base/Outcome.antt =====
-- The outcome of a C call. `fault` is a step that C leaves undefined: an access outside the memory
-- that a pointer owns or through a null pointer, a division by zero, a count that falls below zero.
use mathlib.Core.Path.{◌≡◌, refl}
use mathlib.Core.Option.{Option, none, some}

pub data Run {ℓ} (A : Type ℓ) : Type ℓ where
  ok : A → Run A
  fault : Run A

-- The next call, on the value of the one before.
infixl 5 ◌>>=◌ ◌>>◌
abbrev pub ◌>>=◌ {ℓ₁ ℓ₂} : {Val : Type ℓ₁} {Next : Type ℓ₂} → Run Val → (Val → Run Next) → Run Next
fault >>= next = fault
ok val >>= next = next val

abbrev pub ◌>>◌ {ℓ₁ ℓ₂} : {Val : Type ℓ₁} {Next : Type ℓ₂} → Run Val → Run Next → Run Next
before >> after = before >>= λ _. after

-- A value that must be there: a null pointer that the code follows is a fault.
abbrev pub deref {ℓ} : {A : Type ℓ} → Option A → Run A
deref none = fault
deref (some a) = ok a

-- The call returns, and its value satisfies `P`.
abbrev pub Returns {ℓ₁ ℓ₂} : {Val : Type ℓ₁} → Run Val → (Val → Type ℓ₂) → Type (ℓ₁ ⊔ ℓ₂)
Returns {Val} call Post = (val : Val) × (call ≡ ok val) × Post val

pub >>=-eq-ok {ℓ κ} :
    {A : Type ℓ} {B : Type κ} (m : Run A) (f : A → Run B) {b : B}
    → (m >>= f) ≡ ok b
    → (a : A) × (m ≡ ok a) × (f a ≡ ok b)
>>=-eq-ok fault f h = cc
>>=-eq-ok (ok a) f h = (a, refl, h)
