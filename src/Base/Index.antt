-- ===== src/Base/Index.antt =====
-- Reading a list by index, in the form of a test, and equality of lists from equal reads.
use Prim.Native.Nat.{ℕ, zero, suc, ◌+◌, ◌-◌, ◌<◌}
use mathlib.Core.Path.{◌≡◌, refl, ap, ap₂, ◌∙◌}
use mathlib.Core.List.{List, [], ◌∷◌, ◌++◌}
use mathlib.Core.Option.{none, some, some-injective}
use native.Mathlib.Omega.{arith}
use bklib.Base.Tests.{ltb, if◌then◌else◌, ◌==◌}
use bklib.Base.Lists.{length, get_elem?, take, drop, set, replicate}
use mathlib.Core.Logic.{◌≢◌}

module _ {ℓ} {A : Type ℓ} where
  pub get_elem?-append :
      (xs ys : List A) (i : ℕ)
      → get_elem? (xs ++ ys) i
        ≡ (if ltb i (length xs) then get_elem? xs i else get_elem? ys (i - length xs))
  get_elem?-append [] ys i = ground arith
  get_elem?-append (x ∷ xs) ys zero = ground arith
  get_elem?-append (x ∷ xs) ys (suc i) = ground (arith, get_elem?-append xs ys i)

  pub get_elem?-take_prefix :
      (n : ℕ) (xs : List A) (i : ℕ)
      → get_elem? (take n xs) i ≡ (if ltb i n then get_elem? xs i else none)
  get_elem?-take_prefix zero xs i = ground arith
  get_elem?-take_prefix (suc n) [] i = ground arith
  get_elem?-take_prefix (suc n) (x ∷ xs) zero = ground arith
  get_elem?-take_prefix (suc n) (x ∷ xs) (suc i) = ground (arith, get_elem?-take_prefix n xs i)

  pub get_elem?-drop :
      (n : ℕ) (xs : List A) (i : ℕ) → get_elem? (drop n xs) i ≡ get_elem? xs (n + i)
  get_elem?-drop zero xs i = ap (get_elem? xs) (omega arith)
  get_elem?-drop (suc n) [] i = refl
  get_elem?-drop (suc n) (x ∷ xs) i = get_elem?-drop n xs i ∙ ap (get_elem? (x ∷ xs)) step
    where
      step : suc (n + i) ≡ suc n + i
      step = omega arith

  pub list_ext : (xs ys : List A) → ((i : ℕ) → get_elem? xs i ≡ get_elem? ys i) → xs ≡ ys
  list_ext [] [] h = refl
  list_ext [] (y ∷ ys) h = absurd (let e : none ≡ some y = h 0 in cc)
  list_ext (x ∷ xs) [] h = absurd (let e : some x ≡ none = h 0 in cc)
  list_ext (x ∷ xs) (y ∷ ys) h =
      ap₂ ◌∷◌ (some-injective _ _ (h 0)) (list_ext xs ys (λ i. h (suc i)))

  pub get_elem?-set :
      (xs : List A) (i j : ℕ) (v : A)
      → i < length xs
      → get_elem? (set xs i v) j ≡ (if i == j then some v else get_elem? xs j)
  get_elem?-set [] i j v h = absurd (omega arith)
  get_elem?-set (x ∷ xs) zero zero v h = ground arith
  get_elem?-set (x ∷ xs) zero (suc j) v h = ground arith
  get_elem?-set (x ∷ xs) (suc i) zero v h = ground arith
  get_elem?-set (x ∷ xs) (suc i) (suc j) v h = ground (arith, get_elem?-set xs i j v)

  pub take-suc :
      (xs : List A) (i : ℕ) (x : A)
      → get_elem? xs i ≡ some x
      → take (suc i) xs ≡ take i xs ++ x ∷ []
  take-suc [] i x e = absurd (let n : none ≡ some x = e in cc)
  take-suc (y ∷ xs) zero x e = ap (λ z. z ∷ []) (some-injective _ _ e)
  take-suc (y ∷ xs) (suc i) x e = ap (y ∷◌) (take-suc xs i x e)

  pub get_elem?-replicate :
      (n i : ℕ) (v : A) → get_elem? (replicate n v) i ≡ (if ltb i n then some v else none)
  get_elem?-replicate zero i v = ground arith
  get_elem?-replicate (suc n) zero v = ground arith
  get_elem?-replicate (suc n) (suc i) v = ground (arith, get_elem?-replicate n i v)

  pub get_elem?-set_self :
      (xs : List A) (i : ℕ) (v : A) → i < length xs → get_elem? (set xs i v) i ≡ some v
  get_elem?-set_self xs i v h = ground (arith, get_elem?-set xs i i v h)

  pub get_elem?-set_ne :
      (xs : List A) (i j : ℕ) (v : A)
      → i < length xs
      → i ≢ j
      → get_elem? (set xs i v) j ≡ get_elem? xs j
  get_elem?-set_ne xs i j v h ne = ground (arith, get_elem?-set xs i j v h)

  pub get_elem?-replicate-some : (n i : ℕ) (v a : A) → get_elem? (replicate n v) i ≡ some a → v ≡ a
  get_elem?-replicate-some zero i v a e = absurd (let k : none ≡ some a = e in cc)
  get_elem?-replicate-some (suc n) zero v a e = some-injective _ _ e
  get_elem?-replicate-some (suc n) (suc i) v a e = get_elem?-replicate-some n i v a e

  pub get_elem?_lt : (xs : List A) (i : ℕ) (a : A) → get_elem? xs i ≡ some a → i < length xs
  get_elem?_lt [] i a e = absurd (let k : none ≡ some a = e in cc)
  get_elem?_lt (x ∷ xs) zero a e = omega arith
  get_elem?_lt (x ∷ xs) (suc i) a e = omega (arith, get_elem?_lt xs i a e)
