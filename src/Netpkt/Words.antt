-- ===== src/Netpkt/Words.antt =====
-- Words in memory: what was written is read back, and writes to different places do not meet.
use bklib.Base.{
  ℕ, zero, suc, ◌+◌, ◌*◌, ◌/◌, ◌%◌, ◌<◌, ◌≡◌, ◌≢◌, refl, sym, ap, ◌∙◌, true, false, Option, none,
  some, List, [], ◌∷◌, ok, fault, arith, get_elem?, get_elem?-some, get_elem?-set_self, set, length,
  length-set, ltb, lt→ltb, ltb→lt, Bool-cases, inl, inr, ◌⊎◌,
}
use mathlib.Core.Option.{some-injective}
use bklib.Netpkt.Memory.{load_16, store, store_16}

-- The memory with a word written.
abbrev pub set_16 : List ℕ → ℕ → ℕ → List ℕ
set_16 m p v = set (set m p (v % 256)) (p + 1) (v / 256 % 256)

abbrev pub AllBytes : List ℕ → Type 0
AllBytes [] = Unit {0}
AllBytes (b ∷ m) = (b < 256) × AllBytes m

module _ {A : Type 0} where
  pub set-set_same : (xs : List A) (i : ℕ) (v w : A) → set (set xs i v) i w ≡ set xs i w
  set-set_same [] i v w = refl
  set-set_same (x ∷ xs) zero v w = refl
  set-set_same (x ∷ xs) (suc i) v w = ap (x ∷◌) (set-set_same xs i v w)

  pub set-set_ne :
      (xs : List A) (i j : ℕ) (v w : A) → i ≢ j → set (set xs i v) j w ≡ set (set xs j w) i v
  set-set_ne [] i j v w n = refl
  set-set_ne (x ∷ xs) zero zero v w n = absurd (n refl)
  set-set_ne (x ∷ xs) zero (suc j) v w n = refl
  set-set_ne (x ∷ xs) (suc i) zero v w n = refl
  set-set_ne (x ∷ xs) (suc i) (suc j) v w n = ap (x ∷◌) (set-set_ne xs i j v w (λ e. n (ap suc e)))

  pub get_elem?-set_other :
      (xs : List A) (i j : ℕ) (v : A) → i ≢ j → get_elem? (set xs i v) j ≡ get_elem? xs j
  get_elem?-set_other [] i j v n = refl
  get_elem?-set_other (x ∷ xs) zero zero v n = absurd (n refl)
  get_elem?-set_other (x ∷ xs) zero (suc j) v n = refl
  get_elem?-set_other (x ∷ xs) (suc i) zero v n = refl
  get_elem?-set_other (x ∷ xs) (suc i) (suc j) v n =
      get_elem?-set_other xs i j v (λ e. n (ap suc e))

  pub set-get_elem? : (xs : List A) (i : ℕ) (v : A) → get_elem? xs i ≡ some v → set xs i v ≡ xs
  set-get_elem? [] i v e = refl
  set-get_elem? (x ∷ xs) zero v e = ap (λ y. y ∷ xs) (sym (some-injective _ _ e))
  set-get_elem? (x ∷ xs) (suc i) v e = ap (x ∷◌) (set-get_elem? xs i v e)

get_elem?-AllBytes : (m : List ℕ) (i b : ℕ) → AllBytes m → get_elem? m i ≡ some b → b < 256
get_elem?-AllBytes [] i b a e = absurd (let q : none ≡ some b = e in cc)
get_elem?-AllBytes (x ∷ m) zero b a e = omega (arith, a.0, some-injective _ _ e)
get_elem?-AllBytes (x ∷ m) (suc i) b a e = get_elem?-AllBytes m i b a.1 e

-- A place that can be read, and its neighbour.
pub load_16-ok :
    (m : List ℕ) (p v : ℕ)
    → load_16 m p ≡ ok v
    → (a : ℕ) × (b : ℕ) × (get_elem? m p ≡ some a)
      × (get_elem? m (p + 1) ≡ some b)
      × (v ≡ a + 256 * b)
unfolding load_16
load_16-ok m p v e = go (get_elem? m p) (get_elem? m (p + 1)) refl refl
  where
    go :
        (x y : Option ℕ)
        → get_elem? m p ≡ x
        → get_elem? m (p + 1) ≡ y
        → (a : ℕ) × (b : ℕ) × (get_elem? m p ≡ some a)
          × (get_elem? m (p + 1) ≡ some b)
          × (v ≡ a + 256 * b)
    go none y p₀ p₁ = absurd (let q : fault ≡ ok v = (rw p₀ at e) in cc)
    go (some a) none p₀ p₁ = absurd (let q : fault ≡ ok v = (rw (p₀, p₁) at e) in cc)
    go (some a) (some b) p₀ p₁ =
        (a, b, p₀, p₁, (let q : ok (a + 256 * b) ≡ ok v = (rw (p₀, p₁) at e) in cc))

pub load_16-room : (m : List ℕ) (p : ℕ) → p + 1 < length m → (v : ℕ) × (load_16 m p ≡ ok v)
unfolding load_16
load_16-room m p h =
    let (a, first) = get_elem?-some m p (omega (arith, h)) in
    let (b, second) = get_elem?-some m (p + 1) h in (a + 256 * b, rw (first, second) refl)

pub store_16-room : (m : List ℕ) (p v : ℕ) → p + 1 < length m → store_16 m p v ≡ ok (set_16 m p v)
unfolding store_16
store_16-room m p v h =
    rw
      (
        lt→ltb p (length m) (omega (arith, h)),
        length-set m p (v % 256),
        lt→ltb (p + 1) (length m) h,
      )
      refl

pub store_16-ok :
    (m m' : List ℕ) (p v : ℕ) → store_16 m p v ≡ ok m' → (m' ≡ set_16 m p v) × (p + 1 < length m)
unfolding store_16
store_16-ok m m' p v e = elim (Bool-cases (ltb (p + 1) (length m))) [
  | inl r ↦
      let room : p + 1 < length m = ltb→lt (p + 1) (length m) r in
      (ok-injective (sym e ∙ store_16-room m p v room), room)
  | inr r ↦ absurd (no_room r)
]
  where
    ok-injective : {x y : List ℕ} → ok x ≡ ok y → x ≡ y
    ok-injective q = cc

    second :
        ltb (p + 1) (length m) ≡ false
        → (store m p v ≡ ok (set m p (v % 256))) ⊎ (store m p v ≡ fault)
        → ⊥
    second r (inl f) =
        absurd (let q : fault ≡ ok m' = (rw (f, length-set m p (v % 256), r) at e) in cc)
    second r (inr f) = absurd (let q : fault ≡ ok m' = (rw f at e) in cc)

    no_room : ltb (p + 1) (length m) ≡ false → ⊥
    no_room r = second r (first (Bool-cases (ltb p (length m))))
      where
        first :
            (ltb p (length m) ≡ true) ⊎ (ltb p (length m) ≡ false)
            → (store m p v ≡ ok (set m p (v % 256))) ⊎ (store m p v ≡ fault)
        first (inl t) = inl (rw t refl)
        first (inr t) = inr (rw t refl)

-- A word is read back.
pub load_16-set_16 :
    (m : List ℕ) (p v : ℕ) → p + 1 < length m → v < 65536 → load_16 (set_16 m p v) p ≡ ok v
unfolding load_16
load_16-set_16 m p v h k = rw (first, second) (ap ok (omega (arith, k)))
  where
    other : p + 1 ≢ p
    other e = absurd (omega (arith, e))

    first : get_elem? (set_16 m p v) p ≡ some (v % 256)
    first =
        get_elem?-set_other (set m p (v % 256)) (p + 1) p (v / 256 % 256) other
        ∙ get_elem?-set_self m p (v % 256) (omega (arith, h))

    second : get_elem? (set_16 m p v) (p + 1) ≡ some (v / 256 % 256)
    second =
        get_elem?-set_self (set m p (v % 256)) (p + 1) (v / 256 % 256)
          (omega (arith, h, length-set m p (v % 256)))

-- A word that is overwritten leaves nothing.
pub set_16-set_16 : (m : List ℕ) (p v w : ℕ) → set_16 (set_16 m p v) p w ≡ set_16 m p w
set_16-set_16 m p v w =
    ap (λ l. set l (p + 1) (w / 256 % 256))
      (set-set_ne (set m p (v % 256)) (p + 1) p (v / 256 % 256) (w % 256) other)
    ∙ set-set_same (set (set m p (v % 256)) p (w % 256)) (p + 1) (v / 256 % 256) (w / 256 % 256)
    ∙ ap (λ l. set l (p + 1) (w / 256 % 256)) (set-set_same m p (v % 256) (w % 256))
  where
    other : p + 1 ≢ p
    other e = absurd (omega (arith, e))

-- Writing back what is there changes nothing.
pub set_16-load_16 :
    (m : List ℕ) (p v w : ℕ) → AllBytes m → load_16 m p ≡ ok v → set_16 (set_16 m p w) p v ≡ m
set_16-load_16 m p v w a e =
    let (x, y, first, second, value) = load_16-ok m p v e in
    let small : x < 256 = get_elem?-AllBytes m p x a first in
    let small' : y < 256 = get_elem?-AllBytes m (p + 1) y a second in
    set_16-set_16 m p w v
    ∙ ap (λ l. set l (p + 1) (v / 256 % 256))
        (set-get_elem? m p (v % 256) (first ∙ ap some (omega (arith, value, small))))
    ∙ set-get_elem? m (p + 1) (v / 256 % 256)
        (second ∙ ap some (omega (arith, value, small, small')))

-- Words at different places.
pub set_16-set_16_ne :
    (m : List ℕ) (p q v w : ℕ) → p + 1 < q → set_16 (set_16 m p v) q w ≡ set_16 (set_16 m q w) p v
set_16-set_16_ne m p q v w h =
    ap (λ l. set l (q + 1) (w / 256 % 256))
      (set-set_ne (set m p (v % 256)) (p + 1) q (v / 256 % 256) (w % 256)
        (λ e. absurd (omega (arith, h, e))))
    ∙ set-set_ne (set (set m p (v % 256)) q (w % 256)) (p + 1) (q + 1) (v / 256 % 256)
        (w / 256 % 256) (λ e. absurd (omega (arith, h, e)))
    ∙ ap (λ l. set l (p + 1) (v / 256 % 256))
        (ap (λ l. set l (q + 1) (w / 256 % 256))
            (set-set_ne m p q (v % 256) (w % 256) (λ e. absurd (omega (arith, h, e))))
          ∙ set-set_ne (set m q (w % 256)) p (q + 1) (v % 256) (w / 256 % 256)
              (λ e. absurd (omega (arith, h, e))))

-- A byte beside the word.
pub get_elem?-set_16 :
    (m : List ℕ) (p v q : ℕ) → p ≢ q → p + 1 ≢ q → get_elem? (set_16 m p v) q ≡ get_elem? m q
get_elem?-set_16 m p v q n n' =
    get_elem?-set_other (set m p (v % 256)) (p + 1) q (v / 256 % 256) n'
    ∙ get_elem?-set_other m p q (v % 256) n

pub load_16-set_16_ne :
    (m : List ℕ) (p v q : ℕ) → p + 1 < q → load_16 (set_16 m p v) q ≡ load_16 m q
unfolding load_16
load_16-set_16_ne m p v q h =
    rw
      (
        get_elem?-set_16 m p v q (λ e. absurd (omega (arith, h, e)))
            (λ e. absurd (omega (arith, h, e))),
        get_elem?-set_16 m p v (q + 1) (λ e. absurd (omega (arith, h, e)))
            (λ e. absurd (omega (arith, h, e))),
      )
      refl

pub length-set_16 : (m : List ℕ) (p v : ℕ) → length (set_16 m p v) ≡ length m
length-set_16 m p v =
    length-set (set m p (v % 256)) (p + 1) (v / 256 % 256) ∙ length-set m p (v % 256)

AllBytes-set : (m : List ℕ) (p b : ℕ) → b < 256 → AllBytes m → AllBytes (set m p b)
AllBytes-set [] p b h a = tt
AllBytes-set (x ∷ m) zero b h a = (h, a.1)
AllBytes-set (x ∷ m) (suc p) b h a = (a.0, AllBytes-set m p b h a.1)

pub AllBytes-set_16 : (m : List ℕ) (p v : ℕ) → AllBytes m → AllBytes (set_16 m p v)
AllBytes-set_16 m p v a =
    AllBytes-set (set m p (v % 256)) (p + 1) (v / 256 % 256) (omega arith)
      (AllBytes-set m p (v % 256) (omega arith) a)
