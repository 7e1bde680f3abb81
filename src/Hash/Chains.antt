-- ===== src/Hash/Chains.antt =====
-- The buckets as lists of nodes: what a key finds in them, and what moving the nodes to other buckets
-- does to that.
use bklib.Base.{
  ℕ, ◌+◌, ◌%◌, ◌≤◌, ◌≡◌, refl, ap, Bool, true, false, Option, none, some, List, [], ◌∷◌, ◌++◌,
  arith, ◌==◌, if◌then◌else◌, ==_iff, Bool-cases, inl, inr, ◌&&◌,
}
use bklib.Base.Int.{is_zero}
use bklib.Hash.{Node, Keys, holds}

-- Whether two keys are one for the table: their hashes agree, and `m_cmp` returns 0.
abbrev pub same : {K : Type 0} → Keys K → K → K → Bool
same keys a b = keys.hash a == keys.hash b && is_zero (keys.cmp a b)

-- What `m_hash` and `m_cmp` must satisfy together. `m_cmp` by itself need not.
pub record IsKeys {K : Type 0} (keys : Keys K) : Type 0 where
  pub same_refl : (a : K) → same keys a a ≡ true
  pub same_symm : (a b : K) → same keys a b ≡ same keys b a
  pub same_trans : (a b c : K) → same keys a b ≡ true → same keys b c ≡ true → same keys a c ≡ true

abbrev pub to_nat : Bool → ℕ
to_nat true = 1
to_nat false = 0

module _ {K V : Type 0} where
  -- The nodes whose hash leads to bucket `i` of `n`.
  unfoldable pub homed : ℕ → ℕ → List (Node K V) → List (Node K V)
  homed n i [] = []
  homed n i (x ∷ c) = let rest = homed n i c in if x.hash % n == i then x ∷ rest else rest

  pub homed-append :
      (n i : ℕ) (c d : List (Node K V)) → homed n i (c ++ d) ≡ homed n i c ++ homed n i d
  unfolding homed
  homed-append n i [] d = refl
  homed-append n i (x ∷ c) d = ground (arith, homed-append n i c d)

module _ {K V : Type 0} (keys : Keys K) where
  -- Every node keeps the hash of its key.
  abbrev pub Hashed : List (Node K V) → Type 0
  Hashed [] = Unit {0}
  Hashed (x ∷ c) = (x.hash ≡ keys.hash x.key) × Hashed c

  pub Hashed-append : (c d : List (Node K V)) → Hashed c → Hashed d → Hashed (c ++ d)
  Hashed-append [] d h l = l
  Hashed-append (x ∷ c) d h l = (h.0, Hashed-append c d h.1 l)

  pub Hashed-homed : (n i : ℕ) (c : List (Node K V)) → Hashed c → Hashed (homed n i c)
  unfolding homed
  Hashed-homed n i [] h = tt
  Hashed-homed n i (x ∷ c) h = elim (Bool-cases (x.hash % n == i)) [
    | inl e ↦ rw e (h.0, Hashed-homed n i c h.1)
    | inr e ↦ rw e (Hashed-homed n i c h.1)
  ]

  -- The value of the last node with the key.
  unfoldable pub last_match : K → List (Node K V) → Option V
  last_match k [] = none
  last_match k (x ∷ c) = elim (last_match k c) [
    | some v ↦ some v
    | none ↦ if holds keys k x then some x.val else none
  ]

  unfoldable pub count : K → List (Node K V) → ℕ
  count k [] = 0
  count k (x ∷ c) = to_nat (holds keys k x) + count k c

  pub last_match-append :
      (k : K) (c d : List (Node K V))
      → last_match k (c ++ d)
        ≡ elim (last_match k d) as (λ _. Option V) [ some v ↦ some v | none ↦ last_match k c ]
  unfolding last_match
  last_match-append k [] d = ground arith
  last_match-append k (x ∷ c) d = ground (arith, last_match-append k c d)

  pub last_match-none : (k : K) (c : List (Node K V)) → count k c ≡ 0 → last_match k c ≡ none
  unfolding last_match count
  last_match-none k [] h = refl
  last_match-none k (x ∷ c) h = ground (arith, last_match-none k c)

  pub last_match-none_count : (k : K) (c : List (Node K V)) → last_match k c ≡ none → count k c ≡ 0
  unfolding last_match count
  last_match-none_count k [] h = refl
  last_match-none_count k (x ∷ c) h = ground (arith, last_match-none_count k c)

  pub count-append : (k : K) (c d : List (Node K V)) → count k (c ++ d) ≡ count k c + count k d
  unfolding count
  count-append k [] d = omega arith
  count-append k (x ∷ c) d = omega (arith, count-append k c d)

  -- A key is found among the nodes of its own bucket.
  pub last_match-homed :
      (k : K) (n : ℕ) (c : List (Node K V))
      → last_match k (homed n (keys.hash k % n) c) ≡ last_match k c
  unfolding last_match homed
  last_match-homed k n [] = refl
  last_match-homed k n (x ∷ c) = ground (
    arith,
    last_match-homed k n c,
    ==_iff (keys.hash k) x.hash,
    ap (λ h. h % n) {x = keys.hash k} {y = x.hash},
  )

  pub count-homed-le : (k : K) (n i : ℕ) (c : List (Node K V)) → count k (homed n i c) ≤ count k c
  unfolding count homed
  count-homed-le k n i [] = omega arith
  count-homed-le k n i (x ∷ c) = ground (arith, count-homed-le k n i c)
