-- ===== src/Hash/Visit.antt =====
-- The order in which the nodes of a table are visited, bucket by bucket, each from its last node: the
-- visited nodes are those of the table, and a key finds among them what it finds in the table.
use bklib.Base.{
  ℕ, zero, suc, ◌+◌, ◌%◌, ◌≤◌, ◌<◌, ◌≡◌, refl, sym, ap, ◌∙◌, none, List, [], ◌∷◌, ◌++◌, ◌&&◌, arith,
  leb, ltb, ◌==◌, length, if◌then◌else◌, length-append, reverse, ==_iff, subst,
}
use bklib.Hash.{Node, Keys}
use bklib.Hash.Chains.{
  homed, last_match, count, last_match-append, last_match-none, last_match-homed, count-append,
  to_nat, Hashed, Hashed-append, Hashed-homed,
}
use mathlib.Core.List.{reverse-append}

module _ {K V : Type 0} where
  -- The nodes of `k` buckets from `i` on, each bucket from its last to its first.
  unfoldable pub visited : ℕ → List (Node K V) → ℕ → ℕ → List (Node K V)
  visited m nodes zero i = []
  visited m nodes (suc k) i = reverse (homed m i nodes) ++ visited m nodes k (suc i)

  pub length-reverse : (c : List (Node K V)) → length (reverse c) ≡ length c
  length-reverse [] = refl
  length-reverse (x ∷ c) =
      ap length (reverse-append (x ∷ []) c)
      ∙ length-append (reverse c) (x ∷ [])
      ∙ omega (arith, length-reverse c)

  length-homed_cons :
      (m i : ℕ) (x : Node K V) (c : List (Node K V))
      → length (homed m i (x ∷ c)) ≡ to_nat (x.hash % m == i) + length (homed m i c)
  unfolding homed
  length-homed_cons m i x c = ground arith

  -- A node more is visited once, if its bucket is.
  length-visited_cons :
      (m : ℕ) (x : Node K V) (c : List (Node K V)) (k i : ℕ)
      → length (visited m (x ∷ c) k i)
        ≡ to_nat (leb i (x.hash % m) && ltb (x.hash % m) (i + k)) + length (visited m c k i)
  unfolding visited
  length-visited_cons m x c zero i = ground arith
  length-visited_cons m x c (suc k) i =
      length-append (reverse (homed m i (x ∷ c))) (visited m (x ∷ c) k (suc i))
      ∙ ground (
        arith,
        length-append (reverse (homed m i c)) (visited m c k (suc i)),
        length-reverse (homed m i (x ∷ c)),
        length-reverse (homed m i c),
        length-homed_cons m i x c,
        length-visited_cons m x c k (suc i),
      )

length-visited_nil : (K V : Type 0) (m k i : ℕ) → length (visited {K = K} {V = V} m [] k i) ≡ 0
unfolding visited homed
length-visited_nil K V m zero i = refl
length-visited_nil K V m (suc k) i = length-visited_nil K V m k (suc i)

module _ {K V : Type 0} where
  -- Over all buckets as many nodes are visited as there are.
  pub length-visited : (m : ℕ) (c : List (Node K V)) → 0 < m → length (visited m c m 0) ≡ length c
  length-visited m [] h = length-visited_nil K V m m 0
  length-visited m (x ∷ c) h = length-visited_cons m x c m 0 ∙ ground (arith, length-visited m c h)

module _ {K V : Type 0} (keys : Keys K) (q : K) where
  count-reverse : (c : List (Node K V)) → count keys q (reverse c) ≡ count keys q c
  unfolding count
  count-reverse [] = refl
  count-reverse (x ∷ c) =
      ap (count keys q) (reverse-append (x ∷ []) c)
      ∙ count-append keys q (reverse c) (x ∷ [])
      ∙ omega (arith, count-reverse c)

  last_match-reverse :
      (c : List (Node K V))
      → count keys q c ≤ 1
      → last_match keys q (reverse c) ≡ last_match keys q c
  unfolding count last_match
  last_match-reverse [] h = refl
  last_match-reverse (x ∷ c) h =
      ap (last_match keys q) (reverse-append (x ∷ []) c)
      ∙ ground (
        arith,
        last_match-append keys q (reverse c) (x ∷ []),
        last_match-reverse c,
        last_match-none keys q c,
      )

  pub count-homed :
      (m i : ℕ) (c : List (Node K V))
      → count keys q (homed m i c) ≡ (if keys.hash q % m == i then count keys q c else 0)
  unfolding count homed
  count-homed m i [] = ground arith
  count-homed m i (x ∷ c) = ground (
    arith,
    count-homed m i c,
    ==_iff (keys.hash q) x.hash,
    ap (λ h. h % m) {x = keys.hash q} {y = x.hash},
  )

  count-visited :
      (m : ℕ) (c : List (Node K V)) (k i : ℕ)
      → count keys q (visited m c k i)
        ≡ (if leb i (keys.hash q % m) && ltb (keys.hash q % m) (i + k) then count keys q c else 0)
  unfolding count visited
  count-visited m c zero i = ground arith
  count-visited m c (suc k) i =
      count-append keys q (reverse (homed m i c)) (visited m c k (suc i))
      ∙ ground (arith, count-reverse (homed m i c), count-homed m i c, count-visited m c k (suc i))

  last_match_own :
      (m i : ℕ) (c : List (Node K V))
      → keys.hash q % m ≡ i
      → last_match keys q (homed m i c) ≡ last_match keys q c
  last_match_own m i c e =
      ap (λ j. last_match keys q (homed m j c)) (sym e) ∙ last_match-homed keys q m c

  last_match-visited :
      (m : ℕ) (c : List (Node K V)) (k i : ℕ)
      → count keys q c ≤ 1
      → last_match keys q (visited m c k i) ≡ (
          if leb i (keys.hash q % m) && ltb (keys.hash q % m) (i + k)
          then last_match keys q c
          else none)
  unfolding last_match visited
  last_match-visited m c zero i h = ground arith
  last_match-visited m c (suc k) i h =
      last_match-append keys q (reverse (homed m i c)) (visited m c k (suc i))
      ∙ ground (
        arith,
        last_match-visited m c k (suc i),
        last_match-reverse (homed m i c),
        last_match_own m i c,
        count-homed m i c,
        count-reverse (homed m i c),
        last_match-none keys q (reverse (homed m i c)),
      )

  -- Over all buckets a key finds among the visited nodes what it finds among the nodes of the table.
  pub visited_same :
      (m : ℕ) (c : List (Node K V))
      → 0 < m
      → count keys q c ≤ 1
      → (count keys q (visited m c m 0) ≡ count keys q c)
        × (last_match keys q (visited m c m 0) ≡ last_match keys q c)
  visited_same m c h k =
      (count-visited m c m 0 ∙ ground arith, last_match-visited m c m 0 k ∙ ground arith)

module _ {K V : Type 0} (keys : Keys K) where
  Hashed-reverse : (c : List (Node K V)) → Hashed keys c → Hashed keys (reverse c)
  Hashed-reverse [] h = tt
  Hashed-reverse (x ∷ c) h =
      subst (Hashed keys) (sym (reverse-append (x ∷ []) c))
        (Hashed-append keys (reverse c) (x ∷ []) (Hashed-reverse c h.1) (h.0, tt))

  pub Hashed-visited :
      (m : ℕ) (c : List (Node K V)) (k i : ℕ) → Hashed keys c → Hashed keys (visited m c k i)
  unfolding visited
  Hashed-visited m c zero i h = tt
  Hashed-visited m c (suc k) i h =
      Hashed-append keys (reverse (homed m i c)) (visited m c k (suc i))
        (Hashed-reverse (homed m i c) (Hashed-homed keys m i c h)) (Hashed-visited m c k (suc i) h)
