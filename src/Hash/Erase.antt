-- ===== src/Hash/Erase.antt =====
-- Removing the node of a key from a list of nodes, and from the bucket that it is in.
use bklib.Base.{
  ℕ, zero, suc, ◌+◌, ◌≤◌, ◌<◌, ◌≡◌, refl, true, false, none, some, List, [], ◌∷◌, ◌++◌, arith,
  length, if◌then◌else◌, get_elem?, take, drop, Bool-cases, inl, inr,
}
use bklib.Hash.{Node, Keys, holds}
use bklib.Hash.Chains.{homed, last_match, count, IsKeys, same, Hashed}

module _ {K V : Type 0} (keys : Keys K) (k : K) where
  -- The nodes that do not hold the key.
  pub erase : List (Node K V) → List (Node K V)
  erase [] = []
  erase (x ∷ c) = let rest = erase c in if holds keys k x then rest else x ∷ rest

  pub erase_absent : (c : List (Node K V)) → count keys k c ≡ 0 → erase c ≡ c
  unfolding erase count
  erase_absent [] h = refl
  erase_absent (x ∷ c) h = ground (arith, erase_absent c)

  pub erase-homed : (m i : ℕ) (c : List (Node K V)) → erase (homed m i c) ≡ homed m i (erase c)
  unfolding erase homed
  erase-homed m i [] = refl
  erase-homed m i (x ∷ c) = ground (arith, erase-homed m i c)

  -- The place of the only node with the key, closed.
  pub erase_at :
      (c : List (Node K V)) (j : ℕ) (x : Node K V)
      → get_elem? c j ≡ some x
      → holds keys k x ≡ true
      → count keys k c ≤ 1
      → take j c ++ drop (suc j) c ≡ erase c
  unfolding erase count
  erase_at [] j x e h n = absurd (let z : none ≡ some x = e in cc)
  erase_at (y ∷ c) zero x e h n = ground (arith, erase_absent c)
  erase_at (y ∷ c) (suc j) x e h n = ground (arith, erase_at c j x e h, count_at c j x e h)
    where
      count_at :
          (c : List (Node K V)) (j : ℕ) (x : Node K V)
          → get_elem? c j ≡ some x
          → holds keys k x ≡ true
          → 0 < count keys k c
      count_at [] j x e h = absurd (let z : none ≡ some x = e in cc)
      count_at (y ∷ c) zero x e h = ground arith
      count_at (y ∷ c) (suc j) x e h = omega (arith, count_at c j x e h)

  pub length-erase : (c : List (Node K V)) → length (erase c) + count keys k c ≡ length c
  unfolding erase count
  length-erase [] = omega arith
  length-erase (x ∷ c) = ground (arith, length-erase c)

  pub Hashed-erase : (c : List (Node K V)) → Hashed keys c → Hashed keys (erase c)
  unfolding erase
  Hashed-erase [] h = tt
  Hashed-erase (x ∷ c) h = elim (Bool-cases (holds keys k x)) [
    | inl e ↦ rw e (Hashed-erase c h.1)
    | inr e ↦ rw e (h.0, Hashed-erase c h.1)
  ]

  module _ (laws : IsKeys keys) (q : K) where
    -- Keys that are one for the table are held by the same nodes, others are not.
    pub holds_same :
        (x : Node K V)
        → x.hash ≡ keys.hash x.key
        → same keys q k ≡ true
        → holds keys q x ≡ holds keys k x
    holds_same x e h =
        ground (arith, laws.same_symm q k, laws.same_trans k q x.key, laws.same_trans q k x.key)

    pub holds_apart :
        (x : Node K V)
        → x.hash ≡ keys.hash x.key
        → same keys q k ≡ false
        → holds keys q x ≡ true
        → holds keys k x ≡ false
    holds_apart x e h l = ground (arith, laws.same_symm k x.key, laws.same_trans q x.key k)

    pub last_match_same :
        (c : List (Node K V))
        → Hashed keys c
        → same keys q k ≡ true
        → last_match keys q c ≡ last_match keys k c
    unfolding last_match
    last_match_same [] h e = refl
    last_match_same (x ∷ c) h e = ground (arith, last_match_same c h.1 e, holds_same x h.0 e)

    -- What another key finds is not touched, and this one finds nothing any more.
    pub last_match-erase :
        (c : List (Node K V))
        → Hashed keys c
        → last_match keys q (erase c) ≡ (if same keys q k then none else last_match keys q c)
    unfolding erase last_match
    last_match-erase [] h = ground arith
    last_match-erase (x ∷ c) h = elim (Bool-cases (same keys q k)) [
      | inl e ↦ rw e (ground (arith, last_match-erase c h.1, e, holds_same x h.0 e))
      | inr e ↦ rw e (ground (arith, last_match-erase c h.1, e, holds_apart x h.0 e))
    ]

  pub count-erase-le : (q : K) (c : List (Node K V)) → count keys q (erase c) ≤ count keys q c
  unfolding erase count
  count-erase-le q [] = omega arith
  count-erase-le q (x ∷ c) = ground (arith, count-erase-le q c)
