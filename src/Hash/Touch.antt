-- ===== src/Hash/Touch.antt =====
-- A list of nodes with the value of one key changed, and what the keys find in it.
use bklib.Base.{
  ℕ, zero, suc, ◌≤◌, ◌<◌, ◌≡◌, refl, ap, true, Option, none, some, List, [], ◌∷◌, if◌then◌else◌,
  arith, length, get_elem?, set, Bool-cases, inl, inr,
}
use bklib.Hash.{Node, Keys, holds}
use bklib.Hash.Chains.{homed, last_match, count, IsKeys, same, Hashed}
use bklib.Hash.Erase.{holds_same, holds_apart}
use mathlib.Core.Option.{some-injective}

module _ {K V : Type 0} where
  -- A node with its value changed.
  abbrev pub with_val : (V → V) → Node K V → Node K V
  with_val g x = record x { val = g x.val }

module _ {K V : Type 0} (keys : Keys K) (k : K) (g : V → V) where
  -- The nodes with the key's value changed.
  pub touch : List (Node K V) → List (Node K V)
  touch [] = []
  touch (x ∷ c) = let rest = touch c in if holds keys k x then with_val g x ∷ rest else x ∷ rest

  pub touch_absent : (c : List (Node K V)) → count keys k c ≡ 0 → touch c ≡ c
  unfolding touch count
  touch_absent [] h = refl
  touch_absent (x ∷ c) h = ground (arith, touch_absent c)

  pub touch-homed : (m i : ℕ) (c : List (Node K V)) → touch (homed m i c) ≡ homed m i (touch c)
  unfolding touch homed
  touch-homed m i [] = refl
  touch-homed m i (x ∷ c) = ground (arith, touch-homed m i c)

  count_at :
      (c : List (Node K V)) (j : ℕ) (x : Node K V)
      → get_elem? c j ≡ some x
      → holds keys k x ≡ true
      → 0 < count keys k c
  unfolding count
  count_at [] j x e h = absurd (let z : none ≡ some x = e in cc)
  count_at (y ∷ c) zero x e h = ground arith
  count_at (y ∷ c) (suc j) x e h = omega (arith, count_at c j x e h)

  pub touch_at :
      (c : List (Node K V)) (j : ℕ) (x : Node K V)
      → get_elem? c j ≡ some x
      → holds keys k x ≡ true
      → count keys k c ≤ 1
      → set c j (with_val g x) ≡ touch c
  unfolding touch count
  touch_at [] j x e h n = refl
  touch_at (y ∷ c) zero x e h n =
      ground (arith, touch_absent c, ap (with_val g) (some-injective y x e))
  touch_at (y ∷ c) (suc j) x e h n = ground (arith, touch_at c j x e h, count_at c j x e h)

  pub length-touch : (c : List (Node K V)) → length (touch c) ≡ length c
  unfolding touch
  length-touch [] = refl
  length-touch (x ∷ c) = ground (arith, length-touch c)

  pub count-touch : (q : K) (c : List (Node K V)) → count keys q (touch c) ≡ count keys q c
  unfolding touch count
  count-touch q [] = refl
  count-touch q (x ∷ c) = ground (arith, count-touch q c)

  pub Hashed-touch : (c : List (Node K V)) → Hashed keys c → Hashed keys (touch c)
  unfolding touch
  Hashed-touch [] h = tt
  Hashed-touch (x ∷ c) h = elim (Bool-cases (holds keys k x)) [
    | inl e ↦ rw e (h.0, Hashed-touch c h.1)
    | inr e ↦ rw e (h.0, Hashed-touch c h.1)
  ]

  abbrev pub map_val : Option V → Option V
  map_val none = none
  map_val (some v) = some (g v)

  pub last_match-touch :
      (laws : IsKeys keys) (q : K) (c : List (Node K V))
      → Hashed keys c
      → last_match keys q (touch c)
        ≡ (if same keys q k then map_val (last_match keys k c) else last_match keys q c)
  unfolding touch last_match
  last_match-touch laws q [] h = ground arith
  last_match-touch laws q (x ∷ c) h = elim (Bool-cases (same keys q k)) [
    | inl e ↦
        rw e (ground (arith, last_match-touch laws q c h.1, e, holds_same keys k laws q x h.0 e))
    | inr e ↦
        rw e (ground (arith, last_match-touch laws q c h.1, e, holds_apart keys k laws q x h.0 e))
  ]
