-- ===== src/Array/Search.antt =====
-- array.c, the searches: `array_find` and what uses it, and `array_bsearch`. `cmp` is the caller's
-- comparison of a needle with an element: below zero, zero or above it.
pub mod Bsearch
pub mod Find
use bklib.Base.{
  ℕ, zero, suc, ◌+◌, ◌-◌, ◌/◌, Bool, true, false, none, some, Run, ok, fault, ◌>>=◌, leb, ◌==◌,
  if◌then◌else◌, [], ◌∷◌,
}
use bklib.Base.Int.{ℤ, pos, negsuc, is_neg, is_zero}
use bklib.Array.Cells.{Memory}
use bklib.Array.{Array, load}
use bklib.Array.Grow.{append}

-- -1
abbrev pub minus_one : ℤ
minus_one = negsuc 0

module _ {A B : Type 0} (cmp : B → A → ℤ) (needle : B) where
  -- The loop of `array_find`, with `i` elements left to look at, the last first.
  pub find_loop : ℕ → Array A → Run ℤ
  unfolding load
  find_loop zero a = ok minus_one
  find_loop (suc i) a = do
    x ← load a (pos i)
    if is_zero (cmp needle x) then ok (pos i) else find_loop i a

  unfoldable pub find : Array A → Run ℤ
  unfolding find_loop
  find a = find_loop a.count a

module _ {A : Type 0} (cmp : A → A → ℤ) where
  -- `array_add_nodup`: the index of an element that is there already, 0 for one that was added, -1
  -- for a failure. The element is copied as by `array_append`.
  unfoldable pub add_nodup : Memory A → A → Array A → Run (ℤ × Array A)
  unfolding find append
  add_nodup mem elt a = do
    i ← find cmp elt a
    elim i [
      | pos i ↦ ok (pos i, a)
      | negsuc _ ↦ do
        (p, a') ← append mem (elt ∷ []) a
        elim p [ none ↦ ok (minus_one, a') | some _ ↦ ok (pos 0, a') ]
    ]

  -- The loop of `array_subset`, with `i` elements of the subset left.
  pub subset_loop : ℕ → Array A → Array A → Run Bool
  unfolding load find
  subset_loop zero sub super = ok true
  subset_loop (suc i) sub super = do
    x ← load sub (pos i)
    j ← find cmp x super
    if is_neg j then ok false else subset_loop i sub super

  unfoldable pub subset : Array A → Array A → Run Bool
  unfolding subset_loop
  subset sub super = subset_loop sub.count sub super

module _ {A B : Type 0} (cmp : B → A → ℤ) (needle : B) (a : Array A) where
  -- The outcome of `cmp(cmp_elt, array_get(array, i))`.
  pub probe : ℕ → Run ℤ
  unfolding load
  probe i = load a (pos i) >>= λ x. ok (cmp needle x)

  -- The first loop of `array_bsearch` between the indices `lo` and `hi`, on fuel.
  pub narrow : ℕ → ℕ → ℕ → Run ℕ
  unfolding probe
  narrow zero lo hi = fault
  narrow (suc fuel) lo hi =
      let m = (lo + hi) / 2 in
      let below = if hi == m then ok hi else narrow fuel lo m in
      let last = probe hi >>= (λ j. if is_neg j then ok lo else ok hi) in
      let above = if lo == m then last else narrow fuel m hi in
      if leb hi lo
      then ok lo
      else do i ← probe m; if is_zero i then ok m else if is_neg i then below else above

  -- The second loop: down to the first of equal elements.
  pub walk_back : ℕ → Run ℕ
  unfolding probe
  walk_back zero = ok zero
  walk_back (suc i) = do c ← probe i; if is_zero c then walk_back i else ok (suc i)

  unfoldable pub bsearch : Run ℤ
  unfolding narrow walk_back
  bsearch = if a.count == 0 then ok minus_one else do
    c ← probe 0
    if is_neg c
        then ok minus_one
        else do i ← narrow a.count 0 (a.count - 1); j ← walk_back i; ok (pos j)
