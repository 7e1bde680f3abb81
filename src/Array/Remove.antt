-- ===== src/Array/Remove.antt =====
-- `array_remove_idx`: the slice that it removes, and the indices at which it removes what it should
-- not.
use bklib.Base.{
  ℕ, zero, suc, ◌+◌, ◌-◌, ◌≤◌, ◌<◌, ◌≡◌, some, List, ok, arith, ltb, take, drop, if◌then◌else◌,
  length, ap, length-take, length-drop, get_elem?, list_ext, get_elem?-append,
  get_elem?-take_prefix, get_elem?-drop, Returns, sym, ◌∙◌, ◌++◌, >>=-eq-ok, deref, ◌≢◌, ltb,
}
use bklib.Base.Int.{ℤ, pos, negsuc, ◌+ℤ◌, ◌-ℤ◌, ltb_ℤ, pos_part}
use bklib.Array.{Array, cut, cut_length, remove_idx, get, from_end, drop_count, remove_at}
use bklib.Array.Contents.{
  block, IsValid, memmove_lem, spliced, cells_some, get-past, get-from_end, length-spliced, get_lem,
  get_elem?-spliced, contents,
}
use bklib.Array.Cells.{memmove}

-- The number of elements that go: to the end, if `len` is not positive or reaches past it.
abbrev pub removed : ℕ → ℕ → ℤ → ℕ
removed count i (pos zero) = count - i
removed count i (pos (suc n)) = if ltb count (i + suc n) then count - i else suc n
removed count i (negsuc n) = count - i

cut_length-removed :
    (count i : ℕ) (len : ℤ) → i < count → cut_length count (pos i) len ≡ pos (removed count i len)
unfolding ◌+ℤ◌ ◌-ℤ◌
cut_length-removed count i (pos zero) h = ground arith
cut_length-removed count i (pos (suc n)) h = ground arith
cut_length-removed count i (negsuc n) h = ground arith

removed_bounds :
    (count i : ℕ) (len : ℤ)
    → i < count
    → (0 < removed count i len) × (i + removed count i len ≤ count)
removed_bounds count i (pos zero) h = omega arith
removed_bounds count i (pos (suc n)) h = ground arith
removed_bounds count i (negsuc n) h = omega arith

module _ {A : Type 0} where
  -- The block after `n` elements from `i` on went.
  abbrev closed : ℕ → ℕ → ℕ → List A → List A
  closed count i n xs =
      if ltb i (count - 1) then spliced i (take (count - i - n) (drop (i + n) xs)) xs else xs

  cut_lem :
      (i n : ℕ) (a : Array A)
      → IsValid a
      → i < a.count
      → i + n ≤ a.count
      → cut i (pos i) (pos n) a
        ≡ ok (record a { cells = some (closed a.count i n (block a)); count = a.count - n })
  unfolding cut ◌-ℤ◌
  cut_lem i n a v h k =
      ground (arith, cells_some a v, memmove_lem i (i + n) (a.count - i - n) (block a))

  remove-cut :
      (i : ℕ) (len : ℤ) (a : Array A)
      → IsValid a
      → i < a.count
      → remove_idx (pos i) len a ≡ cut i (pos i) (pos (removed a.count i len)) a
  unfolding remove_idx
  remove-cut i len a v h =
      ground
        (arith, get_lem a i v h, ap (λ l. cut i (pos i) l a) (cut_length-removed a.count i len h))

  get_elem?-cut :
      (i n : ℕ) (c : List A) (j : ℕ)
      → i ≤ length c
      → get_elem? (take i c ++ drop (i + n) c) j
        ≡ (if ltb j i then get_elem? c j else get_elem? c (j + n))
  get_elem?-cut i n c j h =
      let k : length (take i c) ≡ i = omega (arith, length-take i c) in
      ground (
        arith,
        get_elem?-append (take i c) (drop (i + n) c) j,
        get_elem?-take_prefix i c j,
        ap (λ k. get_elem? (drop (i + n) c) (j - k)) k,
        get_elem?-drop (i + n) c (j - i),
        index_back,
      )
    where
      index_back : i ≤ j → get_elem? c (i + n + (j - i)) ≡ get_elem? c (j + n)
      index_back k = ap (get_elem? c) (omega arith)

  closed-cuts :
      (count i n : ℕ) (xs : List A)
      → count ≤ length xs
      → i < count
      → 0 < n
      → i + n ≤ count
      → take (count - n) (closed count i n xs)
        ≡ take i (take count xs) ++ drop (i + n) (take count xs)
  closed-cuts count i n xs h k p l = list_ext _ _ λ j.
      let c = take count xs in
      let len : length c ≡ count = omega (arith, length-take count xs) in
      let seg = take (count - i - n) (drop (i + n) xs) in
      let s : length seg ≡ count - i - n =
        omega (arith, length-take (count - i - n) (drop (i + n) xs), length-drop (i + n) xs) in
      ground (
        arith,
        get_elem?-take_prefix (count - n) (closed count i n xs) j,
        get_elem?-spliced i seg xs j,
        get_elem?-take_prefix (count - i - n) (drop (i + n) xs) (j - i),
        get_elem?-drop (i + n) xs (j - i),
        get_elem?-cut i n c j,
        get_elem?-take_prefix count xs j,
        get_elem?-take_prefix count xs (j + n),
        same_cell j,
      )
    where
      same_cell : (j : ℕ) → i ≤ j → get_elem? xs (i + n + (j - i)) ≡ get_elem? xs (j + n)
      same_cell j q = ap (get_elem? xs) (omega arith)

  cut-ne : (p : ℕ) (i len : ℤ) (a : Array A) → 0 < pos_part len → 0 < a.count → cut p i len a ≢ ok a
  unfolding cut drop_count ◌-ℤ◌
  cut-ne p i len a h k e =
      let (cells, _, e') = >>=-eq-ok (deref a.cells) _ e in
      let (moved, _, e'') =
        >>=-eq-ok
          (if ltb_ℤ i (pos a.count -ℤ pos 1)
            then memmove p (p + pos_part len) (pos_part (pos a.count -ℤ i -ℤ len)) cells
            else ok cells)
          _ e' in
      ground arith

  module _ (a : Array A) (v : IsValid a) (len : ℤ) where
    remove_at-some :
        (i : ℤ) (p : ℕ)
        → get a i ≡ some p
        → cut p i (cut_length a.count i len) a ≡ remove_at len a i
    unfolding remove_at
    remove_at-some i p e = ground (arith, e)

    -- On a well-formed array and at an index inside it, `array_remove_idx` removes the elements
    -- from the index on: `len` of them, or all if `len` is not positive or reaches past the end.
    -- The others keep their order, and the array stays well-formed.
    pub remove_idx_lem :
        (i : ℕ)
        → i < a.count
        → let n = removed a.count i len in
          Returns (remove_idx (pos i) len a) λ r.
            IsValid r
            × (r.count + n ≡ a.count)
            × (contents r ≡ take i (contents a) ++ drop (i + n) (contents a))
    remove_idx_lem i h =
        let n = removed a.count i len in
        let (some_go, fit) = removed_bounds a.count i len h in
        let xs = block a in
        let seg = take (a.count - i - n) (drop (i + n) xs) in
        let s : length seg ≡ a.count - i - n = omega (
          arith,
          length-take (a.count - i - n) (drop (i + n) xs),
          length-drop (i + n) xs,
          v.allocated,
          v.fits,
        ) in
        let long : length (closed a.count i n xs) ≡ length xs =
          ground (arith, length-spliced i seg xs, v.allocated, v.fits) in
        (
          record a { cells = some (closed a.count i n xs); count = a.count - n },
          remove-cut i len a v h ∙ cut_lem i n a v h fit,
          (
            record {
              sized = v.sized;
              stepped = v.stepped;
              allocated = long ∙ v.allocated;
              fits = omega (arith, v.fits);
            },
            omega arith,
            closed-cuts a.count i n xs (omega (arith, v.allocated, v.fits)) h some_go fit,
          ),
        )

    -- A negative index counts from the end, down to the first element.
    pub remove_idx-from_end :
        (k : ℕ)
        → k < a.count
        → remove_idx (negsuc k) len a ≡ remove_idx (pos (a.count - suc k)) len a
    unfolding remove_idx ◌+ℤ◌
    remove_idx-from_end k h =
        let e : from_end a.count (negsuc k) ≡ from_end a.count (pos (a.count - suc k)) =
          ground arith in
        ap (remove_at len a) e

    -- An index at the end or past it: nothing happens.
    pub remove_idx-past : (i : ℕ) → a.count ≤ i → remove_idx (pos i) len a ≡ ok a
    unfolding remove_idx
    remove_idx-past i h = ground (arith, get-past a i h)

    -- On a well-formed array, at an index before the first element, down to minus twice the count,
    -- `array_remove_idx` does not leave the array as it is.
    pub remove_idx-below :
        (k : ℕ) → a.count ≤ k → k < a.count + a.count → remove_idx (negsuc k) len a ≢ ok a
    unfolding remove_idx ◌+ℤ◌ ◌-ℤ◌
    remove_idx-below k h l =
        let m = k - a.count in
        let e : from_end a.count (negsuc k) ≡ negsuc m = ground arith in
        let cut_some : 0 < pos_part (cut_length a.count (negsuc m) len) = ground arith in
        λ q.
          cut-ne (a.count - suc m) (negsuc m) (cut_length a.count (negsuc m) len) a cut_some
            (omega arith)
            (remove_at-some (negsuc m) (a.count - suc m) (get-from_end a m v (omega arith))
              ∙ ap (remove_at len a) (sym e)
              ∙ q)
