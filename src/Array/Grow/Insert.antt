-- ===== src/Array/Grow/Insert.antt =====
-- `array_insert`: where it inserts, and where its `memmove` goes wrong.
use bklib.Base.{
  ◌⊎◌, get_elem?-take, ℕ, ◌+◌, ◌-◌, ◌≤◌, ◌<◌, ◌≡◌, refl, sym, ap, ◌∙◌, true, some, List, [], ◌∷◌,
  ◌++◌, ok, fault, Returns, arith, leb, ltb, le→leb, lt→leb_false, length, take, drop, replicate,
  if◌then◌else◌, length-replicate, length-take, length-drop, get_elem?, list_ext, get_elem?-append,
  get_elem?-take_prefix, get_elem?-drop,
}
use bklib.Base.Int.{pos}
use bklib.Array.Cells.{Memory, read, memmove}
use bklib.Array.{Array}
use bklib.Array.Contents.{
  get_elem?-spliced, block, contents, IsValid, write_lem, spliced, length-spliced, cells_some,
  get_lem,
}
use bklib.Array.Grow.{store, place, insert}
use bklib.Array.Grow.Add.{request, capacity, Extends, add_lem}
use bklib.Array.Grow.Append.{Extends-prefix}

module _ {A : Type 0} where
  -- The block after `place`: the cells from `i` up to `n` were moved to `n`, then `elts` written at `i`.
  abbrev placed : ℕ → ℕ → List A → List A → List A
  placed i n elts xs = spliced i elts (spliced n (take (n - i) (drop i xs)) xs)

  place_lem :
      (i n : ℕ) (elts : List A) (b : Array A)
      → IsValid b
      → i ≤ n
      → i < b.count
      → i + length elts ≤ b.count
      → n ≤ b.count
      → place (pos i) elts n b ≡ (
          if leb (n + (n - i)) b.max
          then ok (some i, record b { cells = some (placed i n elts (block b)) })
          else fault)
  unfolding place store memmove read
  place_lem i n elts b v h k l m =
      let xs = block b in
      let seg = take (n - i) (drop i xs) in
      let len : length seg ≡ n - i =
        omega (arith, length-take (n - i) (drop i xs), length-drop i xs) in
      ground (
        arith,
        get_lem b i v k,
        cells_some b v,
        write_lem n seg xs,
        length-spliced n seg xs,
        write_lem i elts (spliced n seg xs),
        lt→leb_false (n + length seg) (length xs),
      )

  -- A read of `placed`, position by position.
  get_elem?-placed :
      (i n : ℕ) (elts xs : List A) (j : ℕ)
      → i ≤ n
      → n + (n - i) ≤ length xs
      → i + length elts ≤ length xs
      → get_elem? (placed i n elts xs) j ≡ (
          if ltb j i
          then get_elem? xs j
          else if ltb j (i + length elts)
          then get_elem? elts (j - i)
          else if ltb j n
          then get_elem? xs j
          else if ltb j (n + (n - i))
          then get_elem? xs (i + (j - n))
          else get_elem? xs j)
  get_elem?-placed i n elts xs j h k l =
      let seg = take (n - i) (drop i xs) in
      let len : length seg ≡ n - i =
        omega (arith, length-take (n - i) (drop i xs), length-drop i xs) in
      let outer =
        get_elem?-spliced i elts (spliced n seg xs) j (omega (arith, length-spliced n seg xs)) in
      let inner = get_elem?-spliced n seg xs j (omega arith) in
      ground (
        arith,
        outer,
        inner,
        get_elem?-take_prefix (n - i) (drop i xs) (j - n),
        get_elem?-drop i xs (j - n),
      )

  -- The insertion that is meant, position by position.
  get_elem?-inserted :
      (i : ℕ) (elts c : List A) (j : ℕ)
      → i ≤ length c
      → get_elem? (take i c ++ (elts ++ drop i c)) j ≡ (
          if ltb j i
          then get_elem? c j
          else if ltb j (i + length elts)
          then get_elem? elts (j - i)
          else get_elem? c (j - length elts))
  get_elem?-inserted i elts c j h =
      let n : length (take i c) ≡ i = omega (arith, length-take i c) in
      ground (
        arith,
        get_elem?-append (take i c) (elts ++ drop i c) j,
        get_elem?-take_prefix i c j,
        ap (λ k. get_elem? (elts ++ drop i c) (j - k)) n,
        get_elem?-append elts (drop i c) (j - i),
        get_elem?-drop i c (j - i - length elts),
        index_back,
      )
    where
      index_back :
          i + length elts ≤ j
          → get_elem? c (i + (j - i - length elts)) ≡ get_elem? c (j - length elts)
      index_back k = ap (get_elem? c) (omega arith)

  placed-inserts :
      (i n : ℕ) (elts xs : List A)
      → i ≤ n
      → n + length elts ≤ length xs
      → (i ≡ n) ⊎ (i + length elts ≡ n)
      → take (n + length elts) (placed i n elts xs)
        ≡ take i (take n xs) ++ (elts ++ drop i (take n xs))
  placed-inserts i n elts xs h k which = list_ext _ _ λ j.
      let c = take n xs in
      let len : length c ≡ n = omega (arith, length-take n xs) in
      ground (
        arith,
        get_elem?-take_prefix (n + length elts) (placed i n elts xs) j,
        get_elem?-placed i n elts xs j,
        get_elem?-inserted i elts c j,
        get_elem?-take_prefix n xs j,
        get_elem?-take_prefix n xs (j - length elts),
        same_cell j,
      )
    where
      same_cell :
          (j : ℕ)
          → n ≤ j
          → i + length elts ≡ n
          → get_elem? xs (i + (j - n)) ≡ get_elem? xs (j - length elts)
      same_cell j p q = ap (get_elem? xs) (omega arith)

module _ {A : Type 0} (mem : Memory A) where
  open mem use {grant, zeroed}

  insert-place :
      (i : ℕ) (elts : List A) (a : Array A)
      → IsValid a
      → 0 < length elts
      → grant (request (length elts) a) ≡ true
      → (b : Array A) × Extends a (replicate (length elts) zeroed) b
        × (b.max ≡ capacity (length elts) a)
        × (insert mem (pos i) elts a ≡ place (pos i) elts a.count b)
  unfolding insert
  insert-place i [] a v h g = absurd (omega arith)
  insert-place i (x ∷ xs) a v h g =
      let ((p, b), run, (at, ext, m)) = add_lem mem (length (x ∷ xs)) a v h g in
      (b, ext, m, ground (arith, run, at))

  module _ (i : ℕ) (elts : List A) (a : Array A) (v : IsValid a) (some_new : 0 < length elts)
      (g : grant (request (length elts) a) ≡ true) (within : i ≤ a.count) where
    -- On a well-formed array and with memory granted, `array_insert` of at least one element at
    -- the end, or as many elements before the end as are inserted, puts the elements there and
    -- those behind the place after them, and returns a pointer to the first.
    pub insert_lem :
        (i ≡ a.count) ⊎ (i + length elts ≡ a.count)
        → Returns (insert mem (pos i) elts a) λ r.
          (r.0 ≡ some i)
          × IsValid r.1
          × (contents r.1 ≡ take i (contents a) ++ (elts ++ drop i (contents a)))
    insert_lem which =
        let (b, ext, _, run) = insert-place i elts a v some_new g in
        let z : length (replicate (length elts) zeroed) ≡ length elts = length-replicate _ zeroed in
        let w = ext.valid in
        let room : a.count + (a.count - i) ≤ b.max = omega (arith, ext.counted, w.fits) in
        let done =
          place_lem i a.count elts b w within (omega (arith, ext.counted))
            (omega (arith, ext.counted)) (omega (arith, ext.counted)) in
        let xs = block b in
        let seg = take (a.count - i) (drop i xs) in
        let len : length seg ≡ a.count - i =
          omega (arith, length-take (a.count - i) (drop i xs), length-drop i xs, w.allocated) in
        (
          (some i, record b { cells = some (placed i a.count elts xs) }),
          run ∙ done ∙ rw (le→leb _ _ room),
          (
            refl,
            record {
              sized = w.sized;
              stepped = w.stepped;
              allocated =
                  length-spliced i elts (spliced a.count seg xs)
                    (omega (arith, length-spliced a.count seg xs, w.allocated, ext.counted, w.fits))
                  ∙ length-spliced a.count seg xs (omega (arith, w.allocated))
                  ∙ w.allocated;
              fits = w.fits;
            },
            ap (λ k. take k (placed i a.count elts xs)) (omega (arith, ext.counted))
                ∙ placed-inserts i a.count elts xs within
                    (omega (arith, w.allocated, w.fits, ext.counted)) which
                ∙ ap (λ t. take i t ++ (elts ++ drop i t)) (Extends-prefix a b _ v ext),
          ),
        )

    -- On a well-formed array and with memory granted, `array_insert` at an index whose distance
    -- from the end, counted from the old end, reaches past the block writes past the block.
    pub insert_overrun :
        capacity (length elts) a < a.count + (a.count - i) → insert mem (pos i) elts a ≡ fault
    insert_overrun far =
        let (b, ext, m, run) = insert-place i elts a v some_new g in
        let z : length (replicate (length elts) zeroed) ≡ length elts = length-replicate _ zeroed in
        run
        ∙ place_lem i a.count elts b ext.valid within (omega (arith, ext.counted))
            (omega (arith, ext.counted)) (omega (arith, ext.counted))
        ∙ rw (lt→leb_false (a.count + (a.count - i)) b.max (omega arith))

    -- On a well-formed array and with memory granted, where the block holds the copy that
    -- `array_insert` makes and the elements end before the old end, the element behind the
    -- inserted ones is the one that stood there before: nothing was shifted.
    pub insert_unshifted :
        i + length elts < a.count
        → a.count + (a.count - i) ≤ capacity (length elts) a
        → Returns (insert mem (pos i) elts a) λ r.
          get_elem? (contents r.1) (i + length elts) ≡ get_elem? (contents a) (i + length elts)
    insert_unshifted short room =
        let (b, ext, m, run) = insert-place i elts a v some_new g in
        let z : length (replicate (length elts) zeroed) ≡ length elts = length-replicate _ zeroed in
        let w = ext.valid in
        let xs = block b in
        let j = i + length elts in
        let same : get_elem? (contents a) j ≡ get_elem? xs j =
          ap (λ c. get_elem? c j) (sym (Extends-prefix a b _ v ext))
          ∙ get_elem?-take a.count xs j short in
        (
          (some i, record b { cells = some (placed i a.count elts xs) }),
          run
              ∙ place_lem i a.count elts b w within (omega (arith, ext.counted))
                  (omega (arith, ext.counted)) (omega (arith, ext.counted))
              ∙ rw (le→leb (a.count + (a.count - i)) b.max (omega arith)),
          get_elem?-take b.count (placed i a.count elts xs) j (omega (arith, ext.counted))
              ∙ ground (arith, get_elem?-placed i a.count elts xs j, same, w.allocated),
        )
