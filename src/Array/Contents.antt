-- ===== src/Array/Contents.antt =====
-- What a well-formed array holds, and how it is read.
use bklib.Base.{
  get_elem?-append, get_elem?-take_prefix, get_elem?-drop, ltb, if◌then◌else◌, ℕ, suc, ◌+◌, ◌-◌,
  ◌≤◌, ◌<◌, ◌≡◌, sym, ap, ◌∙◌, Option, none, some, List, [], ◌++◌, ok, arith, le→leb, length, take,
  drop, replicate, get_elem?, take-take, Option-cases, inl, inr, length-append, length-take,
  length-drop, length-replicate, take-append, take-append_le, take_all, get_elem?-take,
  get_elem?-some,
}
use bklib.Base.Int.{pos, negsuc}
use bklib.Array.Cells.{resize, write, read, memmove}
use bklib.Array.{Array, get, load, init}

module _ {A : Type 0} where
  -- The allocated cells.
  abbrev pub cells_of : Option (List A) → List A
  cells_of none = []
  cells_of (some xs) = xs

  abbrev pub block : Array A → List A
  block a = cells_of a.cells

  -- The elements.
  abbrev pub contents : Array A → List A
  contents a = take a.count (block a)

  -- Sizes are positive, the block has `max` cells, and the elements lie in it.
  pub record IsValid (a : Array A) : Type 0 where
    pub sized : 0 < a.eltsz
    pub stepped : 0 < a.blocksz
    pub allocated : length (block a) ≡ a.max
    pub fits : a.count ≤ a.max

  pub length-contents : (a : Array A) → IsValid a → length (contents a) ≡ a.count
  length-contents a v = omega (arith, length-take a.count (block a))

  -- `xs` with `ys` from cell `i` on.
  abbrev pub spliced : ℕ → List A → List A → List A
  spliced i ys xs = take i xs ++ (ys ++ drop (i + length ys) xs)

  pub write_lem :
      (i : ℕ) (ys xs : List A) → i + length ys ≤ length xs → write i ys xs ≡ ok (spliced i ys xs)
  unfolding write
  write_lem i ys xs h = rw (le→leb _ _ h)

  pub length-spliced :
      (i : ℕ) (ys xs : List A) → i + length ys ≤ length xs → length (spliced i ys xs) ≡ length xs
  length-spliced i ys xs h = omega (
    arith,
    length-append (take i xs) (ys ++ drop (i + length ys) xs),
    length-append ys (drop (i + length ys) xs),
    length-take i xs,
    length-drop (i + length ys) xs,
  )

  -- A write just behind the first `i` cells: the cells up to its end.
  pub take-spliced :
      (i : ℕ) (ys xs zs : List A)
      → i ≤ length xs
      → take (i + length ys) (take i xs ++ (ys ++ zs)) ≡ take i xs ++ ys
  take-spliced i ys xs zs h =
      ap (λ k. take (k + length ys) (take i xs ++ (ys ++ zs))) shift
      ∙ take-append (length ys) (take i xs) (ys ++ zs)
      ∙ ap (λ t. take i xs ++ t)
          (take-append_le (length ys) ys zs (omega arith) ∙ take_all (length ys) ys (omega arith))
    where
      shift : i ≡ length (take i xs)
      shift = omega (arith, length-take i xs)

  -- A write leaves the cells in front of it.
  pub take_before : (i : ℕ) (xs zs : List A) → i ≤ length xs → take i (take i xs ++ zs) ≡ take i xs
  take_before i xs zs h =
      take-append_le i (take i xs) zs (omega (arith, length-take i xs))
      ∙ take_all i (take i xs) (omega (arith, length-take i xs))

  pub get_elem?-spliced :
      (i : ℕ) (ys xs : List A) (j : ℕ)
      → i + length ys ≤ length xs
      → get_elem? (spliced i ys xs) j ≡ (
          if ltb j i
          then get_elem? xs j
          else if ltb j (i + length ys)
          then get_elem? ys (j - i)
          else get_elem? xs j)
  get_elem?-spliced i ys xs j h =
      let rest = drop (i + length ys) xs in
      let n : length (take i xs) ≡ i = omega (arith, length-take i xs) in
      ground (
        arith,
        get_elem?-append (take i xs) (ys ++ rest) j,
        get_elem?-take_prefix i xs j,
        ap (λ k. get_elem? (ys ++ rest) (j - k)) n,
        get_elem?-append ys rest (j - i),
        get_elem?-drop (i + length ys) xs (j - i - length ys),
        index_back,
      )
    where
      index_back :
          i + length ys ≤ j → get_elem? xs (i + length ys + (j - i - length ys)) ≡ get_elem? xs j
      index_back k = ap (get_elem? xs) (omega arith)

  pub memmove_lem :
      (dst src n : ℕ) (xs : List A)
      → dst + n ≤ length xs
      → src + n ≤ length xs
      → memmove dst src n xs ≡ ok (spliced dst (take n (drop src xs)) xs)
  unfolding memmove read
  memmove_lem dst src n xs h k =
      let l : length (take n (drop src xs)) ≡ n =
        omega (arith, length-take n (drop src xs), length-drop src xs) in
      rw (le→leb _ _ k) (write_lem dst _ xs (omega arith))

  pub length-resize : (junk : A) (n : ℕ) (xs : List A) → length (resize junk n xs) ≡ n
  unfolding resize
  length-resize junk n xs = omega (
    arith,
    length-take n (xs ++ replicate n junk),
    length-append xs (replicate n junk),
    length-replicate n junk,
  )

  -- `realloc` keeps the old cells.
  pub take-resize :
      (junk : A) (i n : ℕ) (xs : List A)
      → i ≤ n
      → i ≤ length xs
      → take i (resize junk n xs) ≡ take i xs
  unfolding resize
  take-resize junk i n xs h k =
      take-take i n (xs ++ replicate n junk) h ∙ take-append_le i xs (replicate n junk) k

  -- A cell that an element lies in: the block is there, and the access succeeds.
  pub cells_some : (a : Array A) → IsValid a → 0 < a.max → a.cells ≡ some (block a)
  cells_some a v h = elim (Option-cases a.cells) [
    | inl e ↦ absurd (omega (arith, v.allocated, ap (λ c. length (cells_of c)) e))
    | inr (xs, e) ↦ e ∙ ap (λ c. some (cells_of c)) (sym e)
  ]

  pub has_cells : (a : Array A) → IsValid a → 0 < a.max → (xs : List A) × (a.cells ≡ some xs)
  has_cells a v h = (block a, cells_some a v h)

  pub load_lem :
      (a : Array A) (i : ℕ)
      → IsValid a
      → i < a.count
      → (x : A) × (load a (pos i) ≡ ok x) × (get_elem? (contents a) i ≡ some x)
  unfolding load
  load_lem a i v h =
      let (x, e) = get_elem?-some (block a) i (omega arith) in
      (x, ground (arith, cells_some a v (omega arith), e), get_elem?-take a.count (block a) i h ∙ e)

  pub get_lem : (a : Array A) (i : ℕ) → IsValid a → i < a.count → get a (pos i) ≡ some i
  unfolding get
  get_lem a i v h = rw (cells_some a v (omega arith)) (ground arith)

  pub get-past : (a : Array A) (i : ℕ) → a.count ≤ i → get a (pos i) ≡ none
  unfolding get
  get-past a i h = ground arith

  -- A negative index counts from the end, down to the first element.
  pub get-from_end :
      (a : Array A) (k : ℕ) → IsValid a → k < a.count → get a (negsuc k) ≡ some (a.count - suc k)
  unfolding get
  get-from_end a k v h = rw (cells_some a v (omega arith)) (ground arith)

  pub get-before : (a : Array A) (k : ℕ) → a.count ≤ k → get a (negsuc k) ≡ none
  unfolding get
  get-before a k h = ground arith

  pub init-IsValid :
      (eltsz blocksz : ℕ) → 0 < eltsz → 0 < blocksz → IsValid (init {A = A} eltsz (pos blocksz))
  unfolding init
  init-IsValid eltsz blocksz h k = record {
    sized = h;
    stepped = ground arith;
    allocated = omega arith;
    fits = omega arith;
  }
