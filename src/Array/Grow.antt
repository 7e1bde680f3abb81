-- ===== src/Array/Grow.antt =====
-- array.c, the operations that make an array longer: `array_add` with its `realloc`, and those that
-- write into the room that it makes. `mem` is what the C library gives.
pub mod Add
pub mod Append
pub mod Insert
use bklib.Base.{
  ℕ, zero, suc, ◌+◌, ◌-◌, ◌*◌, Bool, true, false, not, Option, none, some, List, [], ◌∷◌, Run, ok,
  fault, ◌>>=◌, deref, leb, ltb, ◌==◌, if◌then◌else◌, length, replicate,
}
use bklib.Base.Int.{ℤ, pos}
use bklib.Array.Cells.{Memory, resize, write, read, memmove}
use bklib.Array.{Array, init, get}

module _ {A : Type 0} where
  -- `memcpy` through the pointer `p` into the array.
  pub store : ℕ → List A → Array A → Run (Array A)
  unfolding write
  store p elts a = do
    cells ← deref a.cells
    cells' ← write p elts cells
    ok (record a { cells = some cells' })

  -- The `n` elements behind the pointer `array_get(a, 0)`, as `memcpy` reads them.
  pub read_all : Array A → Run (List A)
  unfolding get read
  read_all a = do p ← deref (get a (pos 0)); cells ← deref a.cells; read p a.count cells

  -- The end of `array_insert`, with `end` pointing to the new cells: what stands at `idx` is moved
  -- to `end`, and the elements are written in its place.
  pub place : ℤ → List A → ℕ → Array A → Run (Option ℕ × Array A)
  unfolding get memmove store
  place idx elts end a = elim (get a idx) [
    | none ↦ ok (none, a)
    | some start ↦ if ltb end start then fault else do
      cells ← deref a.cells
      cells' ← memmove end start (end - start) cells
      a' ← store start elts (record a { cells = some cells' })
      ok (some start, a')
  ]

module _ {A : Type 0} (mem : Memory A) where
  open mem use {grant, zeroed, junk}

  -- The end of `array_add`: `memset(p, 0, num * eltsz)` and the new count.
  fill : ℕ → Array A → Run (Option ℕ × Array A)
  unfolding write
  fill zero a = ok (none, a)
  fill (suc n) a = do
    cells ← deref a.cells
    cells' ← write a.count (replicate (suc n) zeroed) cells
    ok (some a.count, record a { cells = some cells'; count = a.count + suc n })

  -- The growth in `array_add`. `m_max` is set before `realloc` is asked, and `m_array` is
  -- overwritten by what it returns, the null pointer too.
  grow : ℕ → Array A → Bool × Array A
  unfolding resize write
  grow num a =
      let max = a.count + (if ltb a.blocksz num then num else a.blocksz) in
      let old = resize junk max (elim a.cells [ none ↦ [] | some xs ↦ xs ]) in
      let tail = write a.count (replicate (max - a.count) zeroed) old in
      elim (grant (max * a.eltsz)) [
        | false ↦ (false, record a { cells = none; max = max })
        | true ↦
            (true, record a { cells = elim tail [ ok xs ↦ some xs | fault ↦ none ]; max = max })
      ]

  -- `array_add`: a pointer to the first of `num` new elements, all zero, or null.
  unfoldable pub add : ℕ → Array A → Run (Option ℕ × Array A)
  unfolding fill grow
  add num a =
      if a.eltsz == 0
      then ok (none, a)
      else if leb (a.count + num) a.max
      then fill num a
      else let (granted, a') = grow num a in if granted then fill num a' else ok (none, a')

  -- `array_append`. The elements are not in the array itself, whose memory may move.
  unfoldable pub append : List A → Array A → Run (Option ℕ × Array A)
  unfolding add store
  append [] a = ok (none, a)
  append (x ∷ xs) a = do
    (p, a') ← add (length (x ∷ xs)) a
    elim p [ none ↦ ok (none, a') | some i ↦ store i (x ∷ xs) a' >>= λ a''. ok (some i, a'') ]

  -- `array_insert`.
  unfoldable pub insert : ℤ → List A → Array A → Run (Option ℕ × Array A)
  unfolding add place
  insert idx [] a = ok (none, a)
  insert idx (x ∷ xs) a = do
    (p, a') ← add (length (x ∷ xs)) a
    elim p [ none ↦ ok (none, a') | some end ↦ place idx (x ∷ xs) end a' ]

  -- `array_copy`: `dst` is overwritten, and the result of `array_append` is not looked at.
  unfoldable pub copy : Array A → Run (Array A)
  unfolding init append read_all
  copy src =
      let dst = init src.eltsz (pos src.blocksz) in
      if src.count == 0
      then ok dst
      else do elts ← read_all src; (_, dst') ← append elts dst; ok dst'

  -- `array_concat`: `dst` first. The sizes must agree.
  unfoldable pub concat : Array A → Array A → Run (Option ℕ × Array A)
  unfolding add store read_all
  concat dst src = if not (dst.eltsz == src.eltsz) then ok (none, dst) else do
    (p, dst') ← add src.count dst
    elim p [
      | none ↦ ok (none, dst')
      | some i ↦ do elts ← read_all src; dst'' ← store i elts dst'; ok (some i, dst'')
    ]

  -- `array_set_count`: a longer count adds `len` elements, and is then set whatever came of it.
  unfoldable pub set_count : ℕ → Array A → Run (Array A)
  unfolding add
  set_count len a =
      if ltb a.count len
      then (do (_, a') ← add len a; ok (record a' { count = len }))
      else ok (record a { count = len })
