-- ===== src/Array/Cells.antt =====
-- The memory calls that array.c makes on one allocated block, a list of cells: `realloc`, `memcpy`
-- and `memset` (both `write`), and `memmove`. An access past the end of the block is a fault.
use bklib.Base.{
  ℕ, ◌+◌, Bool, List, ◌++◌, Run, ok, fault, ◌>>=◌, leb, if◌then◌else◌, length, take, drop,
  replicate,
}

-- What the C library gives: whether `realloc` grants so many bytes, what `memset` to 0 leaves in a
-- cell, and what a cell that was never written holds.
pub record Memory (A : Type 0) : Type 0 where
  pub grant : ℕ → Bool
  pub zeroed : A
  pub junk : A

module _ {A : Type 0} where
  -- `n` cells, the old ones first.
  unfoldable pub resize : A → ℕ → List A → List A
  resize junk n xs = take n (xs ++ replicate n junk)

  -- The cells from `i` on become `ys`.
  unfoldable pub write : ℕ → List A → List A → Run (List A)
  write i ys xs =
      if leb (i + length ys) (length xs)
      then ok (take i xs ++ (ys ++ drop (i + length ys) xs))
      else fault

  -- The `n` cells from `i` on.
  unfoldable pub read : ℕ → ℕ → List A → Run (List A)
  read i n xs = if leb (i + n) (length xs) then ok (take n (drop i xs)) else fault

  unfoldable pub memmove : ℕ → ℕ → ℕ → List A → Run (List A)
  unfolding read write
  memmove dst src n xs = read src n xs >>= λ ys. write dst ys xs
