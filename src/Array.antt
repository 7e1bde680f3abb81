-- ===== src/Array.antt =====
-- array.c, array.h and array_inline.c: `array_t`, a contiguous array of cells of one size.
-- A cell is one element: its bytes are a value of `A`, and a pointer into `m_array` is the index of
-- the cell that it points to, `none` for the null pointer. Sizes are natural numbers: an `eltsz`
-- that is not positive is 0, and so is a number of elements below zero, for the tests treat these
-- alike. A count that would become negative is a `fault`.
pub mod Cells
pub mod Contents
pub mod Grow
pub mod Remove
pub mod Search
mod Tests
use bklib.Base.{
  ℕ, zero, suc, ◌+◌, ◌-◌, ◌*◌, ◌/◌, Bool, true, false, ◌||◌, not, Option, none, some, List, [], ◌∷◌,
  Run, ok, fault, ◌>>=◌, deref, leb, ltb, ◌==◌, if◌then◌else◌, length, replicate, get_elem?,
}
use bklib.Base.Int.{ℤ, pos, negsuc, ◌+ℤ◌, ◌-ℤ◌, ltb_ℤ, leb_ℤ, is_neg, is_zero, pos_part}
use Cells.{memmove}

-- `free_func` is a callback together with its `farg`, by a number that names them.
pub record Array (A : Type 0) : Type 0 where
  pub eltsz : ℕ
  pub blocksz : ℕ
  pub cells : Option (List A)
  pub count : ℕ
  pub max : ℕ
  pub free_func : Option ℕ

abbrev pub default_blocksz : ℕ
default_blocksz = 10

abbrev block_size : ℤ → ℕ
block_size blocksz = if leb_ℤ blocksz (pos 0) then default_blocksz else pos_part blocksz

-- How `array_clear` gives the memory back: by the array's callback, or by `free`.
pub data Release (A : Type 0) : Type 0 where
  called : ℕ → Option (List A) → Release A
  freed : Option (List A) → Release A

-- `array_get`: a negative index counts from the end.
abbrev from_end : ℕ → ℤ → ℤ
from_end count i = if is_neg i then i +ℤ pos count else i

abbrev index_in : ℕ → ℤ → Option ℕ
index_in count (pos i) = if ltb i count then some i else none
index_in count (negsuc i) = none

-- The number of elements to remove from `i` on.
abbrev cut_length : ℕ → ℤ → ℤ → ℤ
unfolding ◌+ℤ◌ ◌-ℤ◌
cut_length count i len =
    if leb_ℤ len (pos 0) || ltb_ℤ (pos count) (i +ℤ len) then pos count -ℤ i else len

module _ {A : Type 0} where
  unfoldable pub init : ℕ → ℤ → Array A
  init eltsz blocksz = record {
    eltsz = eltsz;
    blocksz = block_size blocksz;
    cells = none;
    count = 0;
    max = 0;
    free_func = none;
  }

  unfoldable pub import : List A → ℕ → ℤ → Option ℕ → Array A
  import elts eltsz blocksz free_func = record {
    eltsz = eltsz;
    blocksz = block_size blocksz;
    cells = some elts;
    count = length elts;
    max = length elts;
    free_func = free_func;
  }

  unfoldable pub extract : Array A → Option (List A) × Array A
  extract a = (a.cells, record a { cells = none; count = 0; max = 0; free_func = none })

  unfoldable pub set_free : Option ℕ → Array A → Array A
  set_free f a = record a { free_func = f }

  unfoldable pub clear : Array A → Release A × Array A
  clear a = (
    elim a.free_func [ some f ↦ called f a.cells | none ↦ freed a.cells ],
    record a { cells = none; count = 0; max = 0 },
  )

  unfoldable pub get : Array A → ℤ → Option ℕ
  unfolding ◌+ℤ◌
  get a i = elim a.cells [
    | none ↦ none
    | some _ ↦ if a.eltsz == 0 then none else index_in a.count (from_end a.count i)
  ]

  -- The element that the pointer `array_get(a, i)` points to.
  unfoldable pub load : Array A → ℤ → Run A
  unfolding get
  load a i = do p ← deref (get a i); cells ← deref a.cells; deref (get_elem? cells p)

  drop_count : ℕ → Array A → Run (Array A)
  drop_count len a = if leb len a.count then ok (record a { count = a.count - len }) else fault

  -- The end of `array_remove_idx`: `len` elements go, from index `i`, whose pointer is `p`.
  cut : ℕ → ℤ → ℤ → Array A → Run (Array A)
  unfolding ◌+ℤ◌ ◌-ℤ◌ memmove drop_count
  cut p i len a = do
    cells ← deref a.cells
    moved ←
        if ltb_ℤ i (pos a.count -ℤ pos 1)
        then memmove p (p + pos_part len) (pos_part (pos a.count -ℤ i -ℤ len)) cells
        else ok cells
    drop_count (pos_part len) (record a { cells = some moved })

  -- `array_remove_idx` from the call of `array_get` on.
  remove_at : ℤ → Array A → ℤ → Run (Array A)
  unfolding get cut
  remove_at len a i = elim (get a i) [ none ↦ ok a | some p ↦ cut p i (cut_length a.count i len) a ]

  -- `array_remove_idx`; an index below zero is corrected here, and once more by `array_get`.
  unfoldable pub remove_idx : ℤ → ℤ → Array A → Run (Array A)
  unfolding ◌+ℤ◌ remove_at
  remove_idx i len a = remove_at len a (from_end a.count i)

  -- `array_remove_ptr`: the pointer to cell `p` has the index `p`.
  unfoldable pub remove_ptr : ℕ → Array A → Run (Array A)
  unfolding remove_idx
  remove_ptr p a = remove_idx (pos p) (pos 1) a
