-- ===== src/Array/Tests.antt =====
-- The array's theorems at concrete arrays, and runs of its operations.
use bklib.Base.{
  ℕ, ◌+◌, ◌≡◌, ◌≢◌, refl, true, false, none, some, [], ◌∷◌, ok, fault, ◌>>=◌, Returns, arith,
  replicate, inr,
}
use bklib.Base.Int.{ℤ, pos, negsuc}
use bklib.Array.{Array, remove_idx}
use bklib.Array.Cells.{Memory}
use bklib.Array.Contents.{contents, IsValid}
use bklib.Array.Grow.{add, insert}
use bklib.Array.Grow.Add.{capacity, Extends, add_lem, add-add_refused}
use bklib.Array.Grow.Insert.{insert_lem, insert_overrun}
use bklib.Array.Remove.{remove_idx_lem, remove_idx-below}
use bklib.Array.Search.{find, add_nodup, bsearch}
use bklib.Array.Search.Find.{LastHit, hit, IsDistinct, find_lem, add_nodup-IsDistinct}
use bklib.Array.Search.Bsearch.{IsOrdered, Located, bsearch_lem}
use Prim.Native.Nat.{compare, Ordering}

-- Memory that is always granted, and memory that never is.
abbrev plenty : Memory ℕ
plenty = record { grant = λ _. true; zeroed = 0; junk = 99 }

abbrev refusing : Memory ℕ
refusing = record { grant = λ _. false; zeroed = 0; junk = 99 }

-- Three elements in a block of eight cells, and the same in a block of three.
abbrev sample : Array ℕ
sample = record {
  eltsz = 4;
  blocksz = 2;
  cells = some (10 ∷ 20 ∷ 30 ∷ 0 ∷ 0 ∷ 0 ∷ 0 ∷ 0 ∷ []);
  count = 3;
  max = 8;
  free_func = none;
}

abbrev full : Array ℕ
full = record sample { cells = some (10 ∷ 20 ∷ 30 ∷ []); max = 3 }

sample-IsValid : IsValid sample
sample-IsValid = omega arith

full-IsValid : IsValid full
full-IsValid = omega arith

add_lem_example :
    Returns
      (add plenty 2 full)
      λ r. (r.0 ≡ some 3) × Extends full (replicate 2 0) r.1 × (r.1.max ≡ capacity 2 full)
add_lem_example = add_lem plenty 2 full full-IsValid (omega arith) refl

add-add_refused_example : (add refusing 1 full >>= λ r. add refusing 2 r.1) ≡ fault
add-add_refused_example =
    add-add_refused refusing 1 2 full full-IsValid (omega arith) refl (omega arith) (omega arith)

insert_lem_example :
    Returns
      (insert plenty (pos 2) (7 ∷ []) sample)
      λ r. (r.0 ≡ some 2) × IsValid r.1 × (contents r.1 ≡ 10 ∷ 20 ∷ 7 ∷ 30 ∷ [])
insert_lem_example =
    insert_lem plenty 2 (7 ∷ []) sample sample-IsValid (omega arith) refl (omega arith) (inr refl)

insert_overrun_example : insert plenty (pos 0) (7 ∷ []) full ≡ fault
insert_overrun_example =
    insert_overrun plenty 0 (7 ∷ []) full full-IsValid (omega arith) refl (omega arith)
      (omega arith)

remove_idx_lem_example :
    Returns
      (remove_idx (pos 1) (pos 1) sample)
      λ r. IsValid r × (r.count + 1 ≡ 3) × (contents r ≡ 10 ∷ 30 ∷ [])
remove_idx_lem_example = remove_idx_lem sample sample-IsValid (pos 1) 1 (omega arith)

remove_idx-below_example : remove_idx (negsuc 3) (pos 1) sample ≢ ok sample
remove_idx-below_example =
    remove_idx-below sample sample-IsValid (pos 1) 3 (omega arith) (omega arith)

abbrev cmp_int : ℕ → ℕ → ℤ
cmp_int a b = elim (compare a b) [
  | Ordering.lt ↦ negsuc 0
  | Ordering.eq ↦ pos 0
  | Ordering.gt ↦ pos 1
]

find_lem_example : Returns (find cmp_int 20 sample) (LastHit (hit cmp_int 20 (contents sample)) 3)
find_lem_example = find_lem cmp_int 20 sample sample-IsValid

sample-IsDistinct : IsDistinct cmp_int (contents sample)
sample-IsDistinct = record { apart = λ j y e i h. ground arith }

add_nodup-IsDistinct_example :
    Returns (add_nodup cmp_int plenty 5 sample) λ r. IsDistinct cmp_int (contents r.1) × IsValid r.1
add_nodup-IsDistinct_example =
    add_nodup-IsDistinct cmp_int plenty 5 sample sample-IsValid refl sample-IsDistinct

sample-IsOrdered : IsOrdered cmp_int 20 sample
sample-IsOrdered = record { falls = λ i j h l. ground arith }

bsearch_lem_example : Returns (bsearch cmp_int 20 sample) (Located cmp_int 20 sample)
bsearch_lem_example = bsearch_lem cmp_int 20 sample sample-IsValid sample-IsOrdered
