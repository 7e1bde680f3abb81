-- ===== src/Array/Grow/Append.antt =====
-- `array_append` and `array_copy`: the elements added, and the copy made.
use bklib.Base.{
  ◌+◌, ◌≤◌, ◌<◌, ◌≡◌, refl, sym, ap, ◌∙◌, true, none, some, List, [], ◌∷◌, ◌++◌, ok, Returns, arith,
  length, take, drop, inl, inr, Bool-cases, length-replicate, take-take, take-append_le, take_all,
  ◌==◌,
}
use bklib.Base.Int.{pos}
use bklib.Array.Cells.{Memory, read}
use bklib.Array.{Array, init}
use bklib.Array.Contents.{
  block, cells_of, contents, IsValid, init-IsValid, length-contents, write_lem, spliced, has_cells,
  length-spliced, take-spliced, get_lem,
}
use bklib.Array.Grow.{store, append, read_all, copy}
use bklib.Array.Grow.Add.{request, Extends, add_lem}

module _ {A : Type 0} where
  -- The old elements stand in front of those that were added.
  pub Extends-prefix :
      (a b : Array A) (zs : List A)
      → IsValid a
      → Extends a zs b
      → take a.count (block b) ≡ contents a
  Extends-prefix a b zs v x =
      let n : length (contents a) ≡ a.count = length-contents a v in
      sym (take-take a.count b.count (block b) (omega (arith, x.counted)))
      ∙ ap (take a.count) x.holds
      ∙ take-append_le a.count (contents a) zs (omega arith)
      ∙ take_all a.count (contents a) (omega arith)

  -- Elements written over as many new ones.
  pub store_lem :
      (a b : Array A) (zs elts : List A)
      → IsValid a
      → Extends a zs b
      → length elts ≡ length zs
      → 0 < length elts
      → Returns (store a.count elts b) (λ r. Extends a elts r)
  unfolding store
  store_lem a b zs elts v x e some_new =
      let (xs, c) = has_cells b x.valid (omega (arith, x.counted, x.valid.fits)) in
      let same : block b ≡ xs = ap cells_of c in
      let long : length xs ≡ b.max = ap length (sym same) ∙ x.valid.allocated in
      let fits : a.count + length elts ≤ length xs = omega (arith, x.counted, x.valid.fits) in
      (
        record b { cells = some (spliced a.count elts xs) },
        ground (arith, c, write_lem a.count elts xs fits),
        record {
          holds =
              ap (λ k. take k (spliced a.count elts xs)) (omega (arith, x.counted))
              ∙ take-spliced a.count elts xs (drop (a.count + length elts) xs) (omega arith)
              ∙ ap (λ t. t ++ elts) (ap (take a.count) (sym same) ∙ Extends-prefix a b zs v x);
          counted = omega (arith, x.counted);
          valid = record {
            sized = x.valid.sized;
            stepped = x.valid.stepped;
            allocated = length-spliced a.count elts xs fits ∙ long;
            fits = x.valid.fits;
          };
          grown = x.grown;
          eltsz = x.eltsz;
          blocksz = x.blocksz;
          free_func = x.free_func;
        },
      )

  pub read_all_lem : (a : Array A) → IsValid a → 0 < a.count → read_all a ≡ ok (contents a)
  unfolding read_all read
  read_all_lem a v h =
      let (xs, c) = has_cells a v (omega (arith, v.fits)) in
      let same : block a ≡ xs = ap cells_of c in
      ground (arith, get_lem a 0 v h, c, ap length same, ap (take a.count) same)

module _ {A : Type 0} (mem : Memory A) where
  open mem use {grant, zeroed, junk}

  -- On a well-formed array, for at least one element and with the memory granted that `realloc`
  -- would be asked for, `array_append` puts the elements behind the old ones, returns where they
  -- begin, and keeps the array well-formed.
  pub append_lem :
      (elts : List A) (a : Array A)
      → IsValid a
      → 0 < length elts
      → grant (request (length elts) a) ≡ true
      → Returns (append mem elts a) λ r. (r.0 ≡ some a.count) × Extends a elts r.1
  unfolding append
  append_lem [] a v h g = absurd (omega arith)
  append_lem (x ∷ xs) a v h g =
      let ((p, b), run, (at, ext, _)) = add_lem mem (length (x ∷ xs)) a v h g in
      let (r, run', ext') = store_lem a b _ (x ∷ xs) v ext (sym (length-replicate _ zeroed)) h in
      ((some a.count, r), ground (arith, run, at, run'), (refl, ext'))

  -- With memory granted, `array_copy` of a well-formed array makes a well-formed array with the
  -- same elements and element size, and without a free function.
  pub copy_lem :
      (a : Array A)
      → IsValid a
      → grant (request a.count (init {A = A} a.eltsz (pos a.blocksz))) ≡ true
      → Returns
          (copy mem a)
          λ r. IsValid r × (contents r ≡ contents a) × (r.eltsz ≡ a.eltsz) × (r.free_func ≡ none)
  unfolding copy
  copy_lem a v g =
      let dst = init {A = A} a.eltsz (pos a.blocksz) in
      let w : IsValid dst = init-IsValid a.eltsz a.blocksz v.sized v.stepped in
      let n : length (contents a) ≡ a.count = length-contents a v in
      elim (Bool-cases (a.count == 0)) [
        | inl e ↦
            let z : 0 ≡ a.count = ground arith in
            (dst, rw e, (w, ap (λ k. take k (block a)) z, refl, refl))
        | inr e ↦
            let ((p, r), run, (at, x)) =
              append_lem (contents a) dst w (ground (arith, n)) (rw n g) in
            (
              r,
              rw (e, read_all_lem a v (ground arith), run),
              (x.valid, x.holds, x.eltsz, x.free_func),
            )
      ]
