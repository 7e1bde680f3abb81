-- ===== src/Array/Grow/Add.antt =====
-- `array_add`: the room that it makes, and what a refused `realloc` leaves behind.
use bklib.Base.{
  ℕ, zero, suc, ◌+◌, ◌-◌, ◌*◌, ◌≤◌, ◌<◌, ◌≡◌, refl, ap, ◌∙◌, true, false, none, some, List, ◌++◌,
  ok, fault, Returns, ◌>>=◌, arith, leb, ltb, le→leb, lt→leb_false, ==_zero_false, length, take,
  drop, replicate, if◌then◌else◌, inl, inr, Bool-cases, leb→le, length-replicate,
}
use bklib.Array.Cells.{Memory, resize}
use bklib.Array.{Array}
use bklib.Array.Contents.{
  block, cells_of, contents, IsValid, write_lem, length-spliced, take-spliced, spliced, has_cells,
  take_before, length-resize, take-resize,
}
use bklib.Array.Grow.{add, fill, grow}

module _ {A : Type 0} where
  -- The cells that `array_add` asks `realloc` for, and the bytes.
  abbrev pub room : ℕ → Array A → ℕ
  room num a = a.count + (if ltb a.blocksz num then num else a.blocksz)

  abbrev pub request : ℕ → Array A → ℕ
  request num a = room num a * a.eltsz

  -- The maximum after `array_add`.
  abbrev pub capacity : ℕ → Array A → ℕ
  capacity num a = if leb (a.count + num) a.max then a.max else room num a

  -- `r` is `a` with the elements `elts` behind its own.
  pub record Extends (a : Array A) (elts : List A) (r : Array A) : Type 0 where
    pub holds : contents r ≡ contents a ++ elts
    pub counted : r.count ≡ a.count + length elts
    pub valid : IsValid r
    pub grown : a.max ≤ r.max
    pub eltsz : r.eltsz ≡ a.eltsz
    pub blocksz : r.blocksz ≡ a.blocksz
    pub free_func : r.free_func ≡ a.free_func

  Extends-trans :
      (a b : Array A) {ys : List A} {r : Array A}
      → contents b ≡ contents a
      → b.count ≡ a.count
      → a.max ≤ b.max
      → b.eltsz ≡ a.eltsz
      → b.blocksz ≡ a.blocksz
      → b.free_func ≡ a.free_func
      → Extends b ys r
      → Extends a ys r
  Extends-trans a b {ys} c n m e s f x = record {
    holds = x.holds ∙ ap (λ t. t ++ ys) c;
    counted = omega arith;
    valid = x.valid;
    grown = omega arith;
    eltsz = x.eltsz ∙ e;
    blocksz = x.blocksz ∙ s;
    free_func = x.free_func ∙ f;
  }

module _ {A : Type 0} (mem : Memory A) where
  open mem use {grant, zeroed, junk}

  fill_lem :
      (n : ℕ) (a : Array A) (xs : List A)
      → IsValid a
      → a.cells ≡ some xs
      → a.count + suc n ≤ a.max
      → Returns
          (fill mem (suc n) a)
          λ r. (r.0 ≡ some a.count) × Extends a (replicate (suc n) zeroed) r.1 × (r.1.max ≡ a.max)
  unfolding fill
  fill_lem n a xs v e h =
      let zeros = replicate (suc n) zeroed in
      let z : length zeros ≡ suc n = length-replicate (suc n) zeroed in
      let b : block a ≡ xs = ap cells_of e in
      let fits : a.count + length zeros ≤ length xs = omega (arith, ap length b) in
      (
        (
          some a.count,
          record a { cells = some (spliced a.count zeros xs); count = a.count + suc n },
        ),
        ground (arith, write_lem a.count zeros xs),
        (
          refl,
          record {
            holds =
                ap (λ k. take k (spliced a.count zeros xs)) (omega arith)
                ∙ take-spliced a.count zeros xs (drop (a.count + length zeros) xs) (omega arith)
                ∙ rw (← b);
            counted = omega arith;
            valid = record {
              sized = v.sized;
              stepped = v.stepped;
              allocated = length-spliced a.count zeros xs fits ∙ omega (arith, ap length b);
              fits = h;
            };
            grown = omega arith;
            eltsz = refl;
            blocksz = refl;
            free_func = refl;
          },
          refl,
        ),
      )

  -- A granted growth keeps the elements in a longer block.
  grow_lem :
      (num : ℕ) (a : Array A)
      → IsValid a
      → grant (request num a) ≡ true
      → (xs : List A) × (grow mem num a ≡ (true, record a { cells = some xs; max = room num a }))
        × (length xs ≡ room num a)
        × (take a.count xs ≡ contents a)
  unfolding grow
  grow_lem num a v g =
      let old = resize junk (room num a) (block a) in
      let zeros = replicate (room num a - a.count) zeroed in
      let le : a.count + length zeros ≤ length old = omega (
        arith,
        length-replicate (room num a - a.count) zeroed,
        length-resize junk (room num a) (block a),
      ) in
      (
        spliced a.count zeros old,
        rw (g, grow, write_lem a.count zeros old le),
        length-spliced a.count zeros old le ∙ length-resize junk (room num a) (block a),
        take_before a.count old (zeros ++ drop (a.count + length zeros) old) (omega arith)
            ∙ take-resize junk a.count (room num a) (block a) (omega arith) (omega arith),
      )

  -- On a well-formed array, for a positive number of elements and with the memory granted that
  -- `realloc` would be asked for, `array_add` returns a pointer to the first of that many zero
  -- elements behind the old ones, and the array is well-formed, with the maximum that the growth
  -- rule gives.
  pub add_lem :
      (num : ℕ) (a : Array A)
      → IsValid a
      → 0 < num
      → grant (request num a) ≡ true
      → Returns (add mem num a) λ r.
        (r.0 ≡ some a.count) × Extends a (replicate num zeroed) r.1 × (r.1.max ≡ capacity num a)
  unfolding add
  add_lem zero a v h g = absurd (omega arith)
  add_lem (suc n) a v h g = elim (Bool-cases (leb (a.count + suc n) a.max)) [
    | inl fit ↦
        let (xs, e) = has_cells a v (omega (arith, leb→le _ _ fit)) in
        let (r, run, (p, x, m)) = fill_lem n a xs v e (leb→le _ _ fit) in
        (r, rw (==_zero_false _ v.sized, fit) run, (p, x, rw fit m))
    | inr full ↦
        let (xs, run, len, kept) = grow_lem (suc n) a v g in
        let b = record a { cells = some xs; max = room (suc n) a } in
        let (r, run', (p, x, m)) =
          fill_lem n b xs
            (record { sized = v.sized; stepped = v.stepped; allocated = len; fits = omega arith })
            refl (ground arith) in
        (
          r,
          rw (==_zero_false _ v.sized, full, run) run',
          (p, Extends-trans a b kept refl (ground arith) refl refl refl x, rw full m),
        )
  ]

  -- A refused `realloc`: null is returned and the elements are lost, for `m_array` is null now.
  pub add_refused :
      (num : ℕ) (a : Array A)
      → IsValid a
      → a.max < a.count + num
      → grant (request num a) ≡ false
      → add mem num a ≡ ok (none, record a { cells = none; max = room num a })
  unfolding add grow
  add_refused num a v h g = rw (==_zero_false _ v.sized, lt→leb_false _ _ h, g, grow)

  -- On a well-formed array, after an `array_add` of more than fits whose memory is refused, the
  -- next `array_add` that fits the maximum then recorded writes through the null pointer.
  pub add-add_refused :
      (num n : ℕ) (a : Array A)
      → IsValid a
      → a.max < a.count + num
      → grant (request num a) ≡ false
      → 0 < n
      → a.count + n ≤ room num a
      → (add mem num a >>= λ r. add mem n r.1) ≡ fault
  unfolding add fill
  add-add_refused num zero a v h g pos fits = absurd (omega arith)
  add-add_refused num (suc n) a v h g pos fits =
      rw (add_refused num a v h g, ==_zero_false _ v.sized, le→leb _ _ fits)
