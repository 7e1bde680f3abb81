-- ===== src/Array/Search/Find.antt =====
-- `array_find`, `array_add_nodup` and `array_subset`: which element is found, and when none is.
use bklib.Base.{
  ◌⊎◌, ℕ, zero, suc, ◌≤◌, ◌<◌, ◌≡◌, refl, sym, ap, ◌∙◌, Bool, true, false, Option, none, some, List,
  [], ◌∷◌, ◌++◌, ok, Returns, arith, ltb, length, inl, inr, Bool-cases, get_elem?,
  get_elem?-append_lt,
}
use bklib.Base.Int.{ℤ, pos, negsuc, is_zero}
use bklib.Array.Cells.{Memory}
use bklib.Array.{Array, load}
use bklib.Array.Contents.{contents, IsValid, load_lem, length-contents}
use bklib.Array.Grow.Add.{request, Extends}
use bklib.Array.Grow.Append.{append_lem}
use bklib.Array.Search.{find_loop, find, add_nodup, subset, subset_loop}
use native.Mathlib.Decide.{dec_lt}
use mathlib.Core.Option.{some-injective}

-- `r` is the last index below `n` at which `hit` holds, or -1 if there is none.
abbrev pub LastHit : (ℕ → Bool) → ℕ → ℤ → Type 0
LastHit hit n (pos i) = (i < n) × (hit i ≡ true) × ((j : ℕ) → i < j → j < n → hit j ≡ false)
LastHit hit n (negsuc k) = (k ≡ 0) × ((j : ℕ) → j < n → hit j ≡ false)

LastHit-suc :
    (hit : ℕ → Bool) (n : ℕ) (r : ℤ) → hit n ≡ false → LastHit hit n r → LastHit hit (suc n) r
LastHit-suc hit n (pos i) e (h, k, l) = (
  omega arith,
  k,
  λ j p q. elim (Bool-cases (ltb j n)) [
    | inl b ↦ l j p (ground arith)
    | inr b ↦ let s : j ≡ n = ground arith in ap hit s ∙ e
  ],
)
LastHit-suc hit n (negsuc k) e (h, l) = (
  h,
  λ j q. elim (Bool-cases (ltb j n)) [
    | inl b ↦ l j (ground arith)
    | inr b ↦ let s : j ≡ n = ground arith in ap hit s ∙ e
  ],
)

module _ {A B : Type 0} (cmp : B → A → ℤ) (needle : B) where
  -- Whether the element at an index is one that `cmp` calls equal.
  abbrev pub equals : Option A → Bool
  equals none = false
  equals (some x) = is_zero (cmp needle x)

  abbrev pub hit : List A → ℕ → Bool
  hit c j = equals (get_elem? c j)

  find_loop_lem :
      (n : ℕ) (a : Array A)
      → IsValid a
      → n ≤ a.count
      → Returns (find_loop cmp needle n a) (LastHit (hit (contents a)) n)
  unfolding find_loop
  find_loop_lem zero a v h = (negsuc 0, refl, (refl, λ j k. absurd (omega arith)))
  find_loop_lem (suc n) a v h =
      let (x, run, at) = load_lem a n v h in
      let known : hit (contents a) n ≡ is_zero (cmp needle x) = ap equals at in
      elim (Bool-cases (is_zero (cmp needle x))) [
        | inl e ↦
            (pos n, ground (arith, run, e), (omega arith, known ∙ e, λ j p q. absurd (omega arith)))
        | inr e ↦
            let (r, run', last) = find_loop_lem n a v (omega arith) in
            (r, ground (arith, run, e, run'), LastHit-suc (hit (contents a)) n r (known ∙ e) last)
      ]

  -- On a well-formed array, `array_find` returns the last index whose element compares equal to
  -- the needle, and -1 exactly if none does.
  pub find_lem :
      (a : Array A) → IsValid a → Returns (find cmp needle a) (LastHit (hit (contents a)) a.count)
  unfolding find
  find_lem a v = find_loop_lem a.count a v (omega arith)

get_elem?_last :
    {A : Type 0} (c : List A) (elt : A) (j : ℕ) (y : A)
    → ¬ (j < length c)
    → get_elem? (c ++ elt ∷ []) j ≡ some y
    → (j ≡ length c) × (elt ≡ y)
get_elem?_last [] elt zero y h e = (refl, some-injective _ _ e)
get_elem?_last [] elt (suc j) y h e = absurd (let n : none ≡ some y = e in cc)
get_elem?_last (x ∷ c) elt zero y h e = absurd (omega arith)
get_elem?_last (x ∷ c) elt (suc j) y h e =
    let (at, same) = get_elem?_last c elt j y (λ q. h (omega arith)) e in (ap suc at, same)

module _ {A : Type 0} (cmp : A → A → ℤ) where
  -- No element compares equal to an earlier one.
  pub record IsDistinct (c : List A) : Type 0 where
    pub apart : (j : ℕ) (y : A) → get_elem? c j ≡ some y → (i : ℕ) → i < j → hit cmp y c i ≡ false

  IsDistinct-add :
      (c : List A) (elt : A)
      → IsDistinct c
      → ((i : ℕ) → i < length c → hit cmp elt c i ≡ false)
      → IsDistinct (c ++ elt ∷ [])
  IsDistinct-add c elt d new = record {
    apart = λ j y e i h. elim (dec_lt j (length c)) [
      | yes p ↦
          ap (equals cmp y) (get_elem?-append_lt c (elt ∷ []) i (omega arith))
          ∙ d.apart j y (sym (get_elem?-append_lt c (elt ∷ []) j p) ∙ e) i h
      | no p ↦
          let (at, same) = get_elem?_last c elt j y (λ q. p q) e in
          ap (equals cmp y) (get_elem?-append_lt c (elt ∷ []) i (omega arith))
          ∙ ap (λ z. hit cmp z c i) (sym same)
          ∙ new i (omega arith)
    ];
  }

  -- What `array_add_nodup` may return: the index of an equal element and the array as it was, or 0
  -- and the array with the element added, which equals none of the others.
  abbrev pub FoundOrAdded : A → Array A → ℤ × Array A → Type 0
  FoundOrAdded elt a r =
      ((i : ℕ) × (r.0 ≡ pos i) × (r.1 ≡ a) × LastHit (hit cmp elt (contents a)) a.count (pos i))
      ⊎ ((r.0 ≡ pos 0)
          × Extends a (elt ∷ []) r.1
          × ((i : ℕ) → i < a.count → hit cmp elt (contents a) i ≡ false))

  module _ (mem : Memory A) (elt : A) (a : Array A) (v : IsValid a)
      (g : mem.grant (request 1 a) ≡ true) where
    -- `array_add_nodup` leaves the array alone and returns the index, if an element compares equal to
    -- the given one; otherwise it appends the element and returns 0.
    pub add_nodup_lem : Returns (add_nodup cmp mem elt a) (FoundOrAdded elt a)
    unfolding add_nodup
    add_nodup_lem = go (find_lem cmp elt a v)
      where
        go :
            Returns (find cmp elt a) (LastHit (hit cmp elt (contents a)) a.count)
            → Returns (add_nodup cmp mem elt a) (FoundOrAdded elt a)
        go (pos i, run, last) = ((pos i, a), rw run, inl (i, refl, refl, last))
        go (negsuc k, run, (_, all)) =
            let ((p, b), run', (at, ext)) = append_lem mem (elt ∷ []) a v (omega arith) g in
            ((pos 0, b), ground (arith, run, run', at), inr (refl, ext, all))

    -- On a well-formed array in which no element compares equal to an earlier one, and with memory
    -- granted, `array_add_nodup` leaves a well-formed array of which that is still true.
    pub add_nodup-IsDistinct :
        IsDistinct (contents a)
        → Returns (add_nodup cmp mem elt a) λ r. IsDistinct (contents r.1) × IsValid r.1
    add_nodup-IsDistinct d = go add_nodup_lem
      where
        go :
            Returns (add_nodup cmp mem elt a) ((FoundOrAdded elt a))
            → Returns (add_nodup cmp mem elt a) λ r. IsDistinct (contents r.1) × IsValid r.1
        go (r, run, inl (i, _, same, _)) = (r, run, (rw same d, rw same v))
        go (r, run, inr (_, ext, new)) = (
          r,
          run,
          (
            rw ext.holds (
                IsDistinct-add (contents a) elt d
                  λ i h. new i (omega (arith, length-contents a v))),
            ext.valid,
          ),
        )

  -- Whether `array_subset` may return `b` over the first `n` elements: true, if each has an equal one
  -- in the superset; false, if one has none.
  abbrev pub Covers : List A → List A → ℕ → Bool → Type 0
  Covers c d n true =
      (i : ℕ) (x : A) → i < n → get_elem? c i ≡ some x → (j : ℕ) × (hit cmp x d j ≡ true)
  Covers c d n false =
      (i : ℕ) × (x : A) × (i < n)
      × (get_elem? c i ≡ some x)
      × ((j : ℕ) → j < length d → hit cmp x d j ≡ false)

  Covers-suc :
      (c d : List A) (n : ℕ) (b : Bool)
      → (x : A) → get_elem? c n ≡ some x
      → (j : ℕ) → hit cmp x d j ≡ true
      → Covers c d n b
      → Covers c d (suc n) b
  Covers-suc c d n false x e j h (i, y, l, at, all) = (i, y, omega arith, at, all)
  Covers-suc c d n true x e j h all = λ i y l at. elim (dec_lt i n) [
    | yes p ↦ all i y p at
    | no p ↦
        let s : n ≡ i = omega arith in
        let same : x ≡ y = some-injective _ _ (sym e ∙ ap (get_elem? c) s ∙ at) in
        (j, ap (λ z. hit cmp z d j) (sym same) ∙ h)
  ]

  subset_loop_lem :
      (n : ℕ) (sub super : Array A)
      → IsValid sub
      → IsValid super
      → n ≤ sub.count
      → Returns (subset_loop cmp n sub super) (Covers (contents sub) (contents super) n)
  unfolding subset_loop
  subset_loop_lem zero sub super v w h = (true, refl, λ i x l at. absurd (omega arith))
  subset_loop_lem (suc n) sub super v w h =
      let (x, run, at) = load_lem sub n v h in
      go x run at (find_lem cmp x super w) (subset_loop_lem n sub super v w (omega arith))
    where
      go :
          (x : A)
          → load sub (pos n) ≡ ok x
          → get_elem? (contents sub) n ≡ some x
          → Returns (find cmp x super) (LastHit (hit cmp x (contents super)) super.count)
          → Returns (subset_loop cmp n sub super) (Covers (contents sub) (contents super) n)
          → Returns
              (subset_loop cmp (suc n) sub super)
              (Covers (contents sub) (contents super) (suc n))
      go x run at (pos j, found, (_, is_hit, _)) (b, rest, cov) = (
        b,
        ground (arith, run, found, rest),
        Covers-suc (contents sub) (contents super) n b x at j is_hit cov,
      )
      go x run at (negsuc k, found, (_, all)) _ = (
        false,
        ground (arith, run, found),
        (n, x, omega arith, at, λ j l. all j (omega (arith, length-contents super w))),
      )

  -- On two well-formed arrays, `array_subset` returns true only if every element of the first has
  -- one in the second that compares equal, and false only if some element has none.
  pub subset_lem :
      (sub super : Array A)
      → IsValid sub
      → IsValid super
      → Returns (subset cmp sub super) (Covers (contents sub) (contents super) sub.count)
  unfolding subset
  subset_lem sub super v w = subset_loop_lem sub.count sub super v w (omega arith)
