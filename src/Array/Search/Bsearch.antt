-- ===== src/Array/Search/Bsearch.antt =====
-- `array_bsearch` on an ordered array.
use bklib.Base.{
  ◌⊎◌, ℕ, zero, suc, ◌+◌, ◌-◌, ◌/◌, ◌≤◌, ◌<◌, ◌≡◌, ◌≢◌, refl, sym, ap, ◌∙◌, Option, none, some, ok,
  Returns, arith, if◌then◌else◌, inl, inr, get_elem?,
}
use bklib.Base.Int.{ℤ, pos, negsuc, is_zero, is_neg}
use bklib.Array.{Array}
use bklib.Array.Contents.{contents, IsValid, load_lem}
use bklib.Array.Search.{probe, narrow, walk_back, bsearch}
use native.Mathlib.Decide.{dec_lt, ℕ_discrete}

-- A comparison's result as a number: 0 for a needle below the element, 1 for equal, 2 for above.
abbrev pub side : ℤ → ℕ
side z = if is_zero z then 1 else if is_neg z then 0 else 2

module _ {A B : Type 0} (cmp : B → A → ℤ) (needle : B) (a : Array A) where
  abbrev side_of : Option A → ℕ
  side_of none = 0
  side_of (some x) = side (cmp needle x)

  -- Where the needle stands to the element at an index.
  abbrev pub side_at : ℕ → ℕ
  side_at i = side_of (get_elem? (contents a) i)

  -- The array is in order, as far as the needle can tell: once it is not above an element, it is not
  -- above a later one, and so on.
  pub record IsOrdered : Type 0 where
    pub falls : (i j : ℕ) → i ≤ j → j < a.count → side_at j ≤ side_at i

  side_of-le : (o : Option A) → side_of o ≤ 2
  side_of-le none = omega arith
  side_of-le (some x) = ground arith

  -- From `lo`, not above the needle, to `hi`, behind which all elements are above it.
  abbrev Narrowed : ℕ → Type 0
  Narrowed i =
      (i < a.count)
      × (1 ≤ side_at i)
      × (side_at i ≡ 2 → (j : ℕ) → i < j → j < a.count → side_at j ≡ 0)

  -- From `i` back over the elements that are equal to the needle, to `r`.
  abbrev Walked : ℕ → ℕ → Type 0
  Walked i r = (r ≤ i) × ((j : ℕ) → r ≤ j → j < i → side_at j ≡ 1) × (0 < r → side_at (r - 1) ≢ 1)

  -- What `array_bsearch` may return. -1: the needle is below all elements. An index: its element is
  -- the first that is equal to the needle, or else it is below the needle, and all behind it are
  -- above.
  abbrev pub Located : ℤ → Type 0
  Located (negsuc k) = (k ≡ 0) × ((j : ℕ) → j < a.count → side_at j ≡ 0)
  Located (pos i) =
      (i < a.count)
      × ((side_at i ≡ 1) × ((j : ℕ) → j < i → side_at j ≡ 2)
          ⊎ (side_at i ≡ 2) × ((j : ℕ) → i < j → j < a.count → side_at j ≡ 0))

  module _ (v : IsValid a) (o : IsOrdered) where
    probe_lem :
        (i : ℕ) → i < a.count → (z : ℤ) × (probe cmp needle a i ≡ ok z) × (side z ≡ side_at i)
    unfolding probe
    probe_lem i h =
        let (x, run, at) = load_lem a i v h in (cmp needle x, rw run, sym (ap side_of at))

    narrow_lem :
        (fuel lo hi : ℕ)
        → lo ≤ hi
        → hi < a.count
        → hi - lo < fuel
        → 1 ≤ side_at lo
        → ((j : ℕ) → hi < j → j < a.count → side_at j ≡ 0)
        → Returns (narrow cmp needle a fuel lo hi) Narrowed
    unfolding narrow
    narrow_lem zero lo hi h l f s t = absurd (omega arith)
    narrow_lem (suc fuel) lo hi h l f s t =
        let m = (lo + hi) / 2 in
        let (z, run, at) = probe_lem m (omega arith) in
        let (y, run', at') = probe_lem hi l in
        let after = λ (j : ℕ) (p : m < j) (q : j < a.count). o.falls m j (omega arith) q in
        elim (dec_lt lo hi) [
          | no p ↦ (lo, ground arith, (omega arith, s, λ _ j q r. t j (omega arith) r))
          | yes p ↦ elim (ℕ_discrete (side z) 1) [
            | yes e ↦
                (m, ground (arith, run), (omega arith, omega arith, λ q. absurd (omega arith)))
            | no ne ↦ elim (ℕ_discrete (side z) 0) [
              | yes e ↦
                  let (r, rest, n) =
                    narrow_lem fuel lo m (omega arith) (omega arith) (omega arith) s
                      (λ j p q. omega (arith, o.falls m j (omega arith) q)) in
                  (r, ground (arith, run, rest), n)
              | no ne' ↦ elim (ℕ_discrete lo m) [
                | yes b ↦ elim (ℕ_discrete (side y) 0) [
                  | yes e ↦ (
                    lo,
                    ground (arith, run, run'),
                    (omega arith, s, λ _ j q r. omega (arith, o.falls hi j (omega arith) r)),
                  )
                  | no e ↦ (hi, ground (arith, run, run'), (l, omega arith, λ _. t))
                ]
                | no b ↦
                    let (r, rest, n) =
                      narrow_lem fuel m hi (omega arith) l (omega arith) (omega arith) t in
                    (r, ground (arith, run, rest), n)
              ]
            ]
          ]
        ]

    walk_back_lem : (i : ℕ) → i < a.count → Returns (walk_back cmp needle a i) (Walked i)
    unfolding walk_back
    walk_back_lem zero h =
        (0, refl, (omega arith, λ j p q. absurd (omega arith), λ p. absurd (omega arith)))
    walk_back_lem (suc i) h =
        let (z, run, at) = probe_lem i (omega arith) in
        elim (ℕ_discrete (side z) 1) [
          | no ne ↦ (
            suc i,
            ground (arith, run),
            (
              omega arith,
              λ j p q. absurd (omega arith),
              λ _ e. ne (at ∙ ap side_at (omega arith) ∙ e),
            ),
          )
          | yes e ↦
              let (r, rest, (le, eq, stop)) = walk_back_lem i (omega arith) in
              (
                r,
                ground (arith, run, rest),
                (
                  omega arith,
                  (λ j p q. elim (dec_lt j i) [
                    | yes b ↦ eq j p b
                    | no b ↦ ap side_at (omega arith) ∙ sym at ∙ e
                  ]),
                  stop,
                ),
              )
        ]

    settle : (i r : ℕ) → Narrowed i → Walked i r → Located (pos r)
    settle i r (l, s, after) (le, eq, stop) = (
      omega arith,
      elim (ℕ_discrete (side_at i) 1) [
        | yes e ↦ inl (
          elim (dec_lt r i) [ yes p ↦ eq r (omega arith) p | no p ↦ ap side_at (omega arith) ∙ e ],
          λ j q. omega (
            arith,
            stop (omega arith),
            side_of-le (get_elem? (contents a) j),
            o.falls j (r - 1) (omega arith) (omega arith),
            o.falls (r - 1) i (omega arith) l,
          ),
        )
        | no ne ↦
            let e : side_at i ≡ 2 = omega (arith, side_of-le (get_elem? (contents a) i)) in
            elim (dec_lt r i) [
              | yes p ↦ absurd (
                  omega (
                    arith,
                    eq (i - 1) (omega arith) (omega arith),
                    o.falls (i - 1) i (omega arith) l,
                  ))
              | no p ↦ inr (ap side_at (omega arith) ∙ e, λ j q. after e j (omega arith))
            ]
      ],
    )

    -- On a well-formed array that is in order as far as the needle can tell, `array_bsearch` ends.
    -- It returns -1 exactly if all elements are above the needle; otherwise the first of the
    -- elements that compare equal, or, if there is none, the last element below the needle.
    pub bsearch_lem : Returns (bsearch cmp needle a) Located
    unfolding bsearch
    bsearch_lem = elim (dec_lt 0 a.count) [
      | no p ↦ (negsuc 0, ground arith, (refl, λ j q. absurd (omega arith)))
      | yes p ↦
          let (z, run, at) = probe_lem 0 p in
          elim (ℕ_discrete (side z) 0) [
            | yes e ↦ (
              negsuc 0,
              ground (arith, run),
              (refl, λ j q. omega (arith, o.falls 0 j (omega arith) q)),
            )
            | no ne ↦
                let (i, run', n) =
                  narrow_lem a.count 0 (a.count - 1) (omega arith) (omega arith) (omega arith)
                    (omega arith) (λ j q r. absurd (omega arith)) in
                let (r, run'', w) = walk_back_lem i n.0 in
                (pos r, ground (arith, run, run', run''), settle i r n w)
          ]
    ]
