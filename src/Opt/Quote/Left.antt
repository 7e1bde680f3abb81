-- ===== src/Opt/Quote/Left.antt =====
-- What is left of a text and of the room after a string or a space of it was read.
use bklib.Base.{
  ℕ, ◌+◌, ◌≤◌, ◌≡◌, refl, Bool, false, not, List, [], ◌∷◌, ◌++◌, Run, Returns, arith, ltb, ◌==◌,
  length, length-append, ltb→lt, Bool-cases, inl, inr, ◌&&◌,
}
use bklib.Opt.Quote.{is_space, skip_space, unescape, dec_string}

-- The last byte does not begin an escape.
abbrev pub EndsWell : Bool → List ℕ → Type 0
EndsWell noslash [] = Unit {0}
EndsWell noslash (x ∷ []) = (x == b'\\' && not noslash) ≡ false
EndsWell noslash (x ∷ y ∷ s) = EndsWell noslash (y ∷ s)

pub EndsWell-tail :
    (noslash : Bool) (x : ℕ) (s : List ℕ) → EndsWell noslash (x ∷ s) → EndsWell noslash s
EndsWell-tail noslash x [] e = tt
EndsWell-tail noslash x (y ∷ s) e = e

pub length-snoc : (out : List ℕ) (x : ℕ) → length (out ++ x ∷ []) ≡ length out + 1
length-snoc out x = length-append out (x ∷ [])

-- What is left after bytes were read from `src` and written behind `out`.
pub record Left (noslash : Bool) (room : ℕ) (src out : List ℕ) (r : List ℕ × List ℕ) : Type 0 where
  pub ends : EndsWell noslash r.0
  pub fits : length r.1 ≤ room
  pub reads : length r.0 ≤ length src
  pub writes : length r.1 + length r.0 ≤ length out + length src

-- The same of the reader after one byte more.
Left-shift :
    (noslash : Bool) (room x : ℕ) (src out out' : List ℕ) (r : List ℕ × List ℕ)
    → length out' ≤ length out + 1
    → Left noslash room src out' r
    → Left noslash room (x ∷ src) out r
Left-shift noslash room x src out out' r h l = record {
  ends = l.ends;
  fits = l.fits;
  reads = omega (arith, l.reads);
  writes = omega (arith, l.writes, h);
}

Returns-shift :
    (noslash : Bool) (room x : ℕ) (src out out' : List ℕ) (call : Run (List ℕ × List ℕ))
    → length out' ≤ length out + 1
    → Returns call (Left noslash room src out')
    → Returns call (Left noslash room (x ∷ src) out)
Returns-shift noslash room x src out out' call h (r, e, l) =
    (r, e, Left-shift noslash room x src out out' r h l)

pub dec_string-Returns :
    (noslash : Bool) (room : ℕ) (src out : List ℕ)
    → EndsWell noslash src
    → length out ≤ room
    → Returns (dec_string noslash room src out) (Left noslash room src out)
unfolding dec_string
dec_string-Returns noslash room [] out e h =
    (([], out), refl, record { ends = tt; fits = h; reads = omega arith; writes = omega arith })
dec_string-Returns noslash room (x ∷ []) out e h = elim (Bool-cases (ltb (length out) room)) [
  | inr full ↦ rw full (
    (x ∷ [], out),
    refl,
    record { ends = e; fits = h; reads = omega arith; writes = omega arith },
  )
  | inl more ↦ elim (Bool-cases (x == b'"')) [
    | inl q ↦
        rw (more, q)
          (
            ([], out),
            refl,
            record { ends = tt; fits = h; reads = omega arith; writes = omega arith },
          )
    | inr q ↦
        rw (more, q, e)
          (
            ([], out ++ x ∷ []),
            refl,
            record {
              ends = tt;
              fits = omega (arith, length-snoc out x, ltb→lt (length out) room more);
              reads = omega arith;
              writes = omega (arith, length-snoc out x);
            },
          )
  ]
]
dec_string-Returns noslash room (x ∷ y ∷ src) out e h = elim (Bool-cases (ltb (length out) room)) [
  | inr full ↦ rw full (
    (x ∷ y ∷ src, out),
    refl,
    record { ends = e; fits = h; reads = omega arith; writes = omega arith },
  )
  | inl more ↦ elim (Bool-cases (x == b'"')) [
    | inl q ↦
        rw (more, q)
          (
            (y ∷ src, out),
            refl,
            record { ends = e; fits = h; reads = omega arith; writes = omega arith },
          )
    | inr q ↦ elim (Bool-cases (x == b'\\' && not noslash)) [
      | inl b ↦
          rw (more, q, b)
            (Returns-shift noslash room x (y ∷ src) out (out ++ unescape y ∷ []) _
              (omega (arith, length-snoc out (unescape y)))
              (Returns-shift noslash room y src (out ++ unescape y ∷ []) (out ++ unescape y ∷ []) _
                (omega arith)
                (dec_string-Returns noslash room src (out ++ unescape y ∷ [])
                  (EndsWell-tail noslash y src e)
                  (omega (arith, length-snoc out (unescape y), ltb→lt (length out) room more)))))
      | inr b ↦
          rw (more, q, b)
            (Returns-shift noslash room x (y ∷ src) out (out ++ x ∷ []) _
              (omega (arith, length-snoc out x))
              (dec_string-Returns noslash room (y ∷ src) (out ++ x ∷ []) e
                (omega (arith, length-snoc out x, ltb→lt (length out) room more))))
    ]
  ]
]

pub skip_space-EndsWell :
    (noslash : Bool) (src : List ℕ)
    → EndsWell noslash src
    → EndsWell noslash (skip_space src) × (length (skip_space src) ≤ length src)
unfolding skip_space
skip_space-EndsWell noslash [] e = (tt, omega arith)
skip_space-EndsWell noslash (x ∷ src) e =
    let (ends, reads) = skip_space-EndsWell noslash src (EndsWell-tail noslash x src e) in
    elim (Bool-cases (is_space x)) [
      | inl s ↦ rw s (ends, omega (arith, reads))
      | inr s ↦ rw s (e, omega arith)
    ]
