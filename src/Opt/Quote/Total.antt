-- ===== src/Opt/Quote/Total.antt =====
-- `opt_quoted_dec` returns on a text that does not end in a backslash, and what it writes fits.
use bklib.Base.{
  ℕ, zero, suc, ◌+◌, ◌≤◌, ◌<◌, ◌≡◌, refl, Bool, true, Option, none, some, List, [], ◌∷◌, ◌++◌, Run,
  ok, Returns, arith, ltb, ◌==◌, length, ltb→lt, Bool-cases, inl, inr,
}
use bklib.Opt.Quote.{is_space, skip_space, dec_loop, dec}
use bklib.Opt.Quote.Left.{
  EndsWell, EndsWell-tail, length-snoc, Left, dec_string-Returns, skip_space-EndsWell,
}

-- What a whole word leaves: unless the room is used up, what is left of the text stands behind a
-- space; and a byte at least is read.
record Word (noslash : Bool) (room : ℕ) (src out : List ℕ) (r : List ℕ × List ℕ) : Type 0 where
  pub left : Left noslash room src out r
  pub spaced :
      0 < length r.0 → length r.1 < room → length r.1 + length r.0 < length out + length src
  pub advances : 0 < length src → length out < room → length r.0 < length src

skip_space_head : (x : ℕ) (src : List ℕ) → is_space x ≡ true → skip_space (x ∷ src) ≡ skip_space src
unfolding skip_space
skip_space_head x src s = rw (skip_space, s) refl

Word-shift :
    (noslash : Bool) (room x : ℕ) (src out src' out' : List ℕ) (call : Run (List ℕ × List ℕ))
    → length src' ≤ length src
    → length out' + length src' ≤ length out + suc (length src)
    → Returns call (Word noslash room src' out')
    → Returns call (Word noslash room (x ∷ src) out)
Word-shift noslash room x src out src' out' call h k (r, e, w) = (
  r,
  e,
  record {
    left = record {
      ends = w.left.ends;
      fits = w.left.fits;
      reads = omega (arith, w.left.reads);
      writes = omega (arith, w.left.writes, h, k);
    };
    spaced = λ p q. omega (arith, w.spaced p q, k);
    advances = λ p q. omega (arith, w.left.reads, h);
  },
)

dec_loop-Returns :
    (fuel : ℕ) (noslash : Bool) (room : ℕ) (src out : List ℕ)
    → length src < fuel
    → EndsWell noslash src
    → length out ≤ room
    → Returns (dec_loop fuel noslash room src out) (Word noslash room src out)
unfolding dec_loop
dec_loop-Returns zero noslash room src out f e h = elim f [ ]
dec_loop-Returns (suc fuel) noslash room [] out f e h = (
  ([], out),
  refl,
  record {
    left = record { ends = tt; fits = h; reads = omega arith; writes = omega arith };
    spaced = λ p q. absurd (omega (arith, p));
    advances = λ p q. absurd (omega (arith, p));
  },
)
dec_loop-Returns (suc fuel) noslash room (x ∷ src) out f e h =
    elim (Bool-cases (ltb (length out) room)) [
      | inr full ↦ rw full (
        (x ∷ src, out),
        refl,
        record {
          left = record { ends = e; fits = h; reads = omega arith; writes = omega arith };
          spaced = λ p q. absurd (ground (arith, full, q));
          advances = λ p q. absurd (ground (arith, full, q));
        },
      )
      | inl more ↦ elim (Bool-cases (is_space x)) [
        | inl s ↦
            let (ends, reads) = skip_space-EndsWell noslash src (EndsWell-tail noslash x src e) in
            rw (more, s, skip_space_head x src s)
              (
                (skip_space src, out),
                refl,
                record {
                  left = record {
                    ends = ends;
                    fits = h;
                    reads = omega (arith, reads);
                    writes = omega (arith, reads);
                  };
                  spaced = λ p q. omega (arith, reads);
                  advances = λ p q. omega (arith, reads);
                },
              )
        | inr s ↦ elim (Bool-cases (x == b'"')) [
          | inl q ↦
              let (r, run, l) =
                dec_string-Returns noslash room src out (EndsWell-tail noslash x src e) h in
              rw (more, s, q, run)
                (Word-shift noslash room x src out r.0 r.1 _ l.reads (omega (arith, l.writes)) (
                  dec_loop-Returns fuel noslash room r.0 r.1 (omega (arith, l.reads, f)) l.ends
                    l.fits))
          | inr q ↦
              rw (more, s, q)
                (Word-shift noslash room x src out src (out ++ x ∷ []) _ (omega arith)
                  (omega (arith, length-snoc out x))
                  (dec_loop-Returns fuel noslash room src (out ++ x ∷ []) (omega (arith, f))
                    (EndsWell-tail noslash x src e)
                    (omega (arith, length-snoc out x, ltb→lt (length out) room more))))
        ]
      ]
    ]

strict : (a b c : ℕ) → a ≤ b → b ≤ c → 0 < c → (0 < b → a < b) → a < c
strict a zero c h k p f = omega arith
strict a (suc b) c h k p f = omega (arith, f (omega arith))

-- What `dec` gives.
abbrev pub Decoded : Bool → List ℕ → ℕ → List ℕ × Option (List ℕ) → Type 0
Decoded noslash src len (rest, none) = len ≡ 0
Decoded noslash src len (rest, some word) =
    EndsWell noslash rest
    × (length word < len)
    × (length word + length rest ≤ length src)
    × (0 < length rest → length word + 1 < len → length word + length rest < length src)
    × (0 < length src → 1 < len → length rest < length src)

-- On a text that does not end in a backslash, or with backslashes not read, `opt_quoted_dec`
-- returns: -1 exactly with no room at all, else a word shorter than the room. The word and what is
-- left are together no longer than the text, and shorter if anything is left and the word does not
-- fill the room; with room for two bytes some of the text is read.
pub dec-Returns :
    (src : List ℕ) (len : ℕ) (noslash : Bool)
    → EndsWell noslash src
    → Returns (dec src len noslash) (Decoded noslash src len)
unfolding dec
dec-Returns src zero noslash e = ((skip_space src, none), refl, refl)
dec-Returns src (suc room) noslash e =
    let (ends, reads) = skip_space-EndsWell noslash src e in
    let (r, run, w) =
      dec_loop-Returns (suc (length (skip_space src))) noslash room (skip_space src) []
        (omega arith) ends (omega arith) in
    rw run (
      (r.0, some r.1),
      refl,
      (
        w.left.ends,
        omega (arith, w.left.fits),
        omega (arith, w.left.writes, reads),
        (λ p q. omega (arith, w.spaced p (omega (arith, q)), reads)),
        λ p q.
            strict (length r.0) (length (skip_space src)) (length src) w.left.reads reads p
              (λ o. w.advances o (omega (arith, q))),
      ),
    )

-- With a byte of room there is a word.
pub dec-some :
    (src : List ℕ) (room : ℕ) (noslash : Bool)
    → EndsWell noslash src
    → (rest : List ℕ) × (word : List ℕ) × (dec src (suc room) noslash ≡ ok (rest, some word))
      × Decoded noslash src (suc room) (rest, some word)
dec-some src room noslash e = go (dec-Returns src (suc room) noslash e)
  where
    go :
        Returns (dec src (suc room) noslash) (Decoded noslash src (suc room))
        → (rest : List ℕ) × (word : List ℕ) × (dec src (suc room) noslash ≡ ok (rest, some word))
          × Decoded noslash src (suc room) (rest, some word)
    go ((rest, none), run, d) = absurd (omega (arith, d))
    go ((rest, some word), run, d) = (rest, word, run, d)
