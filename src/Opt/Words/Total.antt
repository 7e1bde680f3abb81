-- ===== src/Opt/Words/Total.antt =====
-- `opt_str2argv` returns, and how far it writes.
use bklib.Base.{
  ℕ, zero, suc, ◌+◌, ◌≤◌, ◌<◌, ◌≡◌, ◌≢◌, refl, ap, ◌∙◌, false, List, [], ◌∷◌, ok, min, Returns,
  arith, length,
}
use bklib.Opt.Quote.Decode.{Plain, dec-Plain_end}
use bklib.Opt.Quote.Left.{EndsWell}
use bklib.Opt.Quote.Total.{dec-some}
use bklib.Opt.Words.{argv_loop, str2argv}
use bklib.Opt.Words.RoundTrip.{total, argv_loop_step}

-- What the loop gives: nothing of the line is left, and the last zero lands behind the words, at most
-- one byte behind the zero of the line.
abbrev Split : List ℕ → ℕ → List ℕ × List (List ℕ) × ℕ → Type 0
Split line dst r =
    (r.0 ≡ [])
    × (r.2 ≡ dst + total r.1)
    × (r.2 ≤ dst + length line + min (length line) 1)
    × (length r.1 ≤ length line)

room_for :
    (dst word rest line place : ℕ)
    → word + rest ≤ line
    → (0 < rest → word + 1 < suc line → word + rest < line)
    → 0 < line
    → place ≤ dst + word + 1 + rest + min rest 1
    → place ≤ dst + line + min line 1
room_for dst word zero line place w s p h = omega (arith, h, w, p)
room_for dst word (suc rest) line place w s p h =
    omega (arith, h, w, p, s (omega arith) (omega (arith, w)))

argv_loop-Returns :
    (fuel argn : ℕ) (line : List ℕ) (dst : ℕ)
    → length line ≤ fuel
    → length line ≤ argn
    → EndsWell false line
    → Returns (argv_loop fuel argn line dst) (Split line dst)
unfolding argv_loop
argv_loop-Returns fuel argn [] dst f n e =
    (([], [], dst), refl, (refl, omega arith, omega arith, omega arith))
argv_loop-Returns zero argn (x ∷ line) dst f n e = elim f [ ]
argv_loop-Returns (suc fuel) zero (x ∷ line) dst f n e = elim n [ ]
argv_loop-Returns (suc fuel) (suc argn) (x ∷ line) dst f n e =
    let (rest, word, run, d) = dec-some (x ∷ line) (length (x ∷ line)) false e in
    let (ends, fits, writes, spaced, advances) = d in
    let shorter : length rest < length (x ∷ line) = advances (omega arith) (omega arith) in
    let (r, loop, (left, place, bound, count)) =
      argv_loop-Returns fuel argn rest (dst + length word + 1) (omega (arith, shorter, f))
        (omega (arith, shorter, n)) ends in
    rw (run, loop)
      (
        (r.0, word ∷ r.1, r.2),
        refl,
        (
          left,
          omega (arith, place),
          room_for dst (length word) (length rest) (length (x ∷ line)) r.2 writes spaced
              (omega arith) bound,
          omega (arith, count, shorter),
        ),
      )

-- On a line that does not end in a backslash, with an `argv` of as many places as the line has
-- bytes, `opt_str2argv` returns: it reads the whole line, finds at most as many words as bytes,
-- and writes its last zero behind the words, at most one byte behind the zero of the line.
pub str2argv-Returns :
    (line : List ℕ) (argn : ℕ)
    → EndsWell false line
    → length line ≤ argn
    → Returns
        (str2argv line argn)
        (λ r. (r.0 ≡ []) × (r.2 ≡ total r.1) × (r.2 ≤ length line + 1) × (length r.1 ≤ length line))
unfolding str2argv
str2argv-Returns line argn e n =
    let (r, run, (left, place, bound, count)) =
      argv_loop-Returns (length line) argn line 0 (omega arith) n e in
    (r, run, (left, omega (arith, place), omega (arith, bound), count))

-- On a line that is one word without quotes and white space, `opt_str2argv` finds the word and
-- writes its last zero one byte behind the zero of the line.
pub str2argv_overrun :
    (x : ℕ) (w : List ℕ) (argn : ℕ)
    → Plain (x ∷ w)
    → str2argv (x ∷ w) (suc argn) ≡ ok ([], (x ∷ w) ∷ [], length (x ∷ w) + 1)
unfolding str2argv argv_loop
str2argv_overrun x w argn p =
    argv_loop_step (length w) argn 0 (x ∷ w) [] (x ∷ w) nonempty
      (dec-Plain_end (length (x ∷ w)) (x ∷ w) (omega arith) p nonempty)
    ∙ ap (λ d. ok ([], (x ∷ w) ∷ [], d)) place
  where
    nonempty : x ∷ w ≢ []
    nonempty e = cc

    place : 0 + length (x ∷ w) + 1 ≡ length (x ∷ w) + 1
    place = omega arith
