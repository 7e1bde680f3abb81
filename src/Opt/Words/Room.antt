-- ===== src/Opt/Words/Room.antt =====
-- `opt_cat` writes the whole line if two bytes more than the line are there.
use bklib.Base.{
  ℕ, zero, suc, ◌+◌, ◌-◌, ◌≤◌, ◌<◌, ◌≡◌, ◌≢◌, refl, ap, ◌∙◌, true, false, some, List, [], ◌∷◌, ◌++◌,
  ok, arith, length, length-append, lt→ltb, le→ltb_false, Bool-cases, inl, inr,
}
use bklib.Base.Int.{ℤ}
use bklib.Opt.Quote.{c, enc, enc_as}
use bklib.Opt.Quote.Bounds.{escaped, enc_into_lem, enc-enc_as}
use bklib.Opt.Words.Digits.{print_int_plain, print_int_word}
use bklib.Opt.Words.{
  needs_quote, print_int, Arg, null, text, int, put, put_text, put_int, spaced, cat_loop, cat,
}
use bklib.Opt.Words.RoundTrip.{tail, line, as_word}
use bklib.Opt.Words.Cat.{ArgsAreWords, words, more, more_word}

enc_room :
    (s : List ℕ) (nout : ℕ)
    → length (escaped c s) + 4 < nout
    → enc s nout ≡ ok (some (b'"' ∷ (escaped c s ++ b'"' ∷ [])))
unfolding enc_as
enc_room s zero h = absurd (omega (arith, h))
enc_room s (suc n) h =
    enc-enc_as s (suc n)
    ∙ ap ok (enc_into_lem c s (suc n) ∙ rw (lt→ltb (length (escaped c s) + 4) (suc n) h) refl)

put_text_room :
    (s out : List ℕ) (len : ℕ)
    → length (out ++ as_word s) + 2 < len
    → put_text s out (len - length out) ≡ ok (some (out ++ as_word s))
unfolding put_text
put_text_room s out len h = elim (Bool-cases (needs_quote s)) [
  | inl q ↦ rw (put_text, q, enc_room s (len - length out) (quoted_fits q)) refl
  | inr q ↦ rw (put_text, q, lt→ltb (length s) (len - length out) (plain_fits q)) refl
]
  where
    fits : length out + length (as_word s) + 2 < len
    fits = omega (arith, length-append out (as_word s))

    quoted_fits : needs_quote s ≡ true → length (escaped c s) + 4 < len - length out
    quoted_fits q =
        let f = (rw q at fits) in omega (arith, f, length-append (escaped c s) (b'"' ∷ []))

    plain_fits : needs_quote s ≡ false → length s < len - length out
    plain_fits q = let f = (rw q at fits) in omega (arith, f)

length-le-spaced : (out : List ℕ) → length out ≤ length (spaced out)
length-le-spaced [] = omega arith
length-le-spaced (x ∷ out) = omega (arith, length-append out (b' ' ∷ []))

put-text_room :
    (len : ℕ) (s out : List ℕ)
    → length (spaced out ++ as_word s) + 2 < len
    → put len (text s) out ≡ ok (some (spaced out ++ as_word s))
unfolding put
put-text_room len s out h =
    rw
      (
        put,
        le→ltb_false (len - length out) 2
            (omega (arith, length-append (spaced out) (as_word s), length-le-spaced out)),
      )
      (put_text_room s (spaced out) len h)

put-null_lem : (len : ℕ) (out : List ℕ) → put len null out ≡ ok (some out)
unfolding put
put-null_lem len out = refl

put-int_room :
    (len : ℕ) (i : ℤ) (out : List ℕ)
    → length (spaced out ++ as_word (print_int i)) + 2 < len
    → put len (int i) out ≡ ok (some (spaced out ++ as_word (print_int i)))
unfolding put put_int
put-int_room len i out h = rw (print_int_plain i) (
    rw
      (
        put,
        le→ltb_false (len - length out) 2 fits,
        lt→ltb (length (print_int i)) (len - length (spaced out)) digits_fit,
      )
      refl)
  where
    room : length (spaced out ++ print_int i) + 2 < len
    room = rw (print_int_plain i) at h

    fits : 2 ≤ len - length out
    fits = omega (arith, room, length-append (spaced out) (print_int i), length-le-spaced out)

    digits_fit : length (print_int i) < len - length (spaced out)
    digits_fit = omega (arith, room, length-append (spaced out) (print_int i))

length-tail : (ws : List (List ℕ)) → 1 ≤ length (tail ws)
length-tail [] = omega arith
length-tail (w ∷ ws) = omega arith

length-more : (out : List ℕ) (ws : List (List ℕ)) → 1 ≤ length (more out ws)
length-more [] [] = omega arith
length-more [] (w ∷ ws) = omega (arith, length-append (as_word w) (tail ws), length-tail ws)
length-more (x ∷ out) ws = length-tail ws

cat_loop_next :
    (len : ℕ) (arg : Arg) (args : List Arg) (out out' : List ℕ)
    → put len arg out ≡ ok (some out')
    → cat_loop len (arg ∷ args) out ≡ cat_loop len args out'
unfolding cat_loop
cat_loop_next len arg args out out' e = rw (cat_loop, e) refl

-- A word that fits, and then the rest.
module _ (len : ℕ) (w out : List ℕ) (ws : List (List ℕ)) (ne : w ≢ [])
    (fits : length (out ++ more out (w ∷ ws)) + 1 < len) where
  next_fits : length ((spaced out ++ as_word w) ++ more (spaced out ++ as_word w) ws) + 1 < len
  next_fits = omega (arith, fits, ap length (more_word out w ws ne))

  word_fits : length (spaced out ++ as_word w) + 2 < len
  word_fits = omega (
    arith,
    next_fits,
    length-more (spaced out ++ as_word w) ws,
    length-append (spaced out ++ as_word w) (more (spaced out ++ as_word w) ws),
  )

cat_loop_room :
    (len : ℕ) (args : List Arg) (out : List ℕ)
    → ArgsAreWords args
    → length (out ++ more out (words args)) + 1 < len
    → cat_loop len args out ≡ ok (some (out ++ more out (words args)))
unfolding cat_loop
cat_loop_room len [] out a h =
    rw (cat_loop, le→ltb_false (len - length out) 2 (fits out h)) (ap (λ l. ok (some l)) (end out))
  where
    fits : (l : List ℕ) → length (l ++ more l []) + 1 < len → 2 ≤ len - length l
    fits l h' = omega (arith, h', length-append l (more l []), length-more l [])

    end : (l : List ℕ) → l ++ b'\n' ∷ [] ≡ l ++ more l []
    end [] = refl
    end (x ∷ l) = refl
cat_loop_room len (null ∷ args) out a h =
    cat_loop_next len null args out out (put-null_lem len out) ∙ cat_loop_room len args out a h
cat_loop_room len (text s ∷ args) out a h =
    cat_loop_next len (text s) args out (spaced out ++ as_word s)
      (put-text_room len s out (word_fits len s out (words args) a.0.1 h))
    ∙ cat_loop_room len args (spaced out ++ as_word s) a.1
        (next_fits len s out (words args) a.0.1 h)
    ∙ ap (λ l. ok (some l)) (more_word out s (words args) a.0.1)
cat_loop_room len (int i ∷ args) out a h =
    cat_loop_next len (int i) args out (spaced out ++ as_word (print_int i))
      (put-int_room len i out (word_fits len (print_int i) out (words args) (print_int_word i).1 h))
    ∙ cat_loop_room len args (spaced out ++ as_word (print_int i)) a
        (next_fits len (print_int i) out (words args) (print_int_word i).1 h)
    ∙ ap (λ l. ok (some l)) (more_word out (print_int i) (words args) (print_int_word i).1)

-- For words that are not empty and without zero bytes, `opt_cat` into a buffer with at least two
-- bytes more than the line returns the line: the words, in quotes where they need them, with a
-- space between any two and a newline at the end.
pub cat_room :
    (len : ℕ) (args : List Arg)
    → ArgsAreWords args
    → length (line (words args)) + 1 < len
    → cat len args ≡ ok (some (line (words args)))
unfolding cat
cat_room len args a h = cat_loop_room len args [] a h
