-- ===== src/Opt/Words/Cat.antt =====
-- The line that `opt_cat` writes, and `opt_str2argv` of it.
use bklib.Base.{
  ℕ, ◌+◌, ◌-◌, ◌≤◌, ◌<◌, ◌≡◌, ◌≢◌, refl, ap, subst, ◌∙◌, Option, none, some, List, [], ◌∷◌, ◌++◌,
  Run, ok, fault, >>=-eq-ok, arith, length, length-append, append_assoc, Bool-cases, Option-cases,
  inl, inr,
}
use bklib.Base.Int.{ℤ}
use bklib.Opt.Quote.{enc}
use bklib.Opt.Quote.Bounds.{enc-some}
use bklib.Opt.Words.Digits.{print_int_plain, print_int_word}
use bklib.Opt.Words.{
  needs_quote, print_int, Arg, null, text, int, put, put_text, put_int, spaced, cat_loop, cat,
  str2argv,
}
use bklib.Opt.Words.RoundTrip.{
  IsWord, AllWords, tail, line, total, as_word, as_word-ne-nil, length-le-as_word,
  argv_loop-as_word,
}

put_text_lem :
    (s out out' : List ℕ) (nout : ℕ)
    → put_text s out nout ≡ ok (some out')
    → out' ≡ out ++ as_word s
unfolding put_text
put_text_lem s out out' nout e = elim (Bool-cases (needs_quote s)) [
  | inl q ↦
      let (r, run, added) = >>=-eq-ok (enc s nout) _ ((rw q at e)) in
      elim (Option-cases r) [
        | inl n ↦ absurd (let k : ok none ≡ ok (some out') = (rw n at added) in cc)
        | inr (t, n) ↦ ground (arith, enc-some s t nout (run ∙ ap ok n))
      ]
  | inr q ↦ ground arith
]

put-text :
    (len : ℕ) (s out out' : List ℕ)
    → put len (text s) out ≡ ok (some out')
    → out' ≡ spaced out ++ as_word s
unfolding put
put-text len s out out' e =
    ground (arith, put_text_lem s (spaced out) out' (len - length (spaced out)))

put-int :
    (len : ℕ) (i : ℤ) (out out' : List ℕ)
    → put len (int i) out ≡ ok (some out')
    → out' ≡ spaced out ++ as_word (print_int i)
unfolding put put_int
put-int len i out out' e = ground (arith, print_int_plain i)

put-null : (len : ℕ) (out out' : List ℕ) → put len null out ≡ ok (some out') → out' ≡ out
unfolding put
put-null len out out' e = cc

-- The words of the arguments of `opt_cat`.
abbrev pub words : List Arg → List (List ℕ)
words [] = []
words (null ∷ args) = words args
words (text s ∷ args) = s ∷ words args
words (int i ∷ args) = print_int i ∷ words args

-- The texts among the arguments are words that the line can carry.
abbrev pub ArgsAreWords : List Arg → Type 0
ArgsAreWords [] = Unit {0}
ArgsAreWords (null ∷ args) = ArgsAreWords args
ArgsAreWords (text s ∷ args) = IsWord s × ArgsAreWords args
ArgsAreWords (int i ∷ args) = ArgsAreWords args

words-AllWords : (args : List Arg) → ArgsAreWords args → AllWords (words args)
words-AllWords [] a = tt
words-AllWords (null ∷ args) a = words-AllWords args a
words-AllWords (text s ∷ args) a = (a.0, words-AllWords args a.1)
words-AllWords (int i ∷ args) a = (print_int_word i, words-AllWords args a)

-- What the rest of the words adds to a line.
abbrev pub more : List ℕ → List (List ℕ) → List ℕ
more [] ws = line ws
more (x ∷ out) ws = tail ws

more-tail : (l : List ℕ) (ws : List (List ℕ)) → l ≢ [] → more l ws ≡ tail ws
more-tail [] ws ne = absurd (ne refl)
more-tail (x ∷ l) ws ne = refl

pub more_word :
    (out w : List ℕ) (ws : List (List ℕ))
    → w ≢ []
    → (spaced out ++ as_word w) ++ more (spaced out ++ as_word w) ws ≡ out ++ more out (w ∷ ws)
more_word [] w ws ne = ap (as_word w ++◌) (more-tail (as_word w) ws (as_word-ne-nil w ne))
more_word (x ∷ out) w ws ne =
    append_assoc (x ∷ out ++ b' ' ∷ []) (as_word w) (tail ws)
    ∙ append_assoc (x ∷ out) (b' ' ∷ []) (as_word w ++ tail ws)

-- A turn that succeeds.
cat_loop_step :
    (len : ℕ) (arg : Arg) (args : List Arg) (out buf : List ℕ)
    → cat_loop len (arg ∷ args) out ≡ ok (some buf)
    → (out' : List ℕ) × (put len arg out ≡ ok (some out'))
      × (cat_loop len args out' ≡ ok (some buf))
unfolding cat_loop
cat_loop_step len arg args out buf e = go (put len arg out) refl
  where
    go :
        (r : Run (Option (List ℕ)))
        → put len arg out ≡ r
        → (out' : List ℕ) × (put len arg out ≡ ok (some out'))
          × (cat_loop len args out' ≡ ok (some buf))
    go fault p = absurd (let k : fault ≡ ok (some buf) = (rw p at e) in cc)
    go (ok none) p = absurd (let k : ok none ≡ ok (some buf) = (rw p at e) in cc)
    go (ok (some out')) p = (out', p, rw p at e)

cat_loop_lem :
    (len : ℕ) (args : List Arg) (out buf : List ℕ)
    → ArgsAreWords args
    → cat_loop len args out ≡ ok (some buf)
    → buf ≡ out ++ more out (words args)
unfolding cat_loop
cat_loop_lem len [] out buf a e = end out (ground arith)
  where
    end : (l : List ℕ) → buf ≡ l ++ b'\n' ∷ [] → buf ≡ l ++ more l []
    end [] h = h
    end (x ∷ l) h = h
cat_loop_lem len (null ∷ args) out buf a e =
    let (out', p, rest) = cat_loop_step len null args out buf e in
    subst (λ o. buf ≡ o ++ more o (words args)) (put-null len out out' p)
      (cat_loop_lem len args out' buf a rest)
cat_loop_lem len (text s ∷ args) out buf a e =
    let (out', p, rest) = cat_loop_step len (text s) args out buf e in
    subst (λ o. buf ≡ o ++ more o (words args)) (put-text len s out out' p)
      (cat_loop_lem len args out' buf a.1 rest)
    ∙ more_word out s (words args) a.0.1
cat_loop_lem len (int i ∷ args) out buf a e =
    let (out', p, rest) = cat_loop_step len (int i) args out buf e in
    subst (λ o. buf ≡ o ++ more o (words args)) (put-int len i out out' p)
      (cat_loop_lem len args out' buf a rest)
    ∙ more_word out (print_int i) (words args) (print_int_word i).1

length-tail : (ws : List (List ℕ)) → total ws + 1 ≤ length (tail ws)
length-tail [] = omega arith
length-tail (w ∷ ws) =
    omega (arith, length-append (as_word w) (tail ws), length-le-as_word w, length-tail ws)

length-le-total : (ws : List (List ℕ)) → length ws ≤ total ws
length-le-total [] = omega arith
length-le-total (w ∷ ws) = omega (arith, length-le-total ws)

-- For words that are not empty and without zero bytes, at least one of them, and an `argv` with
-- room for all: if `opt_cat` writes a line, `opt_str2argv` of that line finds exactly the words in
-- their order, numbers as printed, leaves nothing, and writes its last zero behind the words and
-- inside the line with its zero.
pub str2argv-cat :
    (len argn : ℕ) (args : List Arg) (w : List ℕ) (ws : List (List ℕ)) (buf : List ℕ)
    → ArgsAreWords args
    → words args ≡ w ∷ ws
    → length ws < argn
    → cat len args ≡ ok (some buf)
    → (str2argv buf argn ≡ ok ([], w ∷ ws, total (w ∷ ws))) × (total (w ∷ ws) ≤ length buf)
unfolding cat str2argv
str2argv-cat len argn args w ws buf a e n written = rw text (
  argv_loop-as_word (length (as_word w ++ tail ws)) argn 0 w ws all fuel n
      ∙ ap (λ d. ok ([], w ∷ ws, d)) place,
  omega (arith, length-append (as_word w) (tail ws), length-le-as_word w, length-tail ws),
)
  where
    text : buf ≡ as_word w ++ tail ws
    text = cat_loop_lem len args [] buf a written ∙ ap line e

    all : AllWords (w ∷ ws)
    all = subst AllWords e (words-AllWords args a)

    fuel : length ws < length (as_word w ++ tail ws)
    fuel = omega (arith, length-append (as_word w) (tail ws), length-tail ws, length-le-total ws)

    place : 0 + total (w ∷ ws) ≡ total (w ∷ ws)
    place = omega arith
