-- ===== src/Opt/Words/RoundTrip.antt =====
-- `opt_str2argv` finds the words that `opt_cat` wrote.
use bklib.Base.{
  ℕ, zero, suc, ◌+◌, ◌≤◌, ◌<◌, ◌≡◌, ◌≢◌, refl, ap, ◌∙◌, true, false, some, List, [], ◌∷◌, ◌++◌, ok,
  ◌>>=◌, arith, if◌then◌else◌, length, length-append, append_assoc, Bool-cases, inl, inr,
}
use bklib.Opt.Quote.{c, dec, is_space, skip_space}
use bklib.Opt.Quote.Bounds.{escaped, length-le-escaped}
use bklib.Opt.Quote.RoundTrip.{NulFree}
use bklib.Opt.Quote.Decode.{
  Plain, skip_space-Plain, skip_space-quote, skip_space-nil, dec-Plain, dec-string,
}
use bklib.Opt.Words.{needs_quote, argv_loop}

-- A word as it stands in the line.
abbrev pub as_word : List ℕ → List ℕ
as_word s = if needs_quote s then b'"' ∷ (escaped c s ++ b'"' ∷ []) else s

needs_quote-false-Plain : (s : List ℕ) → needs_quote s ≡ false → Plain s
unfolding needs_quote
needs_quote-false-Plain [] h = tt
needs_quote-false-Plain (x ∷ s) h =
    (ground arith, ground arith, needs_quote-false-Plain s (ground arith))

dec-as_word :
    (room x : ℕ) (s rest : List ℕ)
    → is_space x ≡ true
    → length s < room
    → NulFree s
    → s ≢ []
    → dec (as_word s ++ x ∷ rest) (suc room) false ≡ ok (skip_space rest, some s)
dec-as_word room x s rest space fits n ne = elim (Bool-cases (needs_quote s)) [
  | inl q ↦ rw q (
      ap (λ l. dec (b'"' ∷ l) (suc room) false) (append_assoc (escaped c s) (b'"' ∷ []) (x ∷ rest))
      ∙ dec-string room x s rest space fits n)
  | inr q ↦ rw q (dec-Plain room x s rest space fits (needs_quote-false-Plain s q) ne)
]

-- A word that the line can carry.
abbrev pub IsWord : List ℕ → Type 0
IsWord s = NulFree s × (s ≢ [])

-- What follows a word in the line, and the line.
abbrev pub tail : List (List ℕ) → List ℕ
tail [] = b'\n' ∷ []
tail (w ∷ ws) = b' ' ∷ (as_word w ++ tail ws)

abbrev pub line : List (List ℕ) → List ℕ
line [] = b'\n' ∷ []
line (w ∷ ws) = as_word w ++ tail ws

-- The bytes of the words, each with a zero.
abbrev pub total : List (List ℕ) → ℕ
total [] = 0
total (w ∷ ws) = length w + 1 + total ws

abbrev pub AllWords : List (List ℕ) → Type 0
AllWords [] = Unit {0}
AllWords (w ∷ ws) = IsWord w × AllWords ws

pub as_word-ne-nil : (s : List ℕ) → s ≢ [] → as_word s ≢ []
as_word-ne-nil s ne = elim (Bool-cases (needs_quote s)) [ inl q ↦ rw q cc | inr q ↦ rw q ne ]

skip_space-as_word : (s rest : List ℕ) → s ≢ [] → skip_space (as_word s ++ rest) ≡ as_word s ++ rest
skip_space-as_word s rest ne = elim (Bool-cases (needs_quote s)) [
  | inl q ↦ rw q (skip_space-quote ((escaped c s ++ b'"' ∷ []) ++ rest))
  | inr q ↦ rw q (skip_space-Plain s rest (needs_quote-false-Plain s q) ne)
]

pub argv_loop_step :
    (fuel argn dst : ℕ) (l rest w : List ℕ)
    → l ≢ []
    → dec l (suc (length l)) false ≡ ok (rest, some w)
    → argv_loop (suc fuel) (suc argn) l dst
      ≡ (argv_loop fuel argn rest (dst + length w + 1) >>= λ s. ok (s.0, w ∷ s.1, s.2))
unfolding argv_loop
argv_loop_step fuel argn dst [] rest w ne e = absurd (ne refl)
argv_loop_step fuel argn dst (x ∷ l) rest w ne e = rw (argv_loop, e) refl

pub length-le-as_word : (s : List ℕ) → length s ≤ length (as_word s)
length-le-as_word s = elim (Bool-cases (needs_quote s)) [
  | inl q ↦ rw q (omega (arith, length-append (escaped c s) (b'"' ∷ []), length-le-escaped c s))
  | inr q ↦ rw q (omega arith)
]

-- A word and the space behind it are one turn of the loop.
argv_loop-word :
    (fuel argn dst x : ℕ) (w rest : List ℕ)
    → is_space x ≡ true
    → IsWord w
    → argv_loop (suc fuel) (suc argn) (as_word w ++ x ∷ rest) dst
      ≡ (argv_loop fuel argn (skip_space rest) (dst + length w + 1) >>= λ s. ok (s.0, w ∷ s.1, s.2))
argv_loop-word fuel argn dst x w rest space word =
    argv_loop_step fuel argn dst (as_word w ++ x ∷ rest) (skip_space rest) w nonempty (
      dec-as_word (length (as_word w ++ x ∷ rest)) x w rest space
        (omega (arith, length-append (as_word w) (x ∷ rest), length-le-as_word w)) word.0 word.1)
  where
    nonempty : as_word w ++ x ∷ rest ≢ []
    nonempty e = absurd (
        let l : length (as_word w ++ x ∷ rest) ≡ 0 = ap length e in
        omega (arith, length-append (as_word w) (x ∷ rest)))

-- The words of a line are found, in their order.
pub argv_loop-as_word :
    (fuel argn dst : ℕ) (w : List ℕ) (ws : List (List ℕ))
    → AllWords (w ∷ ws)
    → length ws < fuel
    → length ws < argn
    → argv_loop fuel argn (as_word w ++ tail ws) dst ≡ ok ([], w ∷ ws, dst + total (w ∷ ws))
unfolding argv_loop
argv_loop-as_word zero argn dst w ws a f n = elim f [ ]
argv_loop-as_word (suc fuel) zero dst w ws a f n = elim n [ ]
argv_loop-as_word (suc fuel) (suc argn) dst w [] a f n =
    argv_loop-word fuel argn dst b'\n' w [] refl a.0
    ∙ ap (λ l. argv_loop fuel argn l (dst + length w + 1) >>= λ s. ok (s.0, w ∷ s.1, s.2))
        skip_space-nil
    ∙ ap (λ d. ok ([], w ∷ [], d)) place
  where
    place : dst + length w + 1 ≡ dst + (length w + 1 + 0)
    place = omega arith
argv_loop-as_word (suc fuel) (suc argn) dst w (v ∷ vs) a f n =
    argv_loop-word fuel argn dst b' ' w (as_word v ++ tail vs) refl a.0
    ∙ ap (λ l. argv_loop fuel argn l (dst + length w + 1) >>= λ s. ok (s.0, w ∷ s.1, s.2))
        (skip_space-as_word v (tail vs) a.1.0.1)
    ∙ ap (◌>>= λ s. ok (s.0, w ∷ s.1, s.2))
        (argv_loop-as_word fuel argn (dst + length w + 1) v vs a.1 (omega arith) (omega arith))
    ∙ ap (λ d. ok ([], w ∷ v ∷ vs, d)) place
  where
    place : dst + length w + 1 + total (v ∷ vs) ≡ dst + (length w + 1 + total (v ∷ vs))
    place = omega arith
