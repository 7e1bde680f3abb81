-- ===== src/Opt/Words.antt =====
-- opt.c: `opt_cat` writes words into a line, `opt_str2argv` splits a line into words. A line is the
-- list of its bytes.
pub mod RoundTrip
pub mod Digits
pub mod Cat
pub mod Total
pub mod Room
use bklib.Base.{
  ℕ, zero, suc, ◌+◌, ◌-◌, ◌/◌, ◌%◌, ◌*◌, ◌^◌, Bool, true, false, ◌||◌, Option, none, some, List, [],
  ◌∷◌, ◌++◌, Run, ok, fault, ◌>>=◌, leb, ltb, ◌==◌, if◌then◌else◌, length,
}
use bklib.Base.Int.{ℤ, pos, negsuc}
use bklib.Opt.Quote.{enc, dec}

-- `OPT_QUOTED_CHARS`
abbrev pub is_quoted_char : ℕ → Bool
is_quoted_char x =
    x == b' ' || (x == b'\n' || (x == b'\r' || (x == b'\t' || (x == b'\\' || x == b'"'))))

-- `opt_needs_quote` of a text.
unfoldable pub needs_quote : List ℕ → Bool
needs_quote [] = false
needs_quote (x ∷ s) = is_quoted_char x || needs_quote s

-- What `%d` prints.
unfoldable pub digits : ℕ → ℕ → List ℕ
digits zero n = []
digits (suc fuel) n =
    let more = digits fuel (n / 10) in
    if ltb n 10 then (b'0' + n) ∷ [] else more ++ (b'0' + n % 10) ∷ []

abbrev pub print_int : ℤ → List ℕ
print_int (pos n) = digits (suc n) n
print_int (negsuc n) = b'-' ∷ digits (suc (suc n)) (suc n)

-- An argument of `opt_cat`: a null pointer, a text, or `OPT_CAT_INT` with the `int` behind it.
pub data Arg : Type 0 where
  null : Arg
  text : List ℕ → Arg
  int : ℤ → Arg

-- `if( pout > buf )`: a space between words.
abbrev pub spaced : List ℕ → List ℕ
spaced [] = []
spaced (x ∷ out) = x ∷ out ++ b' ' ∷ []

-- A text behind `out`, with `nout` bytes left of the buffer; `none` for -1. A zero that lands behind
-- the buffer is a fault.
pub put_text : List ℕ → List ℕ → ℕ → Run (Option (List ℕ))
unfolding enc needs_quote
put_text s out nout =
    if needs_quote s
    then (enc s nout >>= λ r. ok (elim r [ some t ↦ some (out ++ t) | none ↦ none ]))
    else if ltb (length s) nout
    then ok (some (out ++ s))
    else fault

pub put_int : ℤ → List ℕ → ℕ → Run (Option (List ℕ))
unfolding digits
put_int i out nout =
    if ltb (length (print_int i)) nout then ok (some (out ++ print_int i)) else fault

-- A turn of the loop of `opt_cat`; `len` is the size of the buffer.
pub put : ℕ → Arg → List ℕ → Run (Option (List ℕ))
unfolding put_text put_int
put len null out = ok (some out)
put len (text s) out =
    if ltb (len - length out) 2
    then ok none
    else put_text s (spaced out) (len - length (spaced out))
put len (int i) out =
    if ltb (len - length out) 2 then ok none else put_int i (spaced out) (len - length (spaced out))

-- The loop of `opt_cat`, with the end of the line.
pub cat_loop : ℕ → List Arg → List ℕ → Run (Option (List ℕ))
unfolding put
cat_loop len [] out = ok (if ltb (len - length out) 2 then none else some (out ++ b'\n' ∷ []))
cat_loop len (arg ∷ args) out =
    put len arg out >>= λ r. elim r [ none ↦ ok none | some out' ↦ cat_loop len args out' ]

-- `opt_cat`: the text in the buffer, or `none` for -1.
unfoldable pub cat : ℕ → List Arg → Run (Option (List ℕ))
unfolding cat_loop
cat len args = cat_loop len args []

-- The loop of `opt_str2argv`, on fuel: what is left of the line, the words, and the place in the
-- line where the last zero is written. The words overwrite the line from its start, never past what
-- is read. `argn` is the room that is left in `argv`.
pub argv_loop : ℕ → ℕ → List ℕ → ℕ → Run (List ℕ × List (List ℕ) × ℕ)
unfolding dec
argv_loop fuel argn [] dst = ok ([], [], dst)
argv_loop zero argn (x ∷ line) dst = fault
argv_loop (suc fuel) zero (x ∷ line) dst = fault
argv_loop (suc fuel) (suc argn) (x ∷ line) dst =
    dec (x ∷ line) (suc (length (x ∷ line))) false >>= λ r. elim r.1 [
      | none ↦ fault
      | some word ↦
          argv_loop fuel argn r.0 (dst + length word + 1) >>= λ s. ok (s.0, word ∷ s.1, s.2)
    ]

-- `opt_str2argv`, for an `argv` of `argn` places. A turn of the loop reads a byte at least.
unfoldable pub str2argv : List ℕ → ℕ → Run (List ℕ × List (List ℕ) × ℕ)
unfolding argv_loop
str2argv line argn = argv_loop (length line) argn line 0
