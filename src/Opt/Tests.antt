-- ===== src/Opt/Tests.antt =====
-- The theorems on words and options at concrete inputs, and runs of the operations.
use bklib.Base.{
  ℕ, ◌+◌, ◌≤◌, ◌<◌, ◌≡◌, ◌≢◌, refl, ap, Bool, true, false, none, some, List, [], ◌∷◌, ◌++◌, ok,
  fault, Returns, arith, length, if◌then◌else◌, inl, inr,
}
use bklib.Base.Int.{pos, is_zero}
use bklib.Opt.Quote.{enc, dec, skip_space}
use bklib.Opt.Quote.RoundTrip.{NulFree}
use bklib.Opt.Quote.Decode.{dec-enc}
use bklib.Opt.Quote.Total.{Decoded, dec-Returns}
use bklib.Opt.Words.{Arg, null, text, int, cat, str2argv, needs_quote, digits}
use bklib.Opt.Words.RoundTrip.{line, total}
use bklib.Opt.Words.Cat.{ArgsAreWords, words, str2argv-cat}
use bklib.Opt.Words.Room.{cat_room}
use bklib.Opt.Words.Total.{str2argv-Returns}
use bklib.Opt.Options.{OptSet, zeroed, err_optreq, namev2optv, argv2optv}
use bklib.Opt.Options.Setval.{HasEnd}
use bklib.Opt.Options.Result.{index, argv2optv-Returns}
use bklib.Opt.Iter.{
  OptDef, OptType, flag, int, no_error, at_end, bad, OptIter, error_code, get_argv,
}
use bklib.Opt.Options
use bklib.Opt.Iter
use bklib.Opt.Iter.Progress.{Step, get_argv-Returns}
use bklib.Opt.Iter.Calls.{calls, calls_end}

abbrev say : List ℕ
say = b'a' ∷ b' ' ∷ b'"' ∷ []

-- `cat(buf, 40, "x", 7, "a \"", OPT_CAT_END)`
abbrev args : List Arg
args = text (b'x' ∷ []) ∷ null ∷ int (pos 7) ∷ text say ∷ []

abbrev written : List ℕ
written = b'x' ∷ b' ' ∷ b'7' ∷ b' ' ∷ b'"' ∷ b'a' ∷ b' ' ∷ b'\\' ∷ b'"' ∷ b'"' ∷ b'\n' ∷ []

cat_run : cat 40 args ≡ ok (some written)
unfolding cat
cat_run = refl

cat_overrun : cat 4 (text (b'a' ∷ b'b' ∷ b'c' ∷ b'd' ∷ []) ∷ []) ≡ fault
unfolding cat
cat_overrun = refl

str2argv_run : str2argv written 3 ≡ ok ([], (b'x' ∷ []) ∷ (b'7' ∷ []) ∷ say ∷ [], 8)
unfolding str2argv skip_space
str2argv_run = refl

say-NulFree : NulFree say
say-NulFree = (
  (λ e. absurd (omega (arith, e))),
  ((λ e. absurd (omega (arith, e))), ((λ e. absurd (omega (arith, e))), tt)),
)

args-ArgsAreWords : ArgsAreWords args
args-ArgsAreWords =
    ((((λ e. absurd (omega (arith, e))), tt), (λ e. cc)), ((say-NulFree, (λ e. cc)), tt))

dec-enc_example :
    dec ((b'"' ∷ b'a' ∷ b' ' ∷ b'\\' ∷ b'"' ∷ b'"' ∷ []) ++ b' ' ∷ (b'b' ∷ [])) 10 false
    ≡ ok (skip_space (b'b' ∷ []), some say)
unfolding enc
dec-enc_example = dec-enc 9 20 b' ' say _ (b'b' ∷ []) say-NulFree (omega arith) refl refl

dec-Returns_example : Returns (dec written 5 false) (Decoded false written 5)
dec-Returns_example = dec-Returns written 5 false refl

cat_room_example : cat 40 args ≡ ok (some (line (words args)))
unfolding enc needs_quote digits
cat_room_example = cat_room 40 args args-ArgsAreWords (fits (line (words args)) refl)
  where
    fits : (l : List ℕ) → l ≡ written → length l + 1 < 40
    fits l e = omega (arith, ap length e)

str2argv-cat_example :
    (str2argv written 3 ≡ ok ([], (b'x' ∷ []) ∷ (b'7' ∷ []) ∷ say ∷ [], 8)) × (8 ≤ length written)
unfolding cat
str2argv-cat_example =
    str2argv-cat 40 3 args (b'x' ∷ []) ((b'7' ∷ []) ∷ say ∷ []) written args-ArgsAreWords refl
      (omega arith) refl

str2argv-Returns_example :
    Returns
      (str2argv written 11)
      (λ r. (r.0 ≡ []) × (r.2 ≡ total r.1) × (r.2 ≤ 12) × (length r.1 ≤ 11))
str2argv-Returns_example = str2argv-Returns written 11 refl (omega arith)

-- A C library without doubles.
abbrev no_double : List ℕ → ℕ × Bool
no_double s = (0, false)

-- `!s=file` and `n`
abbrev file_opt : OptSet ℕ
file_opt = record {
  names = some (b'f' ∷ b'i' ∷ b'l' ∷ b'e' ∷ []);
  argtype = b's';
  required = true;
  err = pos 0;
  defval = none;
  argidx = 0;
  argval = none;
  val = Options.unset;
}

abbrev n_opt : OptSet ℕ
n_opt = record {
  names = some (b'n' ∷ []);
  argtype = 0;
  required = false;
  err = pos 0;
  defval = none;
  argidx = 0;
  argval = none;
  val = Options.unset;
}

abbrev optv : List (OptSet ℕ)
optv = file_opt ∷ n_opt ∷ zeroed ∷ []

namev2optv_run :
    namev2optv ((b'!' ∷ b's' ∷ b'=' ∷ b'f' ∷ b'i' ∷ b'l' ∷ b'e' ∷ []) ∷ (b'n' ∷ []) ∷ []) 3
    ≡ ok (2, optv)
unfolding namev2optv
namev2optv_run = refl

argv2optv-Returns_example :
    Returns
      (argv2optv no_double optv ((b'-' ∷ b'n' ∷ []) ∷ say ∷ []))
      (λ r. HasEnd r.0 × (index r.1 ≤ 2))
argv2optv-Returns_example =
    argv2optv-Returns no_double optv ((b'-' ∷ b'n' ∷ []) ∷ say ∷ []) (inr (inr (inl refl)))

-- An option with a number.
abbrev opts : List OptDef
opts = record { id = pos 5; name = b'n' ∷ []; type = int } ∷ []

abbrev argv : List (List ℕ)
argv = (b'-' ∷ b'n' ∷ []) ∷ (b'4' ∷ b'2' ∷ []) ∷ (b'z' ∷ []) ∷ []

abbrev start : OptIter ℕ
start = record {
  id = pos 0;
  name = [];
  type = flag;
  argi = 0;
  error = no_error;
  arg = [];
  val = Iter.unset;
}

get_argv-Returns_example : Returns (get_argv no_double opts argv start) (λ r.
    Step no_double 3 0 r.0
    × (r.1 ≡ (if is_zero (error_code r.0.error) then r.0.id else error_code r.0.error)))
get_argv-Returns_example = get_argv-Returns no_double opts argv start tt (omega arith)

calls_end_example :
    Returns
      (calls no_double 4 opts argv start)
      (λ q. (q.1.error ≢ no_error) × (q.1.error ≢ bad) × (q.1.argi ≤ 3) × (length q.0 + 0 ≤ 3))
calls_end_example = calls_end no_double opts argv start tt (omega arith)
