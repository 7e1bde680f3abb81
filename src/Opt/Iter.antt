-- ===== src/Opt/Iter.antt =====
-- opt.c: `opt_get_argv` takes one option after the other from a command line. The options are
-- described by an array, whose end is the end of the list here. `argc` is the length of `argv`.
pub mod Progress
pub mod Calls
use mathlib.Core.Option
use bklib.Base.{
  ℕ, zero, suc, ◌+◌, ◌-◌, ◌%◌, ◌^◌, Bool, true, false, not, Option, none, some, List, [], ◌∷◌, Run,
  ok, fault, ◌>>=◌, leb, ltb, ◌==◌, if◌then◌else◌, length, get_elem?,
}
use bklib.Base.Int.{ℤ, pos, negsuc, is_zero}
use bklib.Opt.Number.{strtol, strtoul, to_int}
use bklib.Opt.Texts.{same_text}

-- `opt_type_t`; a number outside it is `other`.
pub data OptType : Type 0 where
  flag int uint real str other : OptType

-- `opt_set_s`
pub record OptDef : Type 0 where
  pub id : ℤ
  pub name : List ℕ
  pub type : OptType

-- `opt_error_t`
pub data OptError : Type 0 where
  no_error at_end unknown missing bad : OptError

abbrev pub error_code : OptError → ℤ
error_code no_error = pos 0
error_code at_end = negsuc 0
error_code unknown = negsuc 1
error_code missing = negsuc 2
error_code bad = negsuc 3

-- The union `val`.
pub data Value (Real : Type 0) : Type 0 where
  unset : Value Real
  int_val : ℤ → Value Real
  uint_val : ℕ → Value Real
  text_val : List ℕ → Value Real
  real_val : Real → Value Real

-- `opt_iter_s`
pub record OptIter (Real : Type 0) : Type 0 where
  pub id : ℤ
  pub name : List ℕ
  pub type : OptType
  pub argi : ℕ
  pub error : OptError
  pub arg : List ℕ
  pub val : Value Real

-- The name in an argument, behind `-` or `--`: `p = arg+1`, and once more. Behind an empty argument
-- there is nothing to read.
abbrev pub name_in : List ℕ → Run (List ℕ)
name_in [] = fault
name_in (x ∷ []) = ok []
name_in (x ∷ y ∷ p) = ok (if y == b'-' then p else y ∷ p)

-- `strchr("-", *arg)`, which finds the zero of an empty argument too.
abbrev pub is_option : List ℕ → Bool
is_option [] = true
is_option (x ∷ arg) = x == b'-'

pub find_name : List OptDef → List ℕ → Option OptDef
unfolding same_text
find_name [] p = none
find_name (opt ∷ opts) p =
    let more = find_name opts p in if same_text p opt.name then some opt else more

-- `strtod` of the C library: the value, and whether any of the text was read.
module _ {Real : Type 0} (strtod : List ℕ → Real × Bool) where
  -- `switch(opt->type)`: the value, and whether any of the text was read.
  pub read_val : OptType → Value Real → List ℕ → Value Real × Bool
  unfolding strtol strtoul to_int
  read_val str old arg = (text_val arg, true)
  read_val int old arg = (int_val (to_int (strtol arg).0), (strtol arg).1)
  read_val uint old arg = (uint_val ((strtoul arg).0 % 2 ^ 32), (strtoul arg).1)
  read_val real old arg = (real_val (strtod arg).0, (strtod arg).1)
  read_val flag old arg = (old, false)
  read_val other old arg = (old, false)

  -- The error of a text that is no number, and `opt->error = 0` behind it.
  pub take_val : OptIter Real → List ℕ → OptIter Real
  unfolding read_val
  take_val opt arg =
      let r = read_val opt.type opt.val arg in
      let read =
        if r.1 then record opt { val = r.0 } else record opt { error = bad; val = text_val arg } in
      record read { error = no_error }

  pub take_arg : OptIter Real → List (List ℕ) → OptIter Real
  unfolding take_val
  take_arg opt argv = elim (get_elem? argv opt.argi) [
    | none ↦ record opt { error = missing }
    | some arg ↦ take_val (record opt { argi = opt.argi + 1 }) arg
  ]

  -- An option that was found.
  pub take_option : OptIter Real → OptDef → List (List ℕ) → OptIter Real
  unfolding take_arg
  take_option opt found argv =
      let at = record opt {
        argi = opt.argi + 1;
        name = found.name;
        id = found.id;
        type = found.type;
      } in
      elim found.type [
        | flag ↦ record at { val = int_val (pos 1); error = no_error }
        | _ ↦ take_arg at argv
      ]

  -- "find matching option"
  pub take_named : List OptDef → List (List ℕ) → OptIter Real → List ℕ → OptIter Real
  unfolding take_option find_name
  take_named opts argv opt p = elim (find_name opts p) [
    | none ↦ record opt { error = unknown }
    | some found ↦ take_option opt found argv
  ]

  -- The argument at `argi`, which `opt` holds.
  pub take_at : List OptDef → List (List ℕ) → OptIter Real → List ℕ → Run (OptIter Real)
  unfolding take_named same_text
  take_at opts argv opt arg =
      if not (is_option arg)
      then ok opt
      else if same_text arg (b'-' ∷ b'-' ∷ [])
      then ok record opt { argi = opt.argi + 1 }
      else name_in arg >>= λ p. ok (take_named opts argv opt p)

  -- `do { ... } while(0)` of `opt_get_argv`.
  pub get_argv_body : List OptDef → List (List ℕ) → OptIter Real → Run (OptIter Real)
  unfolding take_at
  get_argv_body opts argv opt₀ =
      let opt = record opt₀ { error = at_end; id = pos 0 } in
      elim (get_elem? argv opt.argi) [
        | none ↦ ok opt
        | some arg ↦ take_at opts argv (record opt { arg = arg }) arg
      ]

  -- `opt_get_argv`
  unfoldable pub get_argv : List OptDef → List (List ℕ) → OptIter Real → Run (OptIter Real × ℤ)
  unfolding get_argv_body
  get_argv opts argv opt = get_argv_body opts argv opt >>= λ r.
      ok (r, if is_zero (error_code r.error) then r.id else error_code r.error)

-- What `opt_perror` prints: "unknown option %s", "bad argument for option %s: %s", or nothing.
pub data Message : Type 0 where
  unknown_option : List ℕ → Message
  bad_argument : List ℕ → Option (List ℕ) → Message
  nothing : Message

unfoldable pub perror : {Real : Type 0} → OptIter Real → Message
perror opt = elim opt.error [
  | unknown ↦ unknown_option opt.arg
  | missing ↦ unknown_option opt.arg
  | bad ↦ bad_argument opt.arg (elim opt.val [ text_val s ↦ some s | _ ↦ none ])
  | _ ↦ nothing
]
