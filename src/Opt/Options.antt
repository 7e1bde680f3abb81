-- ===== src/Opt/Options.antt =====
-- opt.c: options described by texts such as `!s=file|f`, and the command line that sets them.
-- A text is the list of its bytes. `argc` is the length of `argv`. An array of options ends with one
-- without names; to read past the array is a fault.
use bklib.Base.{
  ℕ, zero, suc, ◌+◌, ◌-◌, Bool, true, false, ◌&&◌, ◌||◌, not, Option, none, some, List, [], ◌∷◌,
  ◌++◌, Run, ok, fault, ◌>>=◌, deref, leb, ltb, ◌==◌, if◌then◌else◌, length, get_elem?, drop, set,
  replicate,
}
use bklib.Base.Int.{ℤ, pos, negsuc, is_zero}
pub mod Result
pub mod Setval
use mathlib.Core.Option
use bklib.Opt.Number.{strtoul, to_long}
use bklib.Opt.Texts.{same_text, verify_word, strstr, default_mark, strspn_dash, has_alias}

-- The union `val`: not set yet, a double, a `long`, a text.
pub data Value (Real : Type 0) : Type 0 where
  unset : Value Real
  real : Real → Value Real
  long : ℤ → Value Real
  str : List ℕ → Value Real

pub record OptSet (Real : Type 0) : Type 0 where
  pub names : Option (List ℕ)
  pub argtype : ℕ
  pub required : Bool
  pub err : ℤ
  pub defval : Option (List ℕ)
  pub argidx : ℕ
  pub argval : Option (List ℕ)
  pub val : Value Real

-- `OPT_ERR_OPT` and so on.
abbrev pub err_opt : ℤ
err_opt = negsuc 0

abbrev pub err_argreq : ℤ
err_argreq = negsuc 1

abbrev pub err_arg : ℤ
err_arg = negsuc 2

abbrev pub err_type : ℤ
err_type = negsuc 3

abbrev pub err_optreq : ℤ
err_optreq = negsuc 4

-- `p` behind the mark of a required option, and the mark.
abbrev pub strip_required : List ℕ → Bool × List ℕ
strip_required [] = (false, [])
strip_required (x ∷ p) = if x == b'!' then (true, p) else (false, x ∷ p)

-- The type and the names. Of an empty text `p[1]` is behind the end.
abbrev pub strip_type : List ℕ → Run (ℕ × List ℕ)
strip_type [] = fault
strip_type (x ∷ []) = ok (0, x ∷ [])
strip_type (x ∷ y ∷ p) = if y == b'=' then ok (x, p) else ok (0, x ∷ y ∷ p)

-- The fields of one option, from its text.
unfoldable pub parse : {Real : Type 0} → List ℕ → Run (OptSet Real)
unfolding strstr
parse text =
    let stripped = strip_required text in
    strip_type stripped.1 >>= λ t. ok record {
      names = some t.1;
      argtype = t.0;
      required = stripped.0;
      err = pos 0;
      defval = Option.map (drop 8) (strstr t.1 default_mark);
      argidx = 0;
      argval = none;
      val = unset;
    }

abbrev pub zeroed : {Real : Type 0} → OptSet Real
zeroed = record {
  names = none;
  argtype = 0;
  required = false;
  err = pos 0;
  defval = none;
  argidx = 0;
  argval = none;
  val = unset;
}

-- `opt_namev2optv`: how many options there are, and the array of `optn` of them.
unfoldable pub namev2optv : {Real : Type 0} → List (List ℕ) → ℕ → Run (ℕ × List (OptSet Real))
unfolding parse
namev2optv namev zero = ok (0, [])
namev2optv [] (suc optn) = ok (0, replicate (suc optn) zeroed)
namev2optv (name ∷ namev) (suc optn) =
    parse name >>= λ opt. namev2optv namev optn >>= λ r. ok (r.0 + 1, opt ∷ r.1)

-- `opt_get`: the index of the first option that has the name.
unfoldable pub opt_get : {Real : Type 0} → List (OptSet Real) → List ℕ → Run (Option ℕ)
unfolding has_alias
opt_get [] name = fault
opt_get (opt ∷ optv) name = elim opt.names [
  | none ↦ ok none
  | some p ↦
      let next = opt_get optv name >>= λ r. ok (Option.map (λ i. i + 1) r) in
      if has_alias p name then ok (some 0) else next
]

abbrev pub begins_dash : List ℕ → Bool
begins_dash [] = false
begins_dash (x ∷ s) = x == b'-'

abbrev pub is_set : Option (List ℕ) → Bool
is_set none = false
is_set (some v) = true

-- `strtod` of the C library: the value, and whether any of the text was read.
module _ {Real : Type 0} (strtod : List ℕ → Real × Bool) where
  -- The argument of an option: `switch(opt->argtype)`.
  pub convert : OptSet Real → List ℕ → OptSet Real × ℤ
  unfolding verify_word strtoul
  convert opt arg =
      if opt.argtype == b'f'
      then (record opt { val = real (strtod arg).0 }, if (strtod arg).1 then pos 0 else err_arg)
      else if opt.argtype == b'i'
      then (
        record opt { val = long (to_long (strtoul arg).0) },
        if (strtoul arg).1 then pos 0 else err_arg,
      )
      else if opt.argtype == b's'
      then (record opt { val = str arg }, pos 0)
      else if opt.argtype == b'w'
      then if verify_word arg then (record opt { val = str arg }, pos 0) else (opt, err_arg)
      else (opt, err_type)

  -- The option at `argidx`, the text there, and the place of its argument.
  pub setval_at : OptSet Real → ℕ → List ℕ → List (List ℕ) → OptSet Real × ℕ × ℤ
  unfolding convert
  setval_at opt argidx switch argv =
      let at = record opt { argidx = argidx; argval = some switch } in
      let place = if begins_dash switch then argidx + 1 else argidx in
      if opt.argtype == 0
      then (record at { val = long (pos 1) }, argidx, pos 0)
      else elim (get_elem? argv place) [
        | none ↦ (at, place, err_argreq)
        | some arg ↦ let r = convert (record at { argval = some arg }) arg in (r.0, place, r.1)
      ]

  -- `opt_setval`: the option, `*argidx`, and the error.
  unfoldable pub setval : OptSet Real → ℕ → List (List ℕ) → OptSet Real × ℕ × ℤ
  unfolding setval_at
  setval opt argidx argv = elim (get_elem? argv argidx) [
    | none ↦ (record opt { err = err_optreq }, argidx, err_optreq)
    | some switch ↦ let r = setval_at opt argidx switch argv in (record r.0 { err = r.2 }, r.1, r.2)
  ]

  -- The option of a switch, found and set.
  pub take_switch :
      List (OptSet Real) → ℕ → List (List ℕ) → List ℕ → Run (List (OptSet Real) × ℕ × ℤ)
  unfolding setval opt_get
  take_switch optv optind argv name = opt_get optv name >>= λ found. elim found [
    | none ↦ ok (optv, optind, err_opt)
    | some i ↦ deref (get_elem? optv i) >>= λ opt.
        let r = setval opt optind argv in ok (set optv i r.0, r.1, r.2)
  ]

  -- The first loop of `opt_argv2optv`, on fuel: the options, `optind` and the error behind it.
  pub opts_loop : ℕ → List (OptSet Real) → ℕ → List (List ℕ) → Run (List (OptSet Real) × ℕ × ℤ)
  unfolding take_switch same_text
  opts_loop zero optv optind argv = fault
  opts_loop (suc fuel) optv optind argv = elim (get_elem? argv optind) [
    | none ↦ ok (optv, optind, pos 0)
    | some parg ↦
        let option = take_switch optv optind argv (strspn_dash parg) >>= λ r.
        let next = opts_loop fuel r.0 (r.1 + 1) argv in if is_zero r.2 then next else ok r in
        if same_text parg (b'-' ∷ b'-' ∷ [])
        then ok (optv, optind + 1, pos 0)
        else if begins_dash parg
        then option
        else ok (optv, optind, pos 0)
  ]

  -- The second loop: the required options that have no value take one. `done` are those before.
  pub required_loop : List (OptSet Real) → ℕ → List (List ℕ) → Run (List (OptSet Real) × ℕ)
  unfolding setval
  required_loop [] optind argv = fault
  required_loop (opt ∷ optv) optind argv =
      let r = setval opt optind argv in
      let skip = required_loop optv optind argv >>= λ q. ok (opt ∷ q.0, q.1) in
      let next = required_loop optv r.1 argv >>= λ q. ok (r.0 ∷ q.0, q.1) in
      elim opt.names [
        | none ↦ ok (opt ∷ optv, optind)
        | some p ↦
            if not opt.required || is_set opt.argval
            then skip
            else if is_zero r.2
            then next
            else ok (r.0 ∷ optv, r.1)
      ]

  -- `opt_argv2optv`: the options, and `optind` or -(`optind` + 1). A turn of the first loop passes
  -- an argument at least. The error of the second loop is overwritten with 0.
  unfoldable pub argv2optv : List (OptSet Real) → List (List ℕ) → Run (List (OptSet Real) × ℤ)
  unfolding opts_loop required_loop
  argv2optv optv argv = opts_loop (suc (length argv)) optv 0 argv >>= λ r.
      let rest = required_loop r.0 r.1 argv >>= λ q. ok (q.0, pos q.1) in
      if is_zero r.2 then rest else ok (r.0, negsuc r.1)
