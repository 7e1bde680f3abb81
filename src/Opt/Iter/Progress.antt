-- ===== src/Opt/Iter/Progress.antt =====
-- What a call of `opt_get_argv` does to the place in the command line, and where repeated calls end.
use bklib.Base.{
  ℕ, zero, suc, ◌+◌, ◌≤◌, ◌<◌, ◌≡◌, ◌≢◌, refl, sym, subst, ◌∙◌, Bool, none, some, List, [], ◌∷◌, ok,
  Returns, arith, ◌==◌, if◌then◌else◌, length, get_elem?, get_elem?_lt, Bool-cases, Option-cases,
  inl, inr,
}
use mathlib.Core.Option.{some-injective}
use bklib.Base.Int.{pos, is_zero}
use bklib.Opt.Texts.{same_text}
use bklib.Opt.Iter.{
  OptType, flag, int, uint, real, str, other, OptDef, no_error, at_end, unknown, missing, bad,
  error_code, OptIter, name_in, is_option, find_name, take_val, take_arg, take_option, take_named,
  take_at, get_argv_body, get_argv,
}

abbrev pub NoneEmpty : List (List ℕ) → Type 0
NoneEmpty [] = Unit {0}
NoneEmpty ([] ∷ argv) = ⊥
NoneEmpty ((x ∷ arg) ∷ argv) = NoneEmpty argv

module _ {Real : Type 0} (strtod : List ℕ → Real × Bool) where
  -- A step from `argi`: nothing goes back or behind the end, an option without an error is passed,
  -- and the error is never `OPT_ERROR_BAD`.
  pub record Step (argc argi : ℕ) (it : OptIter Real) : Type 0 where
    pub onward : argi ≤ it.argi
    pub within : it.argi ≤ argc
    pub passed : it.error ≡ no_error → argi < it.argi
    pub never_bad : it.error ≢ bad

  take_val_lem :
      (opt : OptIter Real) (arg : List ℕ)
      → ((take_val strtod opt arg).argi ≡ opt.argi) × ((take_val strtod opt arg).error ≡ no_error)
  unfolding take_val
  take_val_lem opt arg = ground arith

  take_arg-Step :
      (argi : ℕ) (opt : OptIter Real) (argv : List (List ℕ))
      → argi < opt.argi
      → opt.argi ≤ length argv
      → Step (length argv) argi (take_arg strtod opt argv)
  unfolding take_arg
  take_arg-Step argi opt argv h k = elim (Option-cases (get_elem? argv opt.argi)) [
    | inl e ↦
        rw (take_arg, e)
          record {
            onward = omega (arith, h);
            within = k;
            passed = λ p. absurd (let q : missing ≡ no_error = p in cc);
            never_bad = λ p. cc;
          }
    | inr (arg, e) ↦
        let (place, error) = take_val_lem (record opt { argi = opt.argi + 1 }) arg in
        let bound : opt.argi < length argv = get_elem?_lt argv opt.argi arg e in
        rw (take_arg, e)
          record {
            onward = omega (arith, h, place);
            within = omega (arith, bound, place);
            passed = λ p. omega (arith, h, place);
            never_bad = λ p. absurd (let q : no_error ≡ bad = sym error ∙ p in cc);
          }
  ]

  take_option-Step :
      (opt : OptIter Real) (found : OptDef) (argv : List (List ℕ))
      → opt.argi < length argv
      → Step (length argv) opt.argi (take_option strtod opt found argv)
  unfolding take_option
  take_option-Step opt found argv h = by_type found.type refl
    where
      at : OptIter Real
      at = record opt { argi = opt.argi + 1; name = found.name; id = found.id; type = found.type }

      rest : Step (length argv) opt.argi (take_arg strtod at argv)
      rest = take_arg-Step opt.argi at argv (omega arith) (omega (arith, h))

      by_type :
          (t : OptType)
          → found.type ≡ t
          → Step (length argv) opt.argi (take_option strtod opt found argv)
      by_type flag e =
          rw (take_option, e)
            record {
              onward = omega arith;
              within = omega (arith, h);
              passed = λ p. omega arith;
              never_bad = λ p. cc;
            }
      by_type int e = rw (take_option, e) rest
      by_type uint e = rw (take_option, e) rest
      by_type real e = rw (take_option, e) rest
      by_type str e = rw (take_option, e) rest
      by_type other e = rw (take_option, e) rest

  -- A step that leaves the place.
  stay-Step :
      (argc : ℕ) (it : OptIter Real)
      → it.argi ≤ argc
      → it.error ≢ no_error
      → it.error ≢ bad
      → Step argc it.argi it
  stay-Step argc it h n b = record {
    onward = omega arith;
    within = h;
    passed = λ p. absurd (n p);
    never_bad = b;
  }

  name_in-ok : (x : ℕ) (arg : List ℕ) → (p : List ℕ) × (name_in (x ∷ arg) ≡ ok p)
  name_in-ok x [] = ([], refl)
  name_in-ok x (y ∷ arg) = (if y == b'-' then arg else y ∷ arg, refl)

  take_named-Step :
      (opts : List OptDef) (argv : List (List ℕ)) (opt : OptIter Real) (p : List ℕ)
      → opt.argi < length argv
      → Step (length argv) opt.argi (take_named strtod opts argv opt p)
  unfolding take_named
  take_named-Step opts argv opt p h = elim (Option-cases (find_name opts p)) [
    | inl n ↦
        rw (take_named, n)
          (stay-Step (length argv) (record opt { error = unknown }) (omega (arith, h)) (λ q. cc)
            (λ q. cc))
    | inr (found, n) ↦ rw (take_named, n) (take_option-Step opt found argv h)
  ]

  take_at-Returns :
      (opts : List OptDef) (argv : List (List ℕ)) (opt : OptIter Real) (x : ℕ) (arg : List ℕ)
      → opt.error ≡ at_end
      → opt.argi < length argv
      → Returns (take_at strtod opts argv opt (x ∷ arg)) (Step (length argv) opt.argi)
  unfolding take_at
  take_at-Returns opts argv opt x arg ended h = elim (Bool-cases (is_option (x ∷ arg))) [
    | inr e ↦
        rw (take_at, e)
          (
            opt,
            refl,
            stay-Step (length argv) opt (omega (arith, h))
                (λ p. absurd (let q : at_end ≡ no_error = sym ended ∙ p in cc))
                (λ p. absurd (let q : at_end ≡ bad = sym ended ∙ p in cc)),
          )
    | inl e ↦ elim (Bool-cases (same_text (x ∷ arg) (b'-' ∷ b'-' ∷ []))) [
      | inl d ↦
          rw (take_at, d, e)
            (
              record opt { argi = opt.argi + 1 },
              refl,
              record {
                onward = omega arith;
                within = omega (arith, h);
                passed = λ p. omega arith;
                never_bad = λ p. absurd (let q : at_end ≡ bad = sym ended ∙ p in cc);
              },
            )
      | inr d ↦
          let (p, name) = name_in-ok x arg in
          rw (take_at, d, e, name)
            (take_named strtod opts argv opt p, refl, take_named-Step opts argv opt p h)
    ]
  ]

  get_elem?-NoneEmpty :
      (argv : List (List ℕ)) (i : ℕ) (arg : List ℕ)
      → NoneEmpty argv
      → get_elem? argv i ≡ some arg
      → (x : ℕ) × (rest : List ℕ) × (arg ≡ x ∷ rest)
  get_elem?-NoneEmpty [] i arg ne e = absurd (let q : none ≡ some arg = e in cc)
  get_elem?-NoneEmpty ([] ∷ argv) i arg ne e = absurd ne
  get_elem?-NoneEmpty ((x ∷ rest) ∷ argv) zero arg ne e = (x, rest, some-injective _ _ (sym e))
  get_elem?-NoneEmpty ((x ∷ rest) ∷ argv) (suc i) arg ne e = get_elem?-NoneEmpty argv i arg ne e

  -- On arguments of which none is empty the body returns.
  get_argv_body-Returns :
      (opts : List OptDef) (argv : List (List ℕ)) (opt : OptIter Real)
      → NoneEmpty argv
      → opt.argi ≤ length argv
      → Returns (get_argv_body strtod opts argv opt) (Step (length argv) opt.argi)
  unfolding get_argv_body
  get_argv_body-Returns opts argv opt ne h = elim (Option-cases (get_elem? argv opt.argi)) [
    | inl e ↦
        rw (get_argv_body, e)
          (
            _,
            refl,
            stay-Step (length argv) (record opt { error = at_end; id = pos 0 }) h (λ p. cc)
                (λ p. cc),
          )
    | inr (arg, e) ↦
        let (x, rest, text) = get_elem?-NoneEmpty argv opt.argi arg ne e in
        rw (get_argv_body, e)
          (subst
            (λ t.
              Returns
                (take_at strtod opts argv (record opt { error = at_end; id = pos 0; arg = t }) t)
                (Step (length argv) opt.argi))
            (sym text)
            (take_at-Returns opts argv (record opt { error = at_end; id = pos 0; arg = x ∷ rest }) x
              rest refl (get_elem?_lt argv opt.argi arg e)))
  ]

  -- For arguments of which none is empty and an index at most their number, `opt_get_argv` returns;
  -- the index has moved on or the end was reached, and the result is the id or the code of the error.
  pub get_argv-Returns :
      (opts : List OptDef) (argv : List (List ℕ)) (opt : OptIter Real)
      → NoneEmpty argv
      → opt.argi ≤ length argv
      → Returns (get_argv strtod opts argv opt) (λ r.
        Step (length argv) opt.argi r.0
        × (r.1 ≡ (if is_zero (error_code r.0.error) then r.0.id else error_code r.0.error)))
  unfolding get_argv
  get_argv-Returns opts argv opt ne h =
      let (it, run, step) = get_argv_body-Returns opts argv opt ne h in
      rw (get_argv, run) (_, refl, (step, refl))
