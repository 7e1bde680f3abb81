-- ===== src/Opt/Options/Result.antt =====
-- `opt_argv2optv` returns on an array of options that has an end, and what it returns.
use bklib.Base.{
  ℕ, zero, suc, ◌+◌, ◌≤◌, ◌<◌, ◌≡◌, refl, sym, ap, ◌∙◌, Bool, true, not, ◌||◌, ◌⊎◌, none, some,
  List, [], ◌∷◌, ok, Returns, arith, length, get_elem?, get_elem?_lt, get_elem?-some, set,
  Bool-cases, Option-cases, inl, inr,
}
use bklib.Base.Int.{ℤ, pos, negsuc, is_zero}
use bklib.Opt.Texts.{same_text, strspn_dash}
use bklib.Opt.Options.{
  OptSet, err_opt, err_optreq, opt_get, begins_dash, is_set, setval, take_switch, opts_loop,
  required_loop, argv2optv,
}
use bklib.Opt.Options.Setval.{HasEnd, is_zero-eq, setval-Moved, opt_get-Returns, HasEnd-set}

-- The index in a result of `opt_argv2optv`: `optind`, or that of the argument in error.
abbrev pub index : ℤ → ℕ
index (pos n) = n
index (negsuc n) = n

module _ {Real : Type 0} (strtod : List ℕ → Real × Bool) where
  -- The options still have an end, and `optind` is inside the command line or at its end.
  abbrev Reached : List (List ℕ) → List (OptSet Real) × ℕ × ℤ → Type 0
  Reached argv r = HasEnd r.0 × (r.1 ≤ length argv)

  record Taken (optind : ℕ) (argv : List (List ℕ)) (r : List (OptSet Real) × ℕ × ℤ) : Type 0 where
    pub has_end : HasEnd r.0
    pub onward : optind ≤ r.1
    pub within : r.1 ≤ length argv
    pub inside : r.2 ≡ pos 0 → r.1 < length argv

  take_switch-Returns :
      (optv : List (OptSet Real)) (optind : ℕ) (argv : List (List ℕ)) (name : List ℕ)
      → HasEnd optv
      → optind < length argv
      → Returns (take_switch strtod optv optind argv name) (Taken optind argv)
  unfolding take_switch
  take_switch-Returns optv optind argv name h k = found (opt_get-Returns optv name h)
    where
      found :
          Returns (opt_get optv name) (λ r. (i : ℕ) → r ≡ some i → i < length optv)
          → Returns (take_switch strtod optv optind argv name) (Taken optind argv)
      found (none, run, bound) =
          rw (take_switch, run)
            (
              (optv, optind, err_opt),
              refl,
              record {
                has_end = h;
                onward = omega arith;
                within = omega (arith, k);
                inside = λ p. k;
              },
            )
      found (some i, run, bound) =
          let (opt, at) = get_elem?-some optv i (bound i refl) in
          let m = setval-Moved strtod opt optind argv in
          let r = setval strtod opt optind argv in
          rw (take_switch, run, at)
            (
              (set optv i r.0, r.1, r.2),
              refl,
              record {
                has_end = HasEnd-set optv i opt r.0 h at m.kept;
                onward = m.onward;
                within = m.near (omega (arith, k));
                inside = m.inside;
              },
            )

  opts_loop-Returns :
      (fuel : ℕ) (optv : List (OptSet Real)) (optind : ℕ) (argv : List (List ℕ))
      → HasEnd optv
      → optind ≤ length argv
      → length argv < optind + fuel
      → Returns (opts_loop strtod fuel optv optind argv) (Reached argv)
  unfolding opts_loop
  opts_loop-Returns zero optv optind argv h k f = absurd (omega (arith, k, f))
  opts_loop-Returns (suc fuel) optv optind argv h k f =
      elim (Option-cases (get_elem? argv optind)) [
        | inl e ↦ rw (opts_loop, e) ((optv, optind, pos 0), refl, (h, k))
        | inr (parg, e) ↦
            let inside : optind < length argv = get_elem?_lt argv optind parg e in
            elim (Bool-cases (same_text parg (b'-' ∷ b'-' ∷ []))) [
              | inl d ↦
                  rw (opts_loop, e, d) ((optv, optind + 1, pos 0), refl, (h, omega (arith, inside)))
              | inr d ↦ elim (Bool-cases (begins_dash parg)) [
                | inr b ↦ rw (opts_loop, e, d, b) ((optv, optind, pos 0), refl, (h, k))
                | inl b ↦
                    let (r, run, t) =
                      take_switch-Returns optv optind argv (strspn_dash parg) h inside in
                    elim (Bool-cases (is_zero r.2)) [
                      | inr z ↦ rw (opts_loop, e, d, b, run, z) (r, refl, (t.has_end, t.within))
                      | inl z ↦
                          rw (opts_loop, e, d, b, run, z)
                            (opts_loop-Returns fuel r.0 (r.1 + 1) argv t.has_end
                              (omega (arith, t.inside (is_zero-eq r.2 z)))
                              (omega (arith, t.onward, f)))
                    ]
              ]
            ]
      ]

  required_loop-Returns :
      (optv : List (OptSet Real)) (optind : ℕ) (argv : List (List ℕ))
      → HasEnd optv
      → optind ≤ length argv
      → Returns (required_loop strtod optv optind argv) (λ r. HasEnd r.0 × (r.1 ≤ length argv))
  unfolding required_loop
  required_loop-Returns [] optind argv h k = absurd h
  required_loop-Returns (opt ∷ optv) optind argv h k = elim (Option-cases opt.names) [
    | inl e ↦ rw (required_loop, e) ((opt ∷ optv, optind), refl, (h, k))
    | inr (p, e) ↦
        let end = rest_has_end p e h in
        let m = setval-Moved strtod opt optind argv in
        elim (Bool-cases (not opt.required || is_set opt.argval)) [
          | inl s ↦
              let (r, run, (has_end, within)) = required_loop-Returns optv optind argv end k in
              rw (required_loop, e, s, run) ((opt ∷ r.0, r.1), refl, (inr has_end, within))
          | inr s ↦ elim (Bool-cases (is_zero (setval strtod opt optind argv).2)) [
            | inl z ↦
                let (r, run, (has_end, within)) =
                  required_loop-Returns optv (setval strtod opt optind argv).1 argv end
                    (m.near k) in
                rw (required_loop, e, s, z, run)
                  (((setval strtod opt optind argv).0 ∷ r.0, r.1), refl, (inr has_end, within))
            | inr z ↦
                rw (required_loop, e, s, z)
                  (
                    ((setval strtod opt optind argv).0 ∷ optv, (setval strtod opt optind argv).1),
                    refl,
                    (inr end, m.near k),
                  )
          ]
        ]
  ]
    where
      rest_has_end :
          (p : List ℕ) → opt.names ≡ some p → (opt.names ≡ none) ⊎ HasEnd optv → HasEnd optv
      rest_has_end p e (inl n) = absurd (let q : none ≡ some p = sym n ∙ e in cc)
      rest_has_end p e (inr r) = r

  -- For an array of options that has an end, `opt_argv2optv` returns, whatever the command line:
  -- the array still has an end, and the index in the result, of the first argument that is no
  -- option or of the one in error, is at most the number of arguments.
  pub argv2optv-Returns :
      (optv : List (OptSet Real)) (argv : List (List ℕ))
      → HasEnd optv
      → Returns (argv2optv strtod optv argv) (λ r. HasEnd r.0 × (index r.1 ≤ length argv))
  unfolding argv2optv
  argv2optv-Returns optv argv h =
      let (r, run, (has_end, within)) =
        opts_loop-Returns (suc (length argv)) optv 0 argv h (omega arith) (omega arith) in
      elim (Bool-cases (is_zero r.2)) [
        | inr z ↦ rw (argv2optv, run, z) ((r.0, negsuc r.1), refl, (has_end, within))
        | inl z ↦
            let (q, more, post) = required_loop-Returns r.0 r.1 argv has_end within in
            rw (argv2optv, run, z, more) ((q.0, pos q.1), refl, post)
      ]

  -- With no arguments, and a required option without value at the start of the array,
  -- `opt_argv2optv` records OPT_ERR_OPTREQ in the option and returns 0, as it does on success.
  pub argv2optv_missing :
      (opt : OptSet Real) (optv : List (OptSet Real)) (names : List ℕ)
      → opt.names ≡ some names
      → opt.required ≡ true
      → opt.argval ≡ none
      → argv2optv strtod (opt ∷ optv) [] ≡ ok (record opt { err = err_optreq } ∷ optv, pos 0)
  unfolding argv2optv opts_loop required_loop setval
  argv2optv_missing opt optv names n r a =
      rw (argv2optv, n, r, a)
        (ap
          (λ m. ok (
            record opt { names = m; required = true; argval = none; err = err_optreq } ∷ optv,
            pos 0,
          ))
          n)
