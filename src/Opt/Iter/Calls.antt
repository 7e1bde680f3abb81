-- ===== src/Opt/Iter/Calls.antt =====
-- The loop of a caller of `opt_get_argv`: call it until there is an error or the end.
use bklib.Base.{
  ℕ, zero, suc, ◌+◌, ◌-◌, ◌≤◌, ◌<◌, ◌≡◌, ◌≢◌, refl, Bool, true, false, List, [], ◌∷◌, Run, ok,
  fault, ◌>>=◌, Returns, arith, Bool-cases, inl, inr, if◌then◌else◌, length,
}
use bklib.Base.Int.{ℤ, is_zero}
use bklib.Opt.Iter.{
  OptDef, OptError, no_error, at_end, unknown, missing, bad, error_code, OptIter, get_argv,
}
use bklib.Opt.Iter.Progress.{NoneEmpty, get_argv-Returns}

no_code : (e : OptError) → is_zero (error_code e) ≡ true → e ≡ no_error
no_code no_error h = refl
no_code at_end h = cc
no_code unknown h = cc
no_code missing h = cc
no_code bad h = cc

code : (e : OptError) → is_zero (error_code e) ≡ false → e ≢ no_error
code e h p = absurd (let q : true ≡ false = (rw p at h) in cc)

module _ {Real : Type 0} (strtod : List ℕ → Real × Bool) where
  -- At most `fuel` calls; those that found an option, and what the last one left.
  pub calls : ℕ → List OptDef → List (List ℕ) → OptIter Real → Run (List ℤ × OptIter Real)
  unfolding get_argv
  calls zero opts argv it = fault
  calls (suc fuel) opts argv it = get_argv strtod opts argv it >>= λ r.
      let more = calls fuel opts argv r.0 >>= λ q. ok (r.1 ∷ q.0, q.1) in
      if is_zero (error_code r.0.error) then more else ok ([], r.0)

  Final : List (List ℕ) → List ℤ × OptIter Real → Type 0
  Final argv q = (q.1.error ≢ no_error) × (q.1.error ≢ bad) × (q.1.argi ≤ length argv)

  calls-Returns :
      (fuel : ℕ) (opts : List OptDef) (argv : List (List ℕ)) (it : OptIter Real)
      → NoneEmpty argv
      → it.argi ≤ length argv
      → length argv < it.argi + fuel
      → Returns (calls fuel opts argv it) (λ q. Final argv q × (length q.0 + it.argi ≤ length argv))
  unfolding calls Final
  calls-Returns zero opts argv it ne h f = absurd (omega (arith, h, f))
  calls-Returns (suc fuel) opts argv it ne h f =
      let (r, run, (step, result)) = get_argv-Returns strtod opts argv it ne h in
      elim (Bool-cases (is_zero (error_code r.0.error))) [
        | inl none_ ↦
            let found : r.0.error ≡ no_error = no_code r.0.error none_ in
            let (q, more, (final, count)) =
              calls-Returns fuel opts argv r.0 ne step.within
                (omega (arith, step.passed found, f)) in
            rw (calls, run, none_, more)
              ((r.1 ∷ q.0, q.1), refl, (final, omega (arith, count, step.passed found)))
        | inr some_ ↦
            rw (calls, run, some_)
              (
                ([], r.0),
                refl,
                ((code r.0.error some_, step.never_bad, step.within), omega (arith, h)),
              )
      ]

  -- On a command line without empty arguments, calls of `opt_get_argv` until one reports an error
  -- or the end come to an end, after at most as many options as arguments are left. The last call
  -- leaves the place inside the command line or at its end, and its error is never OPT_ERROR_BAD.
  pub calls_end :
      (opts : List OptDef) (argv : List (List ℕ)) (it : OptIter Real)
      → NoneEmpty argv
      → it.argi ≤ length argv
      → Returns (calls (suc (length argv - it.argi)) opts argv it) (λ q.
        (q.1.error ≢ no_error)
        × (q.1.error ≢ bad)
        × (q.1.argi ≤ length argv)
        × (length q.0 + it.argi ≤ length argv))
  unfolding Final
  calls_end opts argv it ne h =
      let (q, run, ((ended, never, within), count)) =
        calls-Returns (suc (length argv - it.argi)) opts argv it ne h (omega (arith, h)) in
      (q, run, (ended, never, within, count))
