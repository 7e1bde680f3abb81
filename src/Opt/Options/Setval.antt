-- ===== src/Opt/Options/Setval.antt =====
-- What `opt_get` finds, and how far `opt_setval` moves in the command line.
use mathlib.Core.Option
use bklib.Base.{
  ℕ, zero, suc, ◌+◌, ◌≤◌, ◌<◌, ◌≡◌, refl, sym, ap, ◌∙◌, Bool, true, ◌⊎◌, Option, none, some, List,
  [], ◌∷◌, Returns, arith, ◌==◌, if◌then◌else◌, length, get_elem?, get_elem?_lt, set, Bool-cases,
  Option-cases, inl, inr,
}
use mathlib.Core.Option.{some-injective}
use bklib.Base.Int.{ℤ, pos, negsuc, is_zero}
use bklib.Opt.Texts.{has_alias}
use bklib.Opt.Options.{
  OptSet, err_argreq, err_optreq, opt_get, begins_dash, convert, setval_at, setval,
}

-- The array has an option without names.
abbrev pub HasEnd : {Real : Type 0} → List (OptSet Real) → Type 0
HasEnd [] = ⊥
HasEnd (opt ∷ optv) = (opt.names ≡ none) ⊎ HasEnd optv

pub is_zero-eq : (z : ℤ) → is_zero z ≡ true → z ≡ pos 0
is_zero-eq (pos n) h = ground arith
is_zero-eq (negsuc n) h = ground arith

module _ {Real : Type 0} (strtod : List ℕ → Real × Bool) where
  convert-names : (opt : OptSet Real) (arg : List ℕ) → (convert strtod opt arg).0.names ≡ opt.names
  unfolding convert
  convert-names opt arg = ground arith

  -- What a call of `opt_setval` does besides the value.
  pub record Moved (opt : OptSet Real) (argidx argc : ℕ) (r : OptSet Real × ℕ × ℤ) : Type 0 where
    pub kept : r.0.names ≡ opt.names
    pub onward : argidx ≤ r.1
    pub near : argidx ≤ argc → r.1 ≤ argc
    pub inside : r.2 ≡ pos 0 → r.1 < argc

  place_bounds :
      (argidx : ℕ) (switch : List ℕ)
      → (argidx ≤ (if begins_dash switch then argidx + 1 else argidx))
        × ((if begins_dash switch then argidx + 1 else argidx) ≤ argidx + 1)
  place_bounds argidx switch = ground arith

  setval_at-Moved :
      (opt : OptSet Real) (argidx : ℕ) (switch : List ℕ) (argv : List (List ℕ))
      → argidx < length argv
      → Moved opt argidx (length argv) (setval_at strtod opt argidx switch argv)
  unfolding setval_at
  setval_at-Moved opt argidx switch argv h = elim (Bool-cases (opt.argtype == 0)) [
    | inl t ↦
        rw (setval_at, t)
          record { kept = refl; onward = omega arith; near = λ p. p; inside = λ p. h }
    | inr t ↦
        let (onward, near) = place_bounds argidx switch in
        elim (Option-cases (get_elem? argv (if begins_dash switch then argidx + 1 else argidx))) [
          | inl e ↦
              rw (setval_at, t, e)
                record {
                  kept = refl;
                  onward = onward;
                  near = λ p. omega (arith, near, h);
                  inside = λ p. absurd (let q : err_argreq ≡ pos 0 = p in cc);
                }
          | inr (arg, e) ↦
              rw (setval_at, t, e)
                record {
                  kept = convert-names (record opt { argidx = argidx; argval = some arg }) arg;
                  onward = onward;
                  near = λ p. omega (arith, near, h);
                  inside = λ p. get_elem?_lt argv _ arg e;
                }
        ]
  ]

  pub setval-Moved :
      (opt : OptSet Real) (argidx : ℕ) (argv : List (List ℕ))
      → Moved opt argidx (length argv) (setval strtod opt argidx argv)
  unfolding setval
  setval-Moved opt argidx argv = elim (Option-cases (get_elem? argv argidx)) [
    | inl e ↦
        rw (setval, e)
          record {
            kept = refl;
            onward = omega arith;
            near = λ p. p;
            inside = λ p. absurd (let q : err_optreq ≡ pos 0 = p in cc);
          }
    | inr (switch, e) ↦
        let m = setval_at-Moved opt argidx switch argv (get_elem?_lt argv argidx switch e) in
        rw (setval, e) record { kept = m.kept; onward = m.onward; near = m.near; inside = m.inside }
  ]

some_bound :
    (n : ℕ) (r : Option ℕ)
    → ((i : ℕ) → r ≡ some i → i < n)
    → (i : ℕ) → Option.map (λ j. j + 1) r ≡ some i
    → i < suc n
some_bound n none h i e = absurd (let q : none ≡ some i = e in cc)
some_bound n (some j) h i e = omega (arith, h j refl, some-injective _ _ e)

pub opt_get-Returns :
    {Real : Type 0} (optv : List (OptSet Real)) (name : List ℕ)
    → HasEnd optv
    → Returns (opt_get optv name) (λ r. (i : ℕ) → r ≡ some i → i < length optv)
unfolding opt_get
opt_get-Returns [] name h = absurd h
opt_get-Returns (opt ∷ optv) name (inl e) =
    rw (opt_get, e) (none, refl, λ i p. absurd (let q : none ≡ some i = p in cc))
opt_get-Returns (opt ∷ optv) name (inr h) = elim (Option-cases opt.names) [
  | inl e ↦ rw (opt_get, e) (none, refl, λ i p. absurd (let q : none ≡ some i = p in cc))
  | inr (p, e) ↦ elim (Bool-cases (has_alias p name)) [
    | inl found ↦ rw (opt_get, e, found) (some 0, refl, λ i q. omega (arith, some-injective _ _ q))
    | inr other ↦
        let (r, run, bound) = opt_get-Returns optv name h in
        rw (opt_get, e, other, run)
          (Option.map (λ j. j + 1) r, refl, some_bound (length optv) r bound)
  ]
]

pub HasEnd-set :
    {Real : Type 0} (optv : List (OptSet Real)) (i : ℕ) (opt opt' : OptSet Real)
    → HasEnd optv
    → get_elem? optv i ≡ some opt
    → opt'.names ≡ opt.names
    → HasEnd (set optv i opt')
HasEnd-set [] i opt opt' h e n = absurd h
HasEnd-set (o ∷ optv) zero opt opt' (inl h) e n =
    inl (n ∙ ap OptSet.names (sym (some-injective _ _ e)) ∙ h)
HasEnd-set (o ∷ optv) zero opt opt' (inr h) e n = inr h
HasEnd-set (o ∷ optv) (suc i) opt opt' (inl h) e n = inl h
HasEnd-set (o ∷ optv) (suc i) opt opt' (inr h) e n = inr (HasEnd-set optv i opt opt' h e n)
