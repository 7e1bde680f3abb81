-- ===== src/Netpkt/Options/Steps.antt =====
-- What `netpkt_ip_opt_next` passes, and what `netpkt_tcp_remove_sack` leaves.
use bklib.Base.{
  ℕ, ◌+◌, ◌≤◌, ◌<◌, ◌≡◌, refl, sym, ◌∙◌, true, false, not, ◌||◌, none, some, List, Run, ok, Returns,
  arith, get_elem?, get_elem?-some, length, leb, ltb, ◌==◌, Bool-cases, ◌⊎◌, inl, inr,
}
use mathlib.Core.Option.{some-injective}
use bklib.Base.Int.{ℤ, pos, is_zero}
use bklib.Netpkt.Options.{OptStep, to_char, end_of, opt_here, opt_with_data, ip_opt_next, is_sackok}

-- The same bytes before `q`.
abbrev pub SameBefore : List ℕ → List ℕ → ℕ → Type 0
SameBefore m m' q = (x : ℕ) → x < q → get_elem? m' x ≡ get_elem? m x

-- A call past a byte at least, inside options that end before `end`: it depends on the bytes before
-- `q` alone, and the data of the option stand before `q`.
pub record Passed (m : List ℕ) (p end : ℕ) (step : List ℕ → Run OptStep) (s : OptStep) (q : ℕ)
    : Type 0 where
  pub next : s.next ≡ some q
  pub onward : p < q
  pub within : q ≤ end
  pub local : (m' : List ℕ) → SameBefore m m' q → step m' ≡ ok s
  pub data_before : (at : ℕ) → s.data_at ≡ some at → (at ≡ p + 2) × (at + s.data_len ≡ q)
  pub has_data : is_sackok s.type ≡ true → s.data_at ≡ some (p + 2)

-- A call at `p`: the end of the options, or past a byte at least.
abbrev pub StepAt : List ℕ → ℕ → ℕ → (List ℕ → Run OptStep) → OptStep → Type 0
StepAt m p end step s =
    (is_zero s.type ≡ true) ⊎ ((is_zero s.type ≡ false) × ((q : ℕ) × Passed m p end step s q))

good_length :
    (b p end : ℕ)
    → not (ltb b 128) || (ltb b 2 || ltb end (p + b)) ≡ false
    → (2 ≤ b) × (p + b ≤ end)
good_length b p end h = ground arith

opt_with_data-Returns :
    (m : List ℕ) (end p : ℕ) (type : ℤ)
    → p + 1 < length m
    → is_zero type ≡ false
    → Returns (opt_with_data m end p type) (StepAt m p end (λ m'. opt_with_data m' end p type))
unfolding opt_with_data
opt_with_data-Returns m end p type h z =
    let (b, read) = get_elem?-some m (p + 1) h in
    elim (Bool-cases (not (ltb b 128) || (ltb b 2 || ltb end (p + b)))) [
      | inl bad ↦ rw (opt_with_data, read, bad) (_, refl, inl refl)
      | inr good ↦
          let (two, fits) = good_length b p end good in
          rw (opt_with_data, read, good)
            (
              _,
              refl,
              inr (
                z,
                (
                  p + b,
                  record {
                    next = refl;
                    onward = omega (arith, two);
                    within = fits;
                    local = λ m' same.
                        rw (opt_with_data, same (p + 1) (omega (arith, two)), read, good) refl;
                    data_before = λ at e.
                        (sym (some-injective _ _ e), omega (arith, two, some-injective _ _ e));
                    has_data = λ q. refl;
                  },
                ),
              ),
            )
    ]

leb-false-lt : (a b : ℕ) → leb a b ≡ false → b < a
leb-false-lt a b h = ground arith

to_char_zero : (b : ℕ) → (b == 0) ≡ false → is_zero (to_char b) ≡ false
to_char_zero b h = ground arith

opt_here-Returns :
    (m : List ℕ) (end p : ℕ)
    → p + 1 < length m
    → p < end
    → Returns (opt_here m end p) (StepAt m p end (λ m'. opt_here m' end p))
unfolding opt_here
opt_here-Returns m end p h k =
    let (b, read) = get_elem?-some m p (omega (arith, h)) in
    elim (Bool-cases (b == 0)) [
      | inl z ↦ rw (opt_here, read, z) (_, refl, inl refl)
      | inr z ↦ elim (Bool-cases (b == 1)) [
        | inl o ↦
            rw (opt_here, read, z, o)
              (
                _,
                refl,
                inr (
                  refl,
                  (
                    p + 1,
                    record {
                      next = refl;
                      onward = omega arith;
                      within = omega (arith, k);
                      local = λ m' same. rw (opt_here, same p (omega arith), read, z, o) refl;
                      data_before = λ at e. absurd (let q : none ≡ some at = e in cc);
                      has_data = λ q. absurd (let f : false ≡ true = q in cc);
                    },
                  ),
                ),
              )
        | inr o ↦
            let (s, run, at) = opt_with_data-Returns m end p (to_char b) h (to_char_zero b z) in
            rw (opt_here, read, z, o, run) (s, refl, lift b read z o s at)
      ]
    ]
  where
    lift :
        (b : ℕ)
        → get_elem? m p ≡ some b
        → (b == 0) ≡ false
        → (b == 1) ≡ false
        → (s : OptStep) → StepAt m p end (λ m'. opt_with_data m' end p (to_char b)) s
        → StepAt m p end (λ m'. opt_here m' end p) s
    lift b read z o s (inl e) = inl e
    lift b read z o s (inr (nz, (q, t))) = inr (
      nz,
      (
        q,
        record {
          next = t.next;
          onward = t.onward;
          within = t.within;
          local = λ m' same. rw (opt_here, same p t.onward, read, z, o) (t.local m' same);
          data_before = t.data_before;
          has_data = t.has_data;
        },
      ),
    )

-- The options of a header, in memory with a byte behind them.
module _ (start n : ℕ) where
  abbrev pub end : ℕ
  end = end_of start (pos n)

  abbrev pub opt_at : ℕ → List ℕ → Run OptStep
  opt_at p m = ip_opt_next m (some start) (pos n) (some p)

  -- With a byte behind the options in memory, `netpkt_ip_opt_next` returns at any place: at the end,
  -- or with an option that it passes.
  pub ip_opt_next-Returns :
      (m : List ℕ) (p : ℕ) → end < length m → Returns (opt_at p m) (StepAt m p end (opt_at p))
  unfolding ip_opt_next
  ip_opt_next-Returns m p h = elim (Bool-cases (leb end p)) [
    | inl past ↦ rw (ip_opt_next, past) (_, refl, inl refl)
    | inr inside ↦
        let below = leb-false-lt end p inside in
        let (s, run, at) = opt_here-Returns m end p (omega (arith, h, below)) below in
        (s, same m inside ∙ run, lift inside s at)
  ]
    where
      same : (m' : List ℕ) → leb end p ≡ false → opt_at p m' ≡ opt_here m' end p
      same m' inside = rw (ip_opt_next, inside) refl

      lift :
          leb end p ≡ false
          → (s : OptStep) → StepAt m p end (λ m'. opt_here m' end p) s
          → StepAt m p end (opt_at p) s
      lift inside s (inl e) = inl e
      lift inside s (inr (nz, (q, t))) = inr (
        nz,
        (
          q,
          record {
            next = t.next;
            onward = t.onward;
            within = t.within;
            local = λ m' before. same m' inside ∙ t.local m' before;
            data_before = t.data_before;
            has_data = t.has_data;
          },
        ),
      )
