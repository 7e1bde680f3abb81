-- ===== src/Hash/Growth.antt =====
-- `hash_resize_next`: the next number of buckets.
use bklib.Base.{
  ℕ, zero, suc, ◌+◌, ◌-◌, ◌*◌, ◌%◌, ◌^◌, ◌≤◌, ◌<◌, ◌≡◌, refl, sym, ap, ◌∙◌, arith, leb, inl, inr,
  Bool-cases, leb→le, subst,
}
use bklib.Hash.{next_power, resize_next}
use native.Mathlib.Nat.{pow-suc}

-- A power of two with the next lower one at most `b`, unless it is 1.
record IsNext (b i k : ℕ) : Type 0 where
  power : i ≡ 2 ^ k
  above : b < i
  least : 0 < k → 2 ^ (k - 1) ≤ b

pow_two_pos : (r : ℕ) → 0 < 2 ^ r
pow_two_pos zero = omega arith
pow_two_pos (suc r) = omega (arith, pow_two_pos r, pow-suc 2 r)

pred_suc : (j : ℕ) → j ≡ suc j - 1
pred_suc j = omega arith

le_of_mul : (i p : ℕ) → 0 < p → i ≤ i * p
le_of_mul i p h = grind arith

-- `r` more doublings bring `i` to 2 ^ 30, which is above `b`.
next_power_lem :
    (fuel b i j r : ℕ)
    → b < 2 ^ 30
    → i ≡ 2 ^ j
    → i * 2 ^ r ≡ 2 ^ 30
    → r < fuel
    → (0 < j → 2 ^ (j - 1) ≤ b)
    → (k : ℕ) × IsNext b (next_power fuel b i) k × (next_power fuel b i ≤ 2 ^ 30)
unfolding next_power
next_power_lem zero b i j r h e l f p = absurd (omega arith)
next_power_lem (suc fuel) b i j r h e l f p = elim (Bool-cases (leb i b)) [
  | inr out ↦
      let small = le_of_mul i (2 ^ r) (pow_two_pos r) in
      let stop : next_power (suc fuel) b i ≡ i = ground (arith, small, l, pow_two_pos j) in
      (
        j,
        record {
          power = stop ∙ e;
          above = subst (λ n. b < n) (sym stop) (ground arith);
          least = p;
        },
        subst (λ n. n ≤ 2 ^ 30) (sym stop) (omega (arith, small)),
      )
  | inl go ↦ double r i j h e l f p (leb→le i b go) (next_power_lem fuel b (i * 2))
]
  where
    double :
        (r i j : ℕ)
        → b < 2 ^ 30
        → i ≡ 2 ^ j
        → i * 2 ^ r ≡ 2 ^ 30
        → r < suc fuel
        → (0 < j → 2 ^ (j - 1) ≤ b)
        → i ≤ b
        → ((j r : ℕ)
            → b < 2 ^ 30
            → i * 2 ≡ 2 ^ j
            → i * 2 * 2 ^ r ≡ 2 ^ 30
            → r < fuel
            → (0 < j → 2 ^ (j - 1) ≤ b)
            → (k : ℕ) × IsNext b (next_power fuel b (i * 2)) k
              × (next_power fuel b (i * 2) ≤ 2 ^ 30))
        → (k : ℕ) × IsNext b (next_power (suc fuel) b i) k × (next_power (suc fuel) b i ≤ 2 ^ 30)
    double zero i j h e l f p le rec = absurd (omega arith)
    double (suc r) i j h e l f p le rec =
        let l' : i * 2 * 2 ^ r ≡ 2 ^ 30 = omega (arith, ap (λ (z : ℕ). i * z) (pow-suc 2 r)) in
        let (k, n, top) =
          rec (suc j) r h (omega (arith, pow-suc 2 j)) l' (omega arith)
            (λ _. subst (λ n. 2 ^ n ≤ b) (pred_suc j) (omega arith)) in
        let word : i * 2 % 2 ^ 32 ≡ i * 2 = omega arith in
        let step : next_power (suc fuel) b i ≡ next_power fuel b (i * 2) =
          ground (arith, le, pow_two_pos j, ap (next_power fuel b) word) in
        (k, subst (λ z. IsNext b z k) (sym step) n, subst (λ z. z ≤ 2 ^ 30) (sym step) top)

-- Below 2 ^ 30 buckets, `hash_resize_next` ends and returns 2 ^ k + 1 for the least power of two
-- above the number of buckets.
pub resize_next_lem :
    (b : ℕ) → b < 2 ^ 30 → (k : ℕ) × (resize_next b ≡ 2 ^ k + 1) × (b < 2 ^ k) × (2 ^ k ≤ 2 * b + 1)
unfolding resize_next
resize_next_lem b h =
    let (k, n, _) =
      next_power_lem 33 b 1 0 30 h refl refl (omega arith) (λ z. absurd (omega arith)) in
    (
      k,
      ground (arith, n.power, pow_two_pos k),
      omega (arith, n.power, n.above),
      half k (omega (arith, n.power, n.above)) n.least,
    )
  where
    half : (k : ℕ) → b < 2 ^ k → (0 < k → 2 ^ (k - 1) ≤ b) → 2 ^ k ≤ 2 * b + 1
    half zero l f = omega arith
    half (suc k) l f =
        omega (arith, pow-suc 2 k, subst (λ n. 2 ^ n ≤ b) (sym (pred_suc k)) (f (omega arith)))
