-- ===== src/Netpkt/Cksum/Check.antt =====
-- What a checksum of a field that is zero meanwhile does, and what it does not read.
use bklib.Base.{
  ℕ, zero, suc, ◌+◌, ◌*◌, ◌≤◌, ◌<◌, ◌≡◌, ◌≢◌, refl, sym, ap, ◌∙◌, Option, none, some, List, Run, ok,
  >>=-eq-ok, arith, get_elem?, length,
}
use bklib.Netpkt.Memory.{load_16, store_16}
use bklib.Netpkt.Words.{
  set_16, AllBytes, load_16-room, store_16-room, store_16-ok, set_16-load_16, get_elem?-set_16,
  length-set_16,
}
use bklib.Netpkt.Cksum.{cksum_loop, cksum_in, cksum_in_final, sum_of, cksum_zeroed, segment_sum}

pub final-lt : (sum : ℕ) → cksum_in_final sum < 65536
unfolding cksum_in_final
final-lt sum = omega arith

-- A checksum leaves the memory as it was.
pub cksum_zeroed_run :
    (m : List ℕ) (check sum : ℕ) (sum_in : List ℕ → Run ℕ)
    → AllBytes m
    → check + 1 < length m
    → sum_in (set_16 m check 0) ≡ ok sum
    → cksum_zeroed m check sum_in ≡ ok (m, cksum_in_final sum)
unfolding cksum_zeroed
cksum_zeroed_run m check sum sum_in a h e =
    let (old, loaded) = load_16-room m check h in
    rw
      (
        cksum_zeroed,
        loaded,
        store_16-room m check 0 h,
        e,
        store_16-room (set_16 m check 0) check old (omega (arith, h, length-set_16 m check 0)),
        set_16-load_16 m check old 0 a loaded,
      )
      refl

pub cksum_zeroed-ok :
    (m : List ℕ) (check : ℕ) (sum_in : List ℕ → Run ℕ) (r : List ℕ × ℕ)
    → AllBytes m
    → cksum_zeroed m check sum_in ≡ ok r
    → (sum : ℕ) × (check + 1 < length m)
      × (sum_in (set_16 m check 0) ≡ ok sum)
      × (r ≡ (m, cksum_in_final sum))
unfolding cksum_zeroed
cksum_zeroed-ok m check sum_in r a e =
    let (old, loaded, e₁) = >>=-eq-ok (load_16 m check) _ e in
    let (m₀, stored, e₂) = >>=-eq-ok (store_16 m check 0) _ e₁ in
    let (zeroed, room) = store_16-ok m m₀ check 0 stored in
    let (sum, summed, e₃) = >>=-eq-ok (sum_in m₀) _ e₂ in
    let here : sum_in (set_16 m check 0) ≡ ok sum = ap sum_in (sym zeroed) ∙ summed in
    (sum, room, here, ok-injective (sym e ∙ cksum_zeroed_run m check sum sum_in a room here))
  where
    ok-injective : {x y : List ℕ × ℕ} → ok x ≡ ok y → x ≡ y
    ok-injective q = cc

cksum_loop-frame :
    (m m' : List ℕ) (p len sum : ℕ)
    → ((q : ℕ) → p ≤ q → get_elem? m' q ≡ get_elem? m q)
    → cksum_loop m' p len sum ≡ cksum_loop m p len sum
unfolding cksum_loop
cksum_loop-frame m m' p zero sum agree = refl
cksum_loop-frame m m' p (suc zero) sum agree = rw (cksum_loop, agree p (omega arith)) refl
cksum_loop-frame m m' p (suc (suc len)) sum agree =
    words (λ w. cksum_loop-frame m m' (p + 2) len (sum + w) (λ q h. agree q (omega (arith, h))))
      (get_elem? m p) (get_elem? m (p + 1)) refl refl
  where
    words :
        ((w : ℕ) → cksum_loop m' (p + 2) len (sum + w) ≡ cksum_loop m (p + 2) len (sum + w))
        → (a b : Option ℕ) → get_elem? m p ≡ a
        → get_elem? m (p + 1) ≡ b
        → cksum_loop m' p (suc (suc len)) sum ≡ cksum_loop m p (suc (suc len)) sum
    words next none b e f = rw (cksum_loop, load_16, agree p (omega arith), e) refl
    words next (some a) none e f =
        rw (cksum_loop, load_16, agree p (omega arith), agree (p + 1) (omega arith), e, f) refl
    words next (some a) (some b) e f =
        rw (cksum_loop, load_16, agree p (omega arith), agree (p + 1) (omega arith), e, f)
          (next (a + 256 * b))

cksum_in-frame :
    (m m' : List ℕ) (p len : ℕ)
    → ((q : ℕ) → p ≤ q → get_elem? m' q ≡ get_elem? m q)
    → cksum_in m' p len ≡ cksum_in m p len
unfolding cksum_in
cksum_in-frame m m' p len agree = cksum_loop-frame m m' p len 0 agree

-- The sum of a segment does not read the checksum of the IP header.
pub segment_sum-frame :
    (m : List ℕ) (ip segment v : ℕ)
    → ip + 12 ≤ segment
    → segment_sum (some ip) segment (set_16 m (sum_of ip) v) ≡ segment_sum (some ip) segment m
unfolding segment_sum
segment_sum-frame m ip segment v h = simp (
  beside (ip + 2) (λ e. absurd (omega (arith, e))) (λ e. absurd (omega (arith, e))),
  beside (ip + 2 + 1) (λ e. absurd (omega (arith, e))) (λ e. absurd (omega (arith, e))),
  beside ip (λ e. absurd (omega (arith, e))) (λ e. absurd (omega (arith, e))),
  beside (ip + 9) (λ e. absurd (omega (arith, e))) (λ e. absurd (omega (arith, e))),
  behind segment h,
  behind (ip + 12) (omega arith),
)
  where
    beside :
        (q : ℕ)
        → ip + 10 ≢ q
        → ip + 10 + 1 ≢ q
        → get_elem? (set_16 m (sum_of ip) v) q ≡ get_elem? m q
    beside q n n' = get_elem?-set_16 m (sum_of ip) v q n n'

    behind :
        (p : ℕ)
        → ip + 12 ≤ p
        → (len : ℕ) → cksum_in (set_16 m (sum_of ip) v) p len ≡ cksum_in m p len
    behind p k len = cksum_in-frame m (set_16 m (sum_of ip) v) p len (λ q l.
        beside q (λ e. absurd (omega (arith, k, l, e))) (λ e. absurd (omega (arith, k, l, e))))
