-- ===== src/Netpkt/Cksum/Field.antt =====
-- A checksum in its field: written, accepted, and kept while that of the IP header is written.
use bklib.Base.{
  ℕ, ◌+◌, ◌≤◌, ◌<◌, ◌≡◌, refl, ap, subst, ◌∙◌, some, List, Run, ok, ◌>>=◌, >>=-eq-ok, arith, length,
  ==_refl,
}
use bklib.Base.Int.{ℤ, pos}
use bklib.Netpkt.Memory.{load_16, store_16}
use bklib.Netpkt.Words.{
  set_16, AllBytes, store_16-ok, load_16-set_16, load_16-set_16_ne, set_16-set_16, set_16-set_16_ne,
  length-set_16,
}
use bklib.Netpkt.Cksum.{cksum_in_final, sum_of, cksum_zeroed, segment_sum, check_field}
use bklib.Netpkt.Cksum.Check.{final-lt, cksum_zeroed_run, cksum_zeroed-ok, segment_sum-frame}

-- The checksum at `check` is that of the rest.
pub record Sealed (m : List ℕ) (check : ℕ) (sum_in : List ℕ → Run ℕ) : Type 0 where
  pub sum : ℕ
  pub room : check + 1 < length m
  pub summed : sum_in (set_16 m check 0) ≡ ok sum
  pub written : load_16 m check ≡ ok (cksum_in_final sum)

-- The write of a checksum that was computed.
abbrev pub put_sum : ℕ → List ℕ × ℕ → Run (List ℕ)
put_sum check r = store_16 r.0 check r.1

-- A checksum that is computed and written.
pub put-Sealed :
    (m m' : List ℕ) (check : ℕ) (sum_in : List ℕ → Run ℕ)
    → AllBytes m
    → (cksum_zeroed m check sum_in >>= put_sum check) ≡ ok m'
    → Sealed m' check sum_in × ((c : ℕ) × (m' ≡ set_16 m check c))
put-Sealed m m' check sum_in a e =
    let (r, computed, stored) = >>=-eq-ok (cksum_zeroed m check sum_in) _ e in
    let (sum, room, summed, both) = cksum_zeroed-ok m check sum_in r a computed in
    let (set_it, room') =
      store_16-ok m m' check (cksum_in_final sum)
        (subst (λ q. store_16 q.0 check q.1 ≡ ok m') both stored) in
    let c = cksum_in_final sum in
    (
      record {
        sum = sum;
        room = omega (arith, room, length-set_16 m check c, ap length set_it);
        summed =
            ap (λ l. sum_in (set_16 l check 0)) set_it
            ∙ ap sum_in (set_16-set_16 m check c 0)
            ∙ summed;
        written = ap (λ l. load_16 l check) set_it ∙ load_16-set_16 m check c room (final-lt sum);
      },
      (c, set_it),
    )

pub check-Sealed :
    (m : List ℕ) (check : ℕ) (sum_in : List ℕ → Run ℕ) (code : ℤ)
    → AllBytes m
    → Sealed m check sum_in
    → check_field (cksum_zeroed m check sum_in) check code ≡ ok (m, pos 0)
unfolding check_field
check-Sealed m check sum_in code a s =
    rw
      (
        check_field,
        cksum_zeroed_run m check s.sum sum_in a s.room s.summed,
        s.written,
        ==_refl (cksum_in_final s.sum),
      )
      refl

-- The checksum of a segment still stands after that of the IP header before it was written.
pub Sealed-set_16 :
    (m : List ℕ) (ip segment check v : ℕ)
    → ip + 12 ≤ segment
    → ip + 12 ≤ check
    → Sealed m check (segment_sum (some ip) segment)
    → Sealed (set_16 m (sum_of ip) v) check (segment_sum (some ip) segment)
Sealed-set_16 m ip segment check v h k s = record {
  sum = s.sum;
  room = omega (arith, s.room, length-set_16 m (sum_of ip) v);
  summed =
      ap (segment_sum (some ip) segment)
        (set_16-set_16_ne m (sum_of ip) check v 0 (omega (arith, k)))
      ∙ segment_sum-frame (set_16 m check 0) ip segment v h
      ∙ s.summed;
  written = load_16-set_16_ne m (sum_of ip) v check (omega (arith, k)) ∙ s.written;
}
