-- ===== src/Netpkt/Adjust.antt =====
-- The incremental update of a checksum is the checksum of the changed data.
use bklib.Base.{ℕ, ◌+◌, ◌-◌, ◌*◌, ◌/◌, ◌%◌, ◌^◌, ◌<◌, ◌≡◌, refl, sym, ap, ◌∙◌, ok, Returns, arith}
use bklib.Netpkt.Cksum.{cksum_in_final, adjust_cksum}

-- The two halves of a `u32`.
abbrev pub low : ℕ → ℕ
low x = x % 65536

abbrev pub high : ℕ → ℕ
high x = x / 65536

-- What `netpkt_adjust_cksum` computes.
abbrev twice_folded : ℕ → ℕ
twice_folded sum = (sum % 65536 + sum / 65536) % 65536 + (sum % 65536 + sum / 65536) / 65536

low_bytes : (x : ℕ) → x % 256 + 256 * (x / 256 % 256) ≡ low x
low_bytes x = omega arith

high_bytes : (x : ℕ) → x < 2 ^ 32 → x / 65536 % 256 + 256 * (x / 16777216 % 256) ≡ high x
high_bytes x h = omega (arith, h)

not_low : (x : ℕ) → x < 2 ^ 32 → low (2 ^ 32 - 1 - x) ≡ 65535 - low x
not_low x h = omega (arith, h)

not_high : (x : ℕ) → x < 2 ^ 32 → high (2 ^ 32 - 1 - x) ≡ 65535 - high x
not_high x h = omega (arith, h)

adjust_run :
    (oldsum old new : ℕ)
    → oldsum < 65536
    → old < 2 ^ 32
    → new < 2 ^ 32
    → adjust_cksum oldsum old new
      ≡ ok (
          65535
          - twice_folded
              (65535 - oldsum + (65535 - low old + (65535 - high old) + low new + high new))
            % 65536)
unfolding adjust_cksum
adjust_run oldsum old new h k l =
    ap (λ d. ok (65535 - twice_folded (65535 - oldsum + d) % 65536)) sum
  where
    bound : 2 ^ 32 - 1 - old < 2 ^ 32
    bound = omega arith

    sum :
        0
          + ((2 ^ 32 - 1 - old) % 256 + 256 * ((2 ^ 32 - 1 - old) / 256 % 256))
          + ((2 ^ 32 - 1 - old) / 65536 % 256 + 256 * ((2 ^ 32 - 1 - old) / 16777216 % 256))
          + (new % 256 + 256 * (new / 256 % 256))
          + (new / 65536 % 256 + 256 * (new / 16777216 % 256))
        ≡ 65535 - low old + (65535 - high old) + low new + high new
    sum =
        rw
          (
            low_bytes (2 ^ 32 - 1 - old),
            high_bytes (2 ^ 32 - 1 - old) bound,
            low_bytes new,
            high_bytes new l,
            not_low old k,
            not_high old k,
          )
          (omega arith)

fold_mod : (sum : ℕ) → sum < 2 ^ 20 → (twice_folded sum % 65536) % 65535 ≡ sum % 65535
fold_mod sum h = omega (arith, h)

final_mod : (sum : ℕ) → sum < 2 ^ 31 → (65535 - cksum_in_final sum) % 65535 ≡ sum % 65535
unfolding cksum_in_final
final_mod sum h = omega (arith, h)

final_lt : (sum : ℕ) → cksum_in_final sum < 65536
unfolding cksum_in_final
final_lt sum = omega arith

-- The congruence of the update.
update_mod :
    (rest lo hi lo' hi' oldsum sum : ℕ)
    → lo < 65536
    → hi < 65536
    → oldsum < 65536
    → (65535 - oldsum) % 65535 ≡ (rest + lo + hi) % 65535
    → sum ≡ 65535 - oldsum + (65535 - lo + (65535 - hi) + lo' + hi')
    → sum % 65535 ≡ (rest + lo' + hi') % 65535
update_mod rest lo hi lo' hi' oldsum sum a b c e s = omega (arith, a, b, c, e, s)

-- For a sum of 16-bit words of which one address is a part, below 2 ^ 31: `netpkt_adjust_cksum` of
-- its checksum, from the old address to the new one, is a word of 16 bits and the checksum of the
-- sum with the new address, where both forms of zero count as one.
pub adjust_cksum-cksum_in_final :
    (rest old new : ℕ)
    → rest + 65535 + 65535 < 2 ^ 31
    → old < 2 ^ 32
    → new < 2 ^ 32
    → Returns (adjust_cksum (cksum_in_final (rest + low old + high old)) old new) (λ sum.
      (sum < 65536)
      × ((65535 - sum) % 65535 ≡ (65535 - cksum_in_final (rest + low new + high new)) % 65535))
adjust_cksum-cksum_in_final rest old new h k l = (
  65535 - w,
  adjust_run oldsum old new (final_lt (rest + low old + high old)) k l,
  (
    omega arith,
    back
        ∙ fold_mod sum bound
        ∙ congruent
        ∙ sym (final_mod (rest + low new + high new) (omega (arith, h, l))),
  ),
)
  where
    oldsum : ℕ
    oldsum = cksum_in_final (rest + low old + high old)

    sum : ℕ
    sum = 65535 - oldsum + (65535 - low old + (65535 - high old) + low new + high new)

    w : ℕ
    w = twice_folded sum % 65536

    bound : sum < 2 ^ 20
    bound = omega (arith, k, l)

    back : (65535 - (65535 - w)) % 65535 ≡ w % 65535
    back = ap (λ n. n % 65535) (omega arith)

    congruent : sum % 65535 ≡ (rest + low new + high new) % 65535
    congruent =
        update_mod rest (low old) (high old) (low new) (high new) oldsum sum (omega arith)
          (omega (arith, k)) (final_lt (rest + low old + high old))
          (final_mod (rest + low old + high old) (omega (arith, h, k))) refl
