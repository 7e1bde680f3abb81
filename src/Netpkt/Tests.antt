-- ===== src/Netpkt/Tests.antt =====
-- The theorems on packets at a TCP packet with a SACKOK option, and runs of the operations.
use bklib.Base.{
  ℕ, ◌+◌, ◌-◌, ◌%◌, ◌^◌, ◌≡◌, ◌<◌, refl, true, some, List, [], ◌∷◌, ok, Returns, arith, length, inl,
}
use bklib.Base.Int.{pos, negsuc, ◌-ℤ◌}
use bklib.Netpkt
use bklib.Netpkt.{init, parse_ip, ipproto_tcp, ipproto_udp, ipproto_icmp}
use bklib.Netpkt.Parse.{EndsAt, parse_ip_lem}
use bklib.Netpkt.Seq.{tcp_seq_diff, tcp_seq_diff_wrap}
use bklib.Netpkt.Adjust.{low, high, adjust_cksum-cksum_in_final}
use bklib.Netpkt.Words.{AllBytes}
use bklib.Netpkt.Memory.{load_16, store_16}
use bklib.Netpkt.Cksum.{
  cksum_in_final, cksum_in, cksum_zeroed, ip_sum, segment_sum, cksum_ip, cksum_tcp, cksum_set,
  set_parts, set_segment, cksum_check, adjust_cksum, tcp_check,
}
use bklib.Netpkt.Cksum.Total.{SegmentIn, cksum_set-Returns}
use mathlib.Core.Option.{some-injective}
use bklib.Netpkt.Options.{tcp_remove_sack}
use bklib.Netpkt.Options.Steps.{SameBefore}
use bklib.Netpkt.Options.Sack.{Clean, tcp_remove_sack-Clean}

-- An IP header, a TCP header with SYN and the options SACKOK, no-op, no-op; a byte behind.
abbrev packet : List ℕ
packet =
    69 ∷ 0 ∷ 0 ∷ 44 ∷ 0 ∷ 0 ∷ 0 ∷ 0 ∷ 64 ∷ 6 ∷ 0 ∷ 0 ∷ 10 ∷ 0 ∷ 0 ∷ 1 ∷ 10 ∷ 0 ∷ 0 ∷ 2 ∷ 0 ∷ 1 ∷ 0
    ∷ 2 ∷ 0 ∷ 0 ∷ 0 ∷ 5 ∷ 0 ∷ 0 ∷ 0 ∷ 0 ∷ 96 ∷ 2 ∷ 0 ∷ 8 ∷ 0 ∷ 0 ∷ 0 ∷ 0 ∷ 4 ∷ 2 ∷ 1 ∷ 1 ∷ 7 ∷ []

abbrev parsed : Netpkt.Netpkt
parsed = record (init 0 (pos 44)) {
  ip = some 0;
  tcp = some 20;
  msg = 44;
  len = pos 0;
  tcp_opt = some 40;
  tcp_opt_len = pos 4;
}

parse_ip_run : parse_ip packet (init 0 (pos 44)) ≡ ok parsed
unfolding parse_ip init ◌-ℤ◌
parse_ip_run = refl

parse_ip_lem_example :
    EndsAt (0 + 44) parsed
    × (parsed.ip ≡ some 0)
    × (6 ≡ ipproto_tcp → parsed.tcp ≡ some 20)
    × (6 ≡ ipproto_udp → parsed.udp ≡ some 20)
    × (6 ≡ ipproto_icmp → parsed.icmp ≡ some 20)
unfolding parse_ip init ◌-ℤ◌
parse_ip_lem_example = parse_ip_lem packet (init 0 (pos 44)) parsed 20 44 6 refl refl refl refl

-- The packet with its checksums.
abbrev sealed : List ℕ
sealed =
    69 ∷ 0 ∷ 0 ∷ 44 ∷ 0 ∷ 0 ∷ 0 ∷ 0 ∷ 64 ∷ 6 ∷ 102 ∷ 202 ∷ 10 ∷ 0 ∷ 0 ∷ 1 ∷ 10 ∷ 0 ∷ 0 ∷ 2 ∷ 0 ∷ 1
    ∷ 0 ∷ 2 ∷ 0 ∷ 0 ∷ 0 ∷ 5 ∷ 0 ∷ 0 ∷ 0 ∷ 0 ∷ 96 ∷ 2 ∷ 0 ∷ 8 ∷ 134 ∷ 201 ∷ 0 ∷ 0 ∷ 4 ∷ 2 ∷ 1 ∷ 1 ∷ 7
    ∷ []

cksum_set_run : cksum_set packet parsed ≡ ok sealed
unfolding cksum_set set_parts set_segment cksum_ip cksum_tcp cksum_zeroed ip_sum segment_sum
    cksum_in load_16 store_16 cksum_in_final init
cksum_set_run = refl

packet-AllBytes : AllBytes packet
packet-AllBytes = ground arith

cksum_set-Returns_example :
    Returns
      (cksum_set packet parsed)
      (λ m'. cksum_check m' parsed ≡ ok (m', record parsed { cksum_ok = true }, pos 0))
unfolding init
cksum_set-Returns_example =
    cksum_set-Returns parsed 0 20 44 refl packet packet-AllBytes
      record {
        reads_hdrlen = refl;
        reads_iplen = refl;
        inside = omega arith;
        inside_opts = omega arith;
      }
      (inl (20, refl, refl, omega arith)) (λ t e. tcp_in t (some-injective _ _ e)) (λ u e. cc)
  where
    tcp_in : (t : ℕ) → 20 ≡ t → SegmentIn parsed 0 20 44 refl packet t (tcp_check t)
    tcp_in t e = (omega (arith, e), omega (arith, e))

adjust_cksum-cksum_in_final_example :
    Returns
      (adjust_cksum (cksum_in_final (1000 + low 167772161 + high 167772161)) 167772161 167772162)
      (λ sum.
        (sum < 65536)
        × ((65535 - sum) % 65535
            ≡ (65535 - cksum_in_final (1000 + low 167772162 + high 167772162)) % 65535))
adjust_cksum-cksum_in_final_example =
    adjust_cksum-cksum_in_final 1000 167772161 167772162 (omega arith) (omega arith) (omega arith)

tcp_seq_diff_wrap_example :
    (tcp_seq_diff ((4294967295 + 3) % 2 ^ 32) 4294967295 ≡ pos 3)
    × (tcp_seq_diff 4294967295 ((4294967295 + 3 + 1) % 2 ^ 32) ≡ negsuc 3)
tcp_seq_diff_wrap_example = tcp_seq_diff_wrap 4294967295 3 (omega arith) (omega arith)

tcp_remove_sack-Clean_example :
    Returns
      (tcp_remove_sack packet parsed)
      (λ r. Clean 40 4 r.0 40 × SameBefore packet r.0 40 × (length r.0 ≡ 45))
unfolding init
tcp_remove_sack-Clean_example =
    tcp_remove_sack-Clean 40 4 parsed refl refl packet 20 2 refl refl refl (omega arith)
