-- ===== src/Netpkt/Cksum.antt =====
-- netpkt.c and netpkt_inline.c: the checksums of IP, TCP and UDP.
pub mod Check
pub mod Sealed
pub mod Field
pub mod Total
use bklib.Base.{
  ℕ, zero, suc, ◌+◌, ◌-◌, ◌*◌, ◌/◌, ◌%◌, ◌^◌, Bool, true, false, not, Option, none, some, List, [],
  ◌∷◌, ◌++◌, Run, ok, fault, ◌>>=◌, deref, leb, ltb, ◌==◌, if◌then◌else◌,
}
use bklib.Base.Int.{ℤ, pos, negsuc, is_zero}
use bklib.Netpkt.{Netpkt, ip_hdrlen}
use bklib.Netpkt.Memory.{load, load_16, load_net_16, store, store_16, swap_16, bytes_32, copy_in}

-- The loop of `netpkt_cksum_in`. A byte left over is the low half of a word, for `ntohs` swaps what
-- the shift by 8 made.
unfoldable pub cksum_loop : List ℕ → ℕ → ℕ → ℕ → Run ℕ
unfolding load_16
cksum_loop m p zero sum = ok sum
cksum_loop m p (suc zero) sum = load m p >>= λ b. ok (sum + b)
cksum_loop m p (suc (suc len)) sum = load_16 m p >>= λ w. cksum_loop m (p + 2) len (sum + w)

-- `netpkt_cksum_in`
unfoldable pub cksum_in : List ℕ → ℕ → ℕ → Run ℕ
unfolding cksum_loop
cksum_in m p len = cksum_loop m p len 0

-- `netpkt_cksum_in_final`
unfoldable pub cksum_in_final : ℕ → ℕ
cksum_in_final sum =
    let folded = sum / 65536 + sum % 65536 in 65535 - (folded + folded / 65536) % 65536

-- The places of the checksums in their headers.
abbrev pub sum_of : ℕ → ℕ
sum_of ip = ip + 10

abbrev pub tcp_check : ℕ → ℕ
tcp_check tcp = tcp + 16

abbrev pub udp_check : ℕ → ℕ
udp_check udp = udp + 6

-- A checksum over a sum, with its field zero meanwhile: the memory as it was, and the checksum.
unfoldable pub cksum_zeroed : List ℕ → ℕ → (List ℕ → Run ℕ) → Run (List ℕ × ℕ)
unfolding cksum_in_final load_16 store_16
cksum_zeroed m check sum_in = load_16 m check >>= λ oldsum. store_16 m check 0 >>= λ m'.
    sum_in m' >>= λ sum. store_16 m' check oldsum >>= λ m''. ok (m'', cksum_in_final sum)

-- `netpkt_cksum_ip`
unfoldable pub ip_sum : ℕ → List ℕ → Run ℕ
unfolding cksum_in
ip_sum ip m = ip_hdrlen m ip >>= λ hdrlen. cksum_in m ip hdrlen

unfoldable pub cksum_ip : List ℕ → Netpkt → Run (List ℕ × ℕ)
cksum_ip m pkt = elim pkt.ip [ none ↦ ok (m, 0) | some ip ↦ cksum_zeroed m (sum_of ip) (ip_sum ip) ]

-- The sum of a segment of `ntohs(ip->len)` bytes less the IP header, and of the pseudo header. A
-- negative length sums nothing, and its low 16 bits are the length in the pseudo header.
unfoldable pub segment_sum : Option ℕ → ℕ → List ℕ → Run ℕ
unfolding cksum_in
segment_sum pkt_ip segment m = deref pkt_ip >>= λ ip. load_net_16 m (ip + 2) >>= λ iplen.
    ip_hdrlen m ip >>= λ hdrlen. cksum_in m segment (iplen - hdrlen) >>= λ body.
    cksum_in m (ip + 12) 8 >>= λ addrs. load m (ip + 9) >>= λ p.
    ok (body + addrs + swap_16 p + swap_16 ((65536 + iplen - hdrlen) % 65536))

unfoldable pub cksum_tcp : List ℕ → Netpkt → Run (List ℕ × ℕ)
cksum_tcp m pkt = elim pkt.tcp [
  | none ↦ ok (m, 0)
  | some tcp ↦ cksum_zeroed m (tcp_check tcp) (segment_sum pkt.ip tcp)
]

unfoldable pub cksum_udp : List ℕ → Netpkt → Run (List ℕ × ℕ)
cksum_udp m pkt = elim pkt.udp [
  | none ↦ ok (m, 0)
  | some udp ↦ cksum_zeroed m (udp_check udp) (segment_sum pkt.ip udp)
]

-- The checksum of a segment, computed and written.
unfoldable pub set_segment : Option ℕ → Option ℕ → List ℕ → Netpkt → Run (List ℕ)
set_segment (some tcp) udp m pkt = cksum_tcp m pkt >>= λ r. store_16 r.0 (tcp_check tcp) r.1
set_segment none (some udp) m pkt = cksum_udp m pkt >>= λ r. store_16 r.0 (udp_check udp) r.1
set_segment none none m pkt = ok m

unfoldable pub set_parts : Option ℕ → List ℕ → Netpkt → Run (List ℕ)
set_parts none m pkt = ok m
set_parts (some ip) m pkt = set_segment pkt.tcp pkt.udp m pkt >>= λ m'.
    cksum_ip m' pkt >>= λ r. store_16 r.0 (sum_of ip) r.1

-- `netpkt_cksum_set`
unfoldable pub cksum_set : List ℕ → Netpkt → Run (List ℕ)
cksum_set m pkt = set_parts pkt.ip m pkt

-- The checksum at `check` against the one that is computed: 0, or the error code.
unfoldable pub check_field : Run (List ℕ × ℕ) → ℕ → ℤ → Run (List ℕ × ℤ)
check_field computed check code =
    computed >>= λ r. load_16 r.0 check >>= λ old. ok (r.0, if old == r.1 then pos 0 else code)

unfoldable pub check_tcp : List ℕ → Netpkt → Run (List ℕ × ℤ)
check_tcp m pkt = elim pkt.tcp [
  | none ↦ ok (m, pos 0)
  | some tcp ↦ check_field (cksum_tcp m pkt) (tcp_check tcp) (negsuc 1)
]

unfoldable pub check_udp : List ℕ → Netpkt → Run (List ℕ × ℤ)
check_udp m pkt = elim pkt.udp [
  | none ↦ ok (m, pos 0)
  | some udp ↦ check_field (cksum_udp m pkt) (udp_check udp) (negsuc 2)
]

unfoldable pub check_parts : Option ℕ → List ℕ → Netpkt → Run (List ℕ × Netpkt × ℤ)
check_parts none m pkt = ok (m, record pkt { cksum_ok = true }, pos 0)
check_parts (some ip) m pkt = check_field (cksum_ip m pkt) (sum_of ip) (negsuc 0) >>= λ r.
    let after_ip = check_tcp r.0 pkt >>= λ t.
    let after_tcp = check_udp t.0 pkt >>= λ u.
    ok (u.0, if is_zero u.1 then record pkt { cksum_ok = true } else pkt, u.1) in
    if is_zero t.1 then after_tcp else ok (t.0, pkt, t.1) in
    if is_zero r.1 then after_ip else ok (r.0, pkt, r.1)

-- `netpkt_cksum_check`: the memory, the packet, and the result.
unfoldable pub cksum_check : List ℕ → Netpkt → Run (List ℕ × Netpkt × ℤ)
cksum_check m pkt = check_parts pkt.ip m pkt

-- `netpkt_adjust_cksum`
unfoldable pub adjust_cksum : ℕ → ℕ → ℕ → Run ℕ
unfolding cksum_in
adjust_cksum oldsum old new = cksum_in (bytes_32 (2 ^ 32 - 1 - old) ++ bytes_32 new) 0 8 >>= λ diff.
    let sum = 65535 - oldsum + diff in
    let folded = sum % 65536 + sum / 65536 in
    let twice = folded % 65536 + folded / 65536 in ok (65535 - twice % 65536)
