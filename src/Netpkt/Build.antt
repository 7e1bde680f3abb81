-- ===== src/Netpkt/Build.antt =====
-- netpkt.c and netpkt_inline.c: packets that are made or changed in memory.
use bklib.Base.{
  ℕ, zero, suc, ◌+◌, ◌-◌, ◌*◌, ◌/◌, ◌%◌, ◌^◌, Bool, true, false, ◌&&◌, Option, none, some, List, [],
  ◌∷◌, Run, ok, fault, ◌>>=◌, deref, leb, ◌==◌, if◌then◌else◌, length,
}
use bklib.Base.Int.{pos, ◌+ℤ◌, sub_ℕ}
use bklib.Netpkt.{
  Netpkt, init, ether_size, ip_size, tcp_size, udp_size, ipproto_tcp, ipproto_udp, ethertype_ip,
}
use bklib.Netpkt.Memory.{load, load_16, store, store_16, store_net_16, fill, copy_in}
use bklib.Netpkt.Cksum.{sum_of, tcp_check, udp_check, cksum_ip, cksum_set, adjust_cksum}

-- `bit_set` of a field of `len` bits at `off`; the values that netpkt.c sets fit their fields.
abbrev pub bit_set : ℕ → ℕ → ℕ → ℕ → ℕ
bit_set x len off bits = x - x / 2 ^ off % 2 ^ len * 2 ^ off + bits * 2 ^ off

abbrev pub set_bits : List ℕ → ℕ → ℕ → ℕ → ℕ → Run (List ℕ)
set_bits m p len off bits = load m p >>= λ x. store m p (bit_set x len off bits)

-- A `u32` in memory, as four bytes.
abbrev pub load_bytes : ℕ → List ℕ → ℕ → Run (List ℕ)
load_bytes zero m p = ok []
load_bytes (suc n) m p = load m p >>= λ x. load_bytes n m (p + 1) >>= λ xs. ok (x ∷ xs)

-- `memcpy` and assignments inside the memory.
abbrev pub move : ℕ → List ℕ → ℕ → ℕ → Run (List ℕ)
move n m to from = load_bytes n m from >>= λ xs. copy_in xs m to

-- The version, the header length, the time to live and the protocol of a new IP header.
pub ip_header : List ℕ → ℕ → ℕ → ℕ → Run (List ℕ)
ip_header m ip len proto = set_bits m ip 4 4 4 >>= λ m. set_bits m ip 4 0 5 >>= λ m.
    store_net_16 m (ip + 2) (len % 65536) >>= λ m.
    store m (ip + 8) 255 >>= λ m. store m (ip + 9) proto

-- `netpkt_new_eth_tcp` with a length that is not negative; it always returns 0.
unfoldable pub new_eth_tcp : List ℕ → Netpkt → ℕ → Run (List ℕ × Netpkt)
unfolding ip_header
new_eth_tcp m pkt len =
    let start = pkt.msg in
    let ip = start + ether_size in
    let tcp = ip + ip_size in
    let msg = tcp + tcp_size in
    let pkt' = record pkt {
      eth = some start;
      ip = some ip;
      tcp = some tcp;
      msg = msg;
      len = pos len;
      rawlen = sub_ℕ (msg + len) pkt.raw;
    } in
    fill (ether_size + ip_size + tcp_size + len) m start 0 >>= λ m.
    store_net_16 m (start + 12) ethertype_ip >>= λ m.
    ip_header m ip (ip_size + tcp_size + len) ipproto_tcp >>= λ m.
    set_bits m (tcp + 12) 4 4 5 >>= λ m. ok (m, pkt')

-- `if( replyto )` in `netpkt_new_udp`: the addresses and ports of a packet in the same memory, turned
-- round, and the checksums.
pub turn_round : List ℕ → ℕ → ℕ → ℕ → Netpkt → Netpkt → Run (List ℕ)
unfolding cksum_set
turn_round m eth ip udp pkt replyto = deref replyto.eth >>= λ eth'. deref replyto.ip >>= λ ip'.
    deref replyto.udp >>= λ udp'. move 6 m (eth + 6) eth' >>= λ m. move 6 m eth (eth' + 6) >>= λ m.
    move 4 m (ip + 12) (ip' + 16) >>= λ m. move 4 m (ip + 16) (ip' + 12) >>= λ m.
    move 2 m udp (udp' + 2) >>= λ m. move 2 m (udp + 2) udp' >>= λ m. cksum_set m pkt

-- `netpkt_new_udp`, which always returns 0. `ip->id = 1` is not in network order.
unfoldable pub new_udp : List ℕ → ℕ → ℕ → List ℕ → Option Netpkt → Run (List ℕ × Netpkt)
unfolding init ip_header turn_round
new_udp m buf buflen text replyto =
    let ip = buf + ether_size in
    let udp = ip + ip_size in
    let msg = udp + udp_size in
    let pkt = record (init buf (pos buflen)) {
      eth = some buf;
      ip = some ip;
      udp = some udp;
      msg = msg;
      len = pos (length text);
      rawlen = pos (ether_size + ip_size + udp_size + length text);
    } in
    fill buflen m buf 0 >>= λ m. store_net_16 m (buf + 12) ethertype_ip >>= λ m.
    copy_in text m msg >>= λ m. store_16 m (ip + 4) 1 >>= λ m.
    ip_header m ip (ip_size + udp_size + length text) ipproto_udp >>= λ m.
    store_net_16 m (udp + 4) ((udp_size + length text) % 65536) >>= λ m. elim replyto [
      | none ↦ ok (m, pkt)
      | some old ↦ turn_round m buf ip udp pkt old >>= λ m. ok (m, pkt)
    ]

-- `netpkt_new_tcp_len` with a length that is not negative.
unfoldable pub new_tcp_len : List ℕ → Netpkt → ℕ → Run (List ℕ × Netpkt)
new_tcp_len m pkt len = deref pkt.ip >>= λ ip.
    store_net_16 m (ip + 2) ((pkt.msg + len - ip) % 65536) >>= λ m.
    ok (m, record pkt { len = pos len; rawlen = sub_ℕ (pkt.msg + len) pkt.raw })

-- `netpkt_new_tcp_flags`: the flags SYN, ACK, FIN, RST, URG and PUSH, each at its bit.
pub set_flags : List ℕ → List ℕ → ℕ → ℕ → Run (List ℕ)
set_flags [] m p flags = ok m
set_flags (bit ∷ bits) m p flags =
    set_bits m p 1 bit (flags / 2 ^ bit % 2) >>= λ m. set_flags bits m p flags

unfoldable pub new_tcp_flags : List ℕ → Netpkt → ℕ → Run (List ℕ)
unfolding set_flags
new_tcp_flags m pkt flags =
    deref pkt.tcp >>= λ tcp. set_flags (1 ∷ 4 ∷ 0 ∷ 2 ∷ 5 ∷ 3 ∷ []) m (tcp + 13) flags

-- `netpkt_add_hdr`: the new start of the packet; one before the memory is a fault.
unfoldable pub add_hdr : Netpkt → ℕ → Run (Netpkt × ℕ)
add_hdr pkt len =
    if leb len pkt.raw
    then ok (record pkt { raw = pkt.raw - len; rawlen = pkt.rawlen +ℤ pos len }, pkt.raw - len)
    else fault

-- `netpkt_ip_addr_src` and `netpkt_ip_addr_dst`: the bytes of an address.
unfoldable pub ip_addr_src : List ℕ → Netpkt → Run (List ℕ)
ip_addr_src m pkt = elim pkt.ip [
  | none ↦ ok (0 ∷ 0 ∷ 0 ∷ 0 ∷ [])
  | some ip ↦ load_bytes 4 m (ip + 12)
]

unfoldable pub ip_addr_dst : List ℕ → Netpkt → Run (List ℕ)
ip_addr_dst m pkt = elim pkt.ip [
  | none ↦ ok (0 ∷ 0 ∷ 0 ∷ 0 ∷ [])
  | some ip ↦ load_bytes 4 m (ip + 16)
]

-- The value of a `u32` in memory.
abbrev pub load_32 : List ℕ → ℕ → Run ℕ
load_32 m p = load_16 m p >>= λ a. load_16 m (p + 2) >>= λ b. ok (a + 65536 * b)

abbrev pub store_32 : List ℕ → ℕ → ℕ → Run (List ℕ)
store_32 m p v = store_16 m p (v % 65536) >>= λ m. store_16 m (p + 2) (v / 65536)

-- The update of the checksum at `check` in `netpkt_adjust_ip_src_dst`.
pub adjust_check : List ℕ → ℕ → ℕ → ℕ → ℕ → Bool → Run (List ℕ)
unfolding adjust_cksum
adjust_check m ip check src dst is_udp = load_16 m check >>= λ c₀.
    load_32 m (ip + 12) >>= λ old_src. adjust_cksum c₀ old_src src >>= λ c₁.
    load_32 m (ip + 16) >>= λ old_dst.
    adjust_cksum c₁ old_dst dst >>= λ c₂. store_16 m check (if c₂ == 0 && is_udp then 65535 else c₂)

abbrev pub is_some : Option ℕ → Bool
is_some none = false
is_some (some p) = true

abbrev pub check_place : Option ℕ → Option ℕ → Option ℕ
check_place (some tcp) udp = some (tcp_check tcp)
check_place none (some udp) = some (udp_check udp)
check_place none none = none

-- `netpkt_adjust_ip_src_dst`
unfoldable pub adjust_ip_src_dst : List ℕ → Netpkt → ℕ → ℕ → Run (List ℕ)
unfolding adjust_check cksum_ip
adjust_ip_src_dst m pkt src dst = deref pkt.ip >>= λ ip.
    (elim (check_place pkt.tcp pkt.udp) [
      | none ↦ ok m
      | some check ↦ adjust_check m ip check src dst (is_some pkt.udp)
    ])
    >>= λ m. store_32 m (ip + 12) src >>= λ m.
        store_32 m (ip + 16) dst >>= λ m. cksum_ip m pkt >>= λ r. store_16 r.0 (sum_of ip) r.1
