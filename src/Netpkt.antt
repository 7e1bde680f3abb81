-- ===== src/Netpkt.antt =====
-- netpkt.c, netpkt.h and netpkt_inet.h: the parts of a packet in memory.
mod Tests
pub mod Memory
pub mod Words
pub mod Parse
pub mod Cksum
pub mod Options
pub mod Build
pub mod Adjust
pub mod Seq
use bklib.Base.{
  ℕ, zero, suc, ◌+◌, ◌-◌, ◌*◌, ◌/◌, ◌%◌, Bool, true, false, Option, none, some, List, [], ◌∷◌, Run,
  ok, fault, ◌>>=◌, ltb, ◌==◌, if◌then◌else◌,
}
use bklib.Base.Int.{ℤ, pos, negsuc, ◌-ℤ◌, sub_ℕ, ltb_ℤ}
use bklib.Netpkt.Memory.{load, load_16, load_net_16}

-- `struct netpkt`, less the fields that netpkt.c only sets to 0: pkt_flags, pkt_min, put_max and
-- pkt_tcp_seq_diff.
pub record Netpkt : Type 0 where
  pub raw : ℕ
  pub rawlen : ℤ
  pub msg : ℕ
  pub len : ℤ
  pub max : ℤ
  pub cksum_ok : Bool
  pub eth : Option ℕ
  pub arp : Option ℕ
  pub ip : Option ℕ
  pub tcp : Option ℕ
  pub udp : Option ℕ
  pub icmp : Option ℕ
  pub ip_opt : Option ℕ
  pub ip_opt_len : ℤ
  pub tcp_opt : Option ℕ
  pub tcp_opt_len : ℤ

-- `netpkt_init_max`
unfoldable pub init_max : ℕ → ℤ → ℤ → Netpkt
init_max buf len max = record {
  raw = buf;
  rawlen = len;
  msg = buf;
  len = len;
  max = max;
  cksum_ok = false;
  eth = none;
  arp = none;
  ip = none;
  tcp = none;
  udp = none;
  icmp = none;
  ip_opt = none;
  ip_opt_len = pos 0;
  tcp_opt = none;
  tcp_opt_len = pos 0;
}

-- `netpkt_init`
unfoldable pub init : ℕ → ℤ → Netpkt
unfolding init_max
init buf len = init_max buf len len

-- The sizes of the headers, and their protocols.
abbrev pub ether_size : ℕ
ether_size = 14

abbrev pub arp_size : ℕ
arp_size = 28

abbrev pub ip_size : ℕ
ip_size = 20

abbrev pub tcp_size : ℕ
tcp_size = 20

abbrev pub udp_size : ℕ
udp_size = 8

abbrev pub icmp_size : ℕ
icmp_size = 8

abbrev pub ipproto_icmp : ℕ
ipproto_icmp = 1

abbrev pub ipproto_tcp : ℕ
ipproto_tcp = 6

abbrev pub ipproto_udp : ℕ
ipproto_udp = 17

abbrev pub ethertype_ip : ℕ
ethertype_ip = 2048

abbrev pub ethertype_arp : ℕ
ethertype_arp = 2054

abbrev pub ethertype_trail : ℕ
ethertype_trail = 4096

-- `ip_hl`, in bytes: the low four bits of the first byte.
abbrev pub ip_hdrlen : List ℕ → ℕ → Run ℕ
ip_hdrlen m ip = load m ip >>= λ vh. ok (vh % 16 * 4)

-- `tcp_doff`, in bytes: the high four bits of `doffres`.
abbrev pub tcp_hdrlen : List ℕ → ℕ → Run ℕ
tcp_hdrlen m tcp = load m (tcp + 12) >>= λ d. ok (d / 16 % 16 * 4)

-- A header of `hdrlen` bytes is passed.
abbrev pub pass : Netpkt → ℕ → Netpkt
pass pkt hdrlen = record pkt { msg = pkt.msg + hdrlen; len = pkt.len -ℤ pos hdrlen }

-- `case IPPROTO_TCP`
unfoldable pub parse_tcp : List ℕ → Netpkt → Run Netpkt
parse_tcp m pkt = tcp_hdrlen m pkt.msg >>= λ hdrlen.
    let optlen = sub_ℕ hdrlen tcp_size in
    ok record (pass pkt hdrlen) {
      tcp = some pkt.msg;
      tcp_opt_len = optlen;
      tcp_opt = if ltb_ℤ (pos 0) optlen then some (pkt.msg + tcp_size) else pkt.tcp_opt;
    }

-- `switch( netpkt->pkt_ip->p )`
unfoldable pub parse_proto : List ℕ → ℕ → Netpkt → Run Netpkt
unfolding parse_tcp
parse_proto m p pkt =
    if p == ipproto_tcp
    then parse_tcp m pkt
    else if p == ipproto_udp
    then ok record (pass pkt udp_size) { udp = some pkt.msg }
    else if p == ipproto_icmp
    then ok record (pass pkt icmp_size) { icmp = some pkt.msg }
    else ok pkt

-- The packet behind an IP header.
abbrev pub ip_part : Netpkt → ℕ → ℕ → Netpkt
ip_part pkt hdrlen iplen = record pkt {
  ip = some pkt.msg;
  msg = pkt.msg + hdrlen;
  len = sub_ℕ iplen hdrlen;
  ip_opt_len = sub_ℕ hdrlen ip_size;
  ip_opt = if ltb_ℤ (pos 0) (sub_ℕ hdrlen ip_size) then some (pkt.msg + ip_size) else pkt.ip_opt;
}

-- `netpkt_parse_ip`, which always returns 0.
unfoldable pub parse_ip : List ℕ → Netpkt → Run Netpkt
unfolding parse_proto
parse_ip m pkt = ip_hdrlen m pkt.msg >>= λ hdrlen. load_net_16 m (pkt.msg + 2) >>= λ iplen.
    load m (pkt.msg + 9) >>= λ p. parse_proto m p (ip_part pkt hdrlen iplen)

-- `netpkt_parse_arp`, which always returns 0.
unfoldable pub parse_arp : Netpkt → Netpkt
parse_arp pkt = record pkt {
  arp = some pkt.msg;
  msg = pkt.msg + arp_size;
  len = pkt.rawlen -ℤ sub_ℕ (pkt.msg + arp_size) pkt.raw;
}

-- `netpkt_parse_ether`: the packet, and whether it returns 0.
unfoldable pub parse_ether : List ℕ → Netpkt → Run (Netpkt × Bool)
unfolding parse_ip parse_arp
parse_ether m pkt = load_net_16 m (pkt.msg + 12) >>= λ ether_type.
    let skip = if ltb ethertype_trail ether_type then (ether_type - ethertype_trail) * 512 else 0 in
    let pkt' = record pkt { eth = some pkt.msg; msg = pkt.msg + ether_size + skip } in
    if ether_type == ethertype_ip
    then (parse_ip m pkt' >>= λ q. ok (q, true))
    else if ether_type == ethertype_arp
    then ok (parse_arp pkt', true)
    else ok (pkt', false)
