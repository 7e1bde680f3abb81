-- ===== src/Netpkt/Parse.antt =====
-- What `netpkt_parse_ip` leaves: the unparsed part of a packet, after its headers.
use bklib.Base.{
  ℕ, ◌+◌, ◌≡◌, refl, sym, ap, subst, ◌∙◌, some, List, ok, ◌>>=◌, >>=-eq-ok, arith, ◌==◌,
  if◌then◌else◌, Bool-cases, inl, inr,
}
use bklib.Base.Int.{ℤ, pos, negsuc, ◌-ℤ◌, sub_ℕ, pos_part, neg_part, ltb_ℤ}
use bklib.Netpkt.{
  Netpkt, tcp_size, udp_size, icmp_size, ipproto_tcp, ipproto_udp, ipproto_icmp, ip_hdrlen,
  tcp_hdrlen, pass, parse_tcp, parse_proto, ip_part, parse_ip,
}
use bklib.Netpkt.Memory.{load, load_net_16}

ok-injective : {x y : Netpkt} → ok x ≡ ok y → x ≡ y
ok-injective q = cc

-- The unparsed part of `q` ends at `stop`.
abbrev pub EndsAt : ℕ → Netpkt → Type 0
EndsAt stop q = q.msg + pos_part q.len ≡ stop + neg_part q.len

shift :
    (msg hdrlen stop : ℕ) (len : ℤ)
    → msg + pos_part len ≡ stop + neg_part len
    → msg + hdrlen + pos_part (len -ℤ pos hdrlen) ≡ stop + neg_part (len -ℤ pos hdrlen)
unfolding ◌-ℤ◌
shift msg hdrlen stop (pos n) e = ground (arith, e)
shift msg hdrlen stop (negsuc n) e = ground (arith, e)

sub_ℕ_ends :
    (ip hdrlen iplen : ℕ)
    → ip + hdrlen + pos_part (sub_ℕ iplen hdrlen) ≡ ip + iplen + neg_part (sub_ℕ iplen hdrlen)
sub_ℕ_ends ip hdrlen iplen = ground arith

-- What the header of a protocol leaves.
record Parsed (m : List ℕ) (p stop : ℕ) (pkt q : Netpkt) : Type 0 where
  pub ends : EndsAt stop q
  pub same_ip : q.ip ≡ pkt.ip
  pub at_tcp : p ≡ ipproto_tcp → q.tcp ≡ some pkt.msg
  pub at_udp : p ≡ ipproto_udp → q.udp ≡ some pkt.msg
  pub at_icmp : p ≡ ipproto_icmp → q.icmp ≡ some pkt.msg

parse_tcp_lem :
    (m : List ℕ) (stop : ℕ) (pkt q : Netpkt)
    → EndsAt stop pkt
    → parse_tcp m pkt ≡ ok q
    → EndsAt stop q × (q.ip ≡ pkt.ip) × (q.tcp ≡ some pkt.msg)
unfolding parse_tcp
parse_tcp_lem m stop pkt q e run =
    let (hdrlen, read, made) = >>=-eq-ok (tcp_hdrlen m pkt.msg) _ run in
    let same : record (pass pkt hdrlen) {
      tcp = some pkt.msg;
      tcp_opt_len = sub_ℕ hdrlen tcp_size;
      tcp_opt =
          if ltb_ℤ (pos 0) (sub_ℕ hdrlen tcp_size) then some (pkt.msg + tcp_size) else pkt.tcp_opt;
    }
        ≡ q =
      ok-injective made in
    (
      subst (EndsAt stop) same (shift pkt.msg hdrlen stop pkt.len e),
      sym (ap Netpkt.ip same),
      sym (ap Netpkt.tcp same),
    )

parse_proto_lem :
    (m : List ℕ) (p stop : ℕ) (pkt q : Netpkt)
    → EndsAt stop pkt
    → parse_proto m p pkt ≡ ok q
    → Parsed m p stop pkt q
unfolding parse_proto
parse_proto_lem m p stop pkt q e run = elim (Bool-cases (p == ipproto_tcp)) [
  | inl t ↦
      let (ends, same_ip, at_tcp) =
        parse_tcp_lem m stop pkt q e (sym (rw (parse_proto, t) refl) ∙ run) in
      record {
        ends = ends;
        same_ip = same_ip;
        at_tcp = λ h. at_tcp;
        at_udp = λ h. absurd (ground (arith, t, h));
        at_icmp = λ h. absurd (ground (arith, t, h));
      }
  | inr t ↦ elim (Bool-cases (p == ipproto_udp)) [
    | inl u ↦
        let same : udp_pkt ≡ q = ok-injective (sym (rw (parse_proto, t, u) refl) ∙ run) in
        record {
          ends = subst (EndsAt stop) same (shift pkt.msg udp_size stop pkt.len e);
          same_ip = sym (ap Netpkt.ip same);
          at_tcp = λ h. absurd (ground (arith, t, h));
          at_udp = λ h. sym (ap Netpkt.udp same);
          at_icmp = λ h. absurd (ground (arith, u, h));
        }
    | inr u ↦ elim (Bool-cases (p == ipproto_icmp)) [
      | inl i ↦
          let same : icmp_pkt ≡ q = ok-injective (sym (rw (parse_proto, t, u, i) refl) ∙ run) in
          record {
            ends = subst (EndsAt stop) same (shift pkt.msg icmp_size stop pkt.len e);
            same_ip = sym (ap Netpkt.ip same);
            at_tcp = λ h. absurd (ground (arith, t, h));
            at_udp = λ h. absurd (ground (arith, u, h));
            at_icmp = λ h. sym (ap Netpkt.icmp same);
          }
      | inr i ↦
          let same : pkt ≡ q = ok-injective (sym (rw (parse_proto, t, u, i) refl) ∙ run) in
          record {
            ends = subst (EndsAt stop) same e;
            same_ip = sym (ap Netpkt.ip same);
            at_tcp = λ h. absurd (ground (arith, t, h));
            at_udp = λ h. absurd (ground (arith, u, h));
            at_icmp = λ h. absurd (ground (arith, i, h));
          }
    ]
  ]
]
  where
    udp_pkt : Netpkt
    udp_pkt = record (pass pkt udp_size) { udp = some pkt.msg }

    icmp_pkt : Netpkt
    icmp_pkt = record (pass pkt icmp_size) { icmp = some pkt.msg }

-- If `netpkt_parse_ip` returns and reads a header length, a total length and a protocol, then what
-- is left to parse ends the total length behind the IP header, which is where the packet was, and
-- the TCP, UDP or ICMP header, as the protocol says, lies the header length behind it.
pub parse_ip_lem :
    (m : List ℕ) (pkt q : Netpkt) (hdrlen iplen p : ℕ)
    → ip_hdrlen m pkt.msg ≡ ok hdrlen
    → load_net_16 m (pkt.msg + 2) ≡ ok iplen
    → load m (pkt.msg + 9) ≡ ok p
    → parse_ip m pkt ≡ ok q
    → EndsAt (pkt.msg + iplen) q
      × (q.ip ≡ some pkt.msg)
      × (p ≡ ipproto_tcp → q.tcp ≡ some (pkt.msg + hdrlen))
      × (p ≡ ipproto_udp → q.udp ≡ some (pkt.msg + hdrlen))
      × (p ≡ ipproto_icmp → q.icmp ≡ some (pkt.msg + hdrlen))
unfolding parse_ip
parse_ip_lem m pkt q hdrlen iplen p h l r run =
    let parsed =
      parse_proto_lem m p (pkt.msg + iplen) (ip_part pkt hdrlen iplen) q
        (sub_ℕ_ends pkt.msg hdrlen iplen) (sym read ∙ run) in
    (parsed.ends, parsed.same_ip, parsed.at_tcp, parsed.at_udp, parsed.at_icmp)
  where
    read : parse_ip m pkt ≡ parse_proto m p (ip_part pkt hdrlen iplen)
    read =
        ap
          (◌>>= λ h. load_net_16 m (pkt.msg + 2) >>= λ l.
            load m (pkt.msg + 9) >>= λ p. parse_proto m p (ip_part pkt h l))
          h
        ∙ ap (◌>>= λ l. load m (pkt.msg + 9) >>= λ p. parse_proto m p (ip_part pkt hdrlen l)) l
        ∙ ap (◌>>= λ p. parse_proto m p (ip_part pkt hdrlen iplen)) r
