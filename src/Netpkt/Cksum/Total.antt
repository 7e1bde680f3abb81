-- ===== src/Netpkt/Cksum/Total.antt =====
-- `netpkt_cksum_set` returns where the headers and the segment lie in memory.
use bklib.Base.{
  ℕ, zero, suc, ◌+◌, ◌-◌, ◌%◌, ◌≤◌, ◌<◌, ◌≡◌, refl, ap, ◌∙◌, true, none, some, List, Run, ok, ◌>>=◌,
  Returns, arith, get_elem?, get_elem?-some, length, inl, inr,
}
use bklib.Base.Int.{pos}
use bklib.Netpkt.{Netpkt, ip_hdrlen}
use bklib.Netpkt.Memory.{load_net_16, swap_16}
use bklib.Netpkt.Words.{
  set_16, AllBytes, AllBytes-set_16, load_16-room, store_16-room, get_elem?-set_16, length-set_16,
}
use bklib.Netpkt.Cksum.{
  cksum_loop, cksum_in, cksum_in_final, sum_of, cksum_zeroed, ip_sum, segment_sum, cksum_ip,
  cksum_tcp, cksum_udp, set_segment, set_parts, cksum_set, tcp_check, udp_check, cksum_check,
}
use bklib.Netpkt.Cksum.Check.{cksum_zeroed_run}
use bklib.Netpkt.Cksum.Field.{put_sum}
use bklib.Netpkt.Cksum.Sealed.{SegmentBehind, cksum_ip_lem, cksum_check-cksum_set}

cksum_loop-Returns :
    (m : List ℕ) (p len sum : ℕ)
    → p + len ≤ length m
    → Returns (cksum_loop m p len sum) (λ _. Unit {0})
unfolding cksum_loop
cksum_loop-Returns m p zero sum h = (sum, refl, _)
cksum_loop-Returns m p (suc zero) sum h =
    let (b, e) = get_elem?-some m p (omega (arith, h)) in (sum + b, rw (cksum_loop, e) refl, _)
cksum_loop-Returns m p (suc (suc len)) sum h =
    let (w, e) = load_16-room m p (omega (arith, h)) in
    let (v, run, _) = cksum_loop-Returns m (p + 2) len (sum + w) (omega (arith, h)) in
    (v, rw (cksum_loop, e) run, _)

cksum_in-Returns :
    (m : List ℕ) (p len : ℕ) → p + len ≤ length m → Returns (cksum_in m p len) (λ _. Unit {0})
unfolding cksum_in
cksum_in-Returns m p len h = cksum_loop-Returns m p len 0 h

-- An IP header in memory, with the lengths that it states.
pub record HeaderAt (m : List ℕ) (ip hdrlen iplen : ℕ) : Type 0 where
  pub reads_hdrlen : ip_hdrlen m ip ≡ ok hdrlen
  pub reads_iplen : load_net_16 m (ip + 2) ≡ ok iplen
  pub inside : ip + 20 ≤ length m
  pub inside_opts : ip + hdrlen ≤ length m

-- A write behind the lengths.
HeaderAt-set_16 :
    (m : List ℕ) (ip hdrlen iplen q v : ℕ)
    → ip + 4 ≤ q
    → HeaderAt m ip hdrlen iplen
    → HeaderAt (set_16 m q v) ip hdrlen iplen
HeaderAt-set_16 m ip hdrlen iplen q v h a = record {
  reads_hdrlen = rw (same ip (omega arith)) a.reads_hdrlen;
  reads_iplen = rw (same (ip + 2) (omega arith), same (ip + 2 + 1) (omega arith)) a.reads_iplen;
  inside = omega (arith, a.inside, length-set_16 m q v);
  inside_opts = omega (arith, a.inside_opts, length-set_16 m q v);
}
  where
    same : (p : ℕ) → p < ip + 4 → get_elem? (set_16 m q v) p ≡ get_elem? m p
    same p l =
        get_elem?-set_16 m q v p (λ e. absurd (omega (arith, e, l, h)))
          (λ e. absurd (omega (arith, e, l, h)))

module _ (ip hdrlen iplen : ℕ) where
  ip_sum-Returns : (m : List ℕ) → HeaderAt m ip hdrlen iplen → Returns (ip_sum ip m) (λ _. Unit {0})
  unfolding ip_sum
  ip_sum-Returns m a =
      let (v, run, _) = cksum_in-Returns m ip hdrlen a.inside_opts in
      (v, rw (ip_sum, a.reads_hdrlen) run, _)

  segment_sum-Returns :
      (m : List ℕ) (segment : ℕ)
      → HeaderAt m ip hdrlen iplen
      → segment + (iplen - hdrlen) ≤ length m
      → Returns (segment_sum (some ip) segment m) (λ _. Unit {0})
  unfolding segment_sum
  segment_sum-Returns m segment a h =
      let (body, run, _) = cksum_in-Returns m segment (iplen - hdrlen) h in
      let (addrs, run', _) = cksum_in-Returns m (ip + 12) 8 (omega (arith, a.inside)) in
      let (p, e) = get_elem?-some m (ip + 9) (omega (arith, a.inside)) in
      (
        body + addrs + swap_16 p + swap_16 ((65536 + iplen - hdrlen) % 65536),
        rw (segment_sum, a.reads_iplen, a.reads_hdrlen, run, run', e) refl,
        _,
      )

-- A checksum whose sum is computed is written.
put_run :
    (m : List ℕ) (check sum : ℕ) (sum_in : List ℕ → Run ℕ)
    → AllBytes m
    → check + 1 < length m
    → sum_in (set_16 m check 0) ≡ ok sum
    → (cksum_zeroed m check sum_in >>= put_sum check) ≡ ok (set_16 m check (cksum_in_final sum))
put_run m check sum sum_in a h e =
    rw (cksum_zeroed_run m check sum sum_in a h e) (store_16-room m check (cksum_in_final sum) h)

module _ (pkt : Netpkt) (ip hdrlen iplen : ℕ) (has_ip : pkt.ip ≡ some ip) where
  -- A segment in memory with its checksum, at a place `check`.
  abbrev pub SegmentIn : List ℕ → ℕ → ℕ → Type 0
  SegmentIn m segment check = (check + 1 < length m) × (segment + (iplen - hdrlen) ≤ length m)

  -- The segment is written, and the header stays.
  pub record Segmented (m₁ : List ℕ) : Type 0 where
    pub header : HeaderAt m₁ ip hdrlen iplen
    pub bytes : AllBytes m₁

  segment_run :
      (m : List ℕ) (segment check : ℕ)
      → AllBytes m
      → HeaderAt m ip hdrlen iplen
      → ip + 12 ≤ check
      → SegmentIn m segment check
      → Returns (cksum_zeroed m check (segment_sum pkt.ip segment) >>= put_sum check) Segmented
  segment_run m segment check a at h (room, inside) =
      let header = HeaderAt-set_16 m ip hdrlen iplen check 0 (omega (arith, h)) at in
      let (sum, run, _) =
        segment_sum-Returns ip hdrlen iplen (set_16 m check 0) segment header
          (omega (arith, inside, length-set_16 m check 0)) in
      let c = cksum_in_final sum in
      (
        set_16 m check c,
        put_run m check sum (segment_sum pkt.ip segment) a room
            (ap (λ o. segment_sum o segment (set_16 m check 0)) has_ip ∙ run),
        record {
          header = HeaderAt-set_16 m ip hdrlen iplen check c (omega (arith, h)) at;
          bytes = AllBytes-set_16 m check c a;
        },
      )

  tcp_lem :
      (m : List ℕ) (t : ℕ)
      → pkt.tcp ≡ some t
      → cksum_tcp m pkt ≡ cksum_zeroed m (tcp_check t) (segment_sum pkt.ip t)
  unfolding cksum_tcp
  tcp_lem m t e = rw (cksum_tcp, e) refl

  udp_lem :
      (m : List ℕ) (u : ℕ)
      → pkt.udp ≡ some u
      → cksum_udp m pkt ≡ cksum_zeroed m (udp_check u) (segment_sum pkt.ip u)
  unfolding cksum_udp
  udp_lem m u e = rw (cksum_udp, e) refl

  set_segment-Returns :
      (m : List ℕ)
      → AllBytes m
      → HeaderAt m ip hdrlen iplen
      → SegmentBehind pkt ip
      → ((t : ℕ) → pkt.tcp ≡ some t → SegmentIn m t (tcp_check t))
      → ((u : ℕ) → pkt.udp ≡ some u → SegmentIn m u (udp_check u))
      → Returns (set_segment pkt.tcp pkt.udp m pkt) Segmented
  unfolding set_segment
  set_segment-Returns m a at (inl (t, is_tcp, _, h)) tcp_in udp_in =
      let (m₁, run, seg) =
        segment_run m t (tcp_check t) a at (omega (arith, h)) (tcp_in t is_tcp) in
      (
        m₁,
        ap (λ o. set_segment o pkt.udp m pkt) is_tcp
            ∙ ap (λ r. r >>= put_sum (tcp_check t)) (tcp_lem m t is_tcp)
            ∙ run,
        seg,
      )
  set_segment-Returns m a at (inr (inl (u, no_tcp, is_udp, h))) tcp_in udp_in =
      let (m₁, run, seg) =
        segment_run m u (udp_check u) a at (omega (arith, h)) (udp_in u is_udp) in
      (
        m₁,
        ap (λ o. set_segment o pkt.udp m pkt) no_tcp
            ∙ ap (λ o. set_segment none o m pkt) is_udp
            ∙ ap (λ r. r >>= put_sum (udp_check u)) (udp_lem m u is_udp)
            ∙ run,
        seg,
      )
  set_segment-Returns m a at (inr (inr (no_tcp, no_udp))) tcp_in udp_in = (
    m,
    ap (λ o. set_segment o pkt.udp m pkt) no_tcp ∙ ap (λ o. set_segment none o m pkt) no_udp,
    record { header = at; bytes = a },
  )

  -- On memory of bytes that holds the IP header, its options, and the TCP or UDP segment, if there
  -- is one, with its checksum, where the segment begins 12 bytes behind the IP header or later:
  -- `netpkt_cksum_set` returns, and on what it leaves `netpkt_cksum_check` returns 0, changes no
  -- byte, and marks the checksum as good.
  pub cksum_set-Returns :
      (m : List ℕ)
      → AllBytes m
      → HeaderAt m ip hdrlen iplen
      → SegmentBehind pkt ip
      → ((t : ℕ) → pkt.tcp ≡ some t → SegmentIn m t (tcp_check t))
      → ((u : ℕ) → pkt.udp ≡ some u → SegmentIn m u (udp_check u))
      → Returns
          (cksum_set m pkt)
          (λ m'. cksum_check m' pkt ≡ ok (m', record pkt { cksum_ok = true }, pos 0))
  unfolding cksum_set set_parts
  cksum_set-Returns m a at behind tcp_in udp_in =
      let (m₁, run, seg) = set_segment-Returns m a at behind tcp_in udp_in in
      let zeroed = HeaderAt-set_16 m₁ ip hdrlen iplen (sum_of ip) 0 (omega arith) seg.header in
      let (sum, summed, _) = ip_sum-Returns ip hdrlen iplen (set_16 m₁ (sum_of ip) 0) zeroed in
      let put =
        put_run m₁ (sum_of ip) sum (ip_sum ip) seg.bytes (omega (arith, seg.header.inside))
          summed in
      let whole : cksum_set m pkt ≡ ok (set_16 m₁ (sum_of ip) (cksum_in_final sum)) =
        ap (λ o. set_parts o m pkt) has_ip
        ∙ ap (λ r. r >>= λ m'. cksum_ip m' pkt >>= put_sum (sum_of ip)) run
        ∙ ap (λ r. r >>= put_sum (sum_of ip)) (cksum_ip_lem pkt ip has_ip m₁)
        ∙ put in
      (_, whole, cksum_check-cksum_set pkt ip has_ip m _ a behind whole)
