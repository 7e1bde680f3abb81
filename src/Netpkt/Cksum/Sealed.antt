-- ===== src/Netpkt/Cksum/Sealed.antt =====
-- `netpkt_cksum_check` accepts what `netpkt_cksum_set` wrote.
use bklib.Base.{
  ℕ, ◌+◌, ◌≤◌, ◌≡◌, refl, sym, ap, subst, ◌∙◌, true, none, some, List, ok, ◌>>=◌, >>=-eq-ok, arith,
  ◌⊎◌, inl, inr,
}
use bklib.Base.Int.{pos, negsuc}
use bklib.Netpkt.{Netpkt}
use bklib.Netpkt.Words.{AllBytes, AllBytes-set_16}
use bklib.Netpkt.Cksum.{
  sum_of, tcp_check, udp_check, cksum_zeroed, ip_sum, cksum_ip, segment_sum, cksum_tcp, cksum_udp,
  set_segment, set_parts, cksum_set, check_tcp, check_udp, check_parts, cksum_check,
}
use bklib.Netpkt.Cksum.Field.{Sealed, put_sum, put-Sealed, check-Sealed, Sealed-set_16}

-- TCP, UDP or neither, with the segment behind the checksum of the IP header.
abbrev pub SegmentBehind : Netpkt → ℕ → Type 0
SegmentBehind pkt ip =
    ((t : ℕ) × (pkt.tcp ≡ some t) × (pkt.udp ≡ none) × (ip + 12 ≤ t))
    ⊎ (((u : ℕ) × (pkt.tcp ≡ none) × (pkt.udp ≡ some u) × (ip + 12 ≤ u))
        ⊎ ((pkt.tcp ≡ none) × (pkt.udp ≡ none)))

module _ (pkt : Netpkt) (ip : ℕ) (has_ip : pkt.ip ≡ some ip) where
  pub cksum_ip_lem : (m : List ℕ) → cksum_ip m pkt ≡ cksum_zeroed m (sum_of ip) (ip_sum ip)
  unfolding cksum_ip
  cksum_ip_lem m = rw (cksum_ip, has_ip) refl

  -- All checksums stand.
  checked :
      (m : List ℕ)
      → AllBytes m
      → Sealed m (sum_of ip) (ip_sum ip)
      → check_tcp m pkt ≡ ok (m, pos 0)
      → check_udp m pkt ≡ ok (m, pos 0)
      → cksum_check m pkt ≡ ok (m, record pkt { cksum_ok = true }, pos 0)
  unfolding cksum_check check_parts
  checked m a s t u =
      ap (λ o. check_parts o m pkt) has_ip
      ∙ rw (cksum_ip_lem m, check-Sealed m (sum_of ip) (ip_sum ip) (negsuc 0) a s, t, u) refl

  tcp_checked :
      (m : List ℕ) (t : ℕ)
      → pkt.tcp ≡ some t
      → AllBytes m
      → Sealed m (tcp_check t) (segment_sum (some ip) t)
      → check_tcp m pkt ≡ ok (m, pos 0)
  unfolding check_tcp cksum_tcp
  tcp_checked m t e a s =
      rw (check_tcp, e, cksum_tcp, e, has_ip)
        (check-Sealed m (tcp_check t) (segment_sum (some ip) t) (negsuc 1) a s)

  udp_checked :
      (m : List ℕ) (u : ℕ)
      → pkt.udp ≡ some u
      → AllBytes m
      → Sealed m (udp_check u) (segment_sum (some ip) u)
      → check_udp m pkt ≡ ok (m, pos 0)
  unfolding check_udp cksum_udp
  udp_checked m u e a s =
      rw (check_udp, e, cksum_udp, e, has_ip)
        (check-Sealed m (udp_check u) (segment_sum (some ip) u) (negsuc 2) a s)

  no_tcp_checked : (m : List ℕ) → pkt.tcp ≡ none → check_tcp m pkt ≡ ok (m, pos 0)
  unfolding check_tcp
  no_tcp_checked m e = rw (check_tcp, e) refl

  no_udp_checked : (m : List ℕ) → pkt.udp ≡ none → check_udp m pkt ≡ ok (m, pos 0)
  unfolding check_udp
  no_udp_checked m e = rw (check_udp, e) refl

  -- The IP checksum over a memory that has the segment's.
  set_ip :
      (m m' : List ℕ)
      → cksum_set m pkt ≡ ok m'
      → (m₁ : List ℕ) × (set_segment pkt.tcp pkt.udp m pkt ≡ ok m₁)
        × ((cksum_zeroed m₁ (sum_of ip) (ip_sum ip) >>= put_sum (sum_of ip)) ≡ ok m')
  unfolding cksum_set set_parts
  set_ip m m' e =
      let (m₁, seg, e₁) =
        >>=-eq-ok (set_segment pkt.tcp pkt.udp m pkt)
          (λ m₀. cksum_ip m₀ pkt >>= put_sum (sum_of ip)) (with_ip ∙ e) in
      (m₁, seg, ap (◌>>= put_sum (sum_of ip)) (sym (cksum_ip_lem m₁)) ∙ e₁)
    where
      with_ip :
          (set_segment pkt.tcp pkt.udp m pkt >>= λ m₀. cksum_ip m₀ pkt >>= put_sum (sum_of ip))
          ≡ cksum_set m pkt
      with_ip = sym (ap (λ o. set_parts o m pkt) has_ip)

  -- A segment whose checksum was written, and then that of the IP header.
  both_checked :
      (m m₁ m' : List ℕ) (segment check : ℕ)
      → AllBytes m
      → ip + 12 ≤ segment
      → ip + 12 ≤ check
      → (cksum_zeroed m check (segment_sum (some ip) segment) >>= put_sum check) ≡ ok m₁
      → (cksum_zeroed m₁ (sum_of ip) (ip_sum ip) >>= put_sum (sum_of ip)) ≡ ok m'
      → AllBytes m'
        × Sealed m' (sum_of ip) (ip_sum ip)
        × Sealed m' check (segment_sum (some ip) segment)
  both_checked m m₁ m' segment check a h k seg e =
      let (s, (c, set_c)) = put-Sealed m m₁ check (segment_sum (some ip) segment) a seg in
      let a₁ : AllBytes m₁ = subst AllBytes (sym set_c) (AllBytes-set_16 m check c a) in
      let (s', (c', set_c')) = put-Sealed m₁ m' (sum_of ip) (ip_sum ip) a₁ e in
      let a₂ : AllBytes m' = subst AllBytes (sym set_c') (AllBytes-set_16 m₁ (sum_of ip) c' a₁) in
      (
        a₂,
        s',
        subst (λ l. Sealed l check (segment_sum (some ip) segment)) (sym set_c')
            (Sealed-set_16 m₁ ip segment check c' h k s),
      )

  set_tcp :
      (m m₁ : List ℕ) (t : ℕ)
      → pkt.tcp ≡ some t
      → set_segment pkt.tcp pkt.udp m pkt ≡ ok m₁
      → (cksum_zeroed m (tcp_check t) (segment_sum (some ip) t) >>= put_sum (tcp_check t)) ≡ ok m₁
  unfolding set_segment cksum_tcp
  set_tcp m m₁ t e q =
      ap (◌>>= put_sum (tcp_check t)) (sym computed)
      ∙ sym (ap (λ o. set_segment o pkt.udp m pkt) e)
      ∙ q
    where
      computed : cksum_tcp m pkt ≡ cksum_zeroed m (tcp_check t) (segment_sum (some ip) t)
      computed = rw (cksum_tcp, e, has_ip) refl

  set_udp :
      (m m₁ : List ℕ) (u : ℕ)
      → pkt.tcp ≡ none
      → pkt.udp ≡ some u
      → set_segment pkt.tcp pkt.udp m pkt ≡ ok m₁
      → (cksum_zeroed m (udp_check u) (segment_sum (some ip) u) >>= put_sum (udp_check u)) ≡ ok m₁
  unfolding set_segment cksum_udp
  set_udp m m₁ u n e q =
      ap (◌>>= put_sum (udp_check u)) (sym computed)
      ∙ sym (ap (λ o. set_segment o pkt.udp m pkt) n ∙ ap (λ o. set_segment none o m pkt) e)
      ∙ q
    where
      computed : cksum_udp m pkt ≡ cksum_zeroed m (udp_check u) (segment_sum (some ip) u)
      computed = rw (cksum_udp, e, has_ip) refl

  set_none :
      (m m₁ : List ℕ)
      → pkt.tcp ≡ none
      → pkt.udp ≡ none
      → set_segment pkt.tcp pkt.udp m pkt ≡ ok m₁
      → m ≡ m₁
  unfolding set_segment
  set_none m m₁ n n' q =
      ok-injective
        (sym (ap (λ o. set_segment o pkt.udp m pkt) n ∙ ap (λ o. set_segment none o m pkt) n') ∙ q)
    where
      ok-injective : ok m ≡ ok m₁ → m ≡ m₁
      ok-injective o = cc

  -- On memory of bytes, for a packet with an IP header and perhaps a TCP or UDP segment that
  -- begins 12 bytes behind the IP header or later: when `netpkt_cksum_set` has written its
  -- checksums, `netpkt_cksum_check` returns 0, leaves the memory as it is, and marks the checksum
  -- as good.
  pub cksum_check-cksum_set :
      (m m' : List ℕ)
      → AllBytes m
      → SegmentBehind pkt ip
      → cksum_set m pkt ≡ ok m'
      → cksum_check m' pkt ≡ ok (m', record pkt { cksum_ok = true }, pos 0)
  cksum_check-cksum_set m m' a (inl (t, is_tcp, no_udp, behind)) e =
      let (m₁, seg, e₁) = set_ip m m' e in
      let (a', s, s') =
        both_checked m m₁ m' t (tcp_check t) a behind (omega (arith, behind))
          (set_tcp m m₁ t is_tcp seg) e₁ in
      checked m' a' s (tcp_checked m' t is_tcp a' s') (no_udp_checked m' no_udp)
  cksum_check-cksum_set m m' a (inr (inl (u, no_tcp, is_udp, behind))) e =
      let (m₁, seg, e₁) = set_ip m m' e in
      let (a', s, s') =
        both_checked m m₁ m' u (udp_check u) a behind (omega (arith, behind))
          (set_udp m m₁ u no_tcp is_udp seg) e₁ in
      checked m' a' s (no_tcp_checked m' no_tcp) (udp_checked m' u is_udp a' s')
  cksum_check-cksum_set m m' a (inr (inr (no_tcp, no_udp))) e =
      let (m₁, seg, e₁) = set_ip m m' e in
      let a₁ : AllBytes m₁ = subst AllBytes (set_none m m₁ no_tcp no_udp seg) a in
      let (s, (c, set_c)) = put-Sealed m₁ m' (sum_of ip) (ip_sum ip) a₁ e₁ in
      checked m' (subst AllBytes (sym set_c) (AllBytes-set_16 m₁ (sum_of ip) c a₁)) s
        (no_tcp_checked m' no_tcp) (no_udp_checked m' no_udp)
