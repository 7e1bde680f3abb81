-- ===== src/Netpkt/Options/Sack.antt =====
-- What `netpkt_tcp_remove_sack` leaves: options without SACKOK.
use bklib.Base.{
  ℕ, zero, suc, ◌+◌, ◌-◌, ◌%◌, ◌≤◌, ◌<◌, ◌≡◌, refl, sym, ap, subst, ◌∙◌, Bool, true, false, none,
  some, List, ok, Returns, arith, get_elem?, get_elem?-set_self, set, length, length-set, ltb,
  lt→ltb, lt→leb_false, ◌==◌, Bool-cases, inl, inr,
}
use bklib.Base.Int.{pos, pos_part, is_zero}
use bklib.Netpkt.{Netpkt}
use bklib.Netpkt.Memory.{load, fill}
use bklib.Netpkt.Words.{get_elem?-set_other}
use bklib.Netpkt.Seq.{syn_of}
use bklib.Netpkt.Options.{
  OptStep, opt_here, ip_opt_next, tcp_opt_enum, is_sackok, sack_loop, remove_from, tcp_remove_sack,
}
use bklib.Netpkt.Options.Steps.{SameBefore, end, opt_at, ip_opt_next-Returns}

record Filled (m : List ℕ) (n p v : ℕ) (m' : List ℕ) : Type 0 where
  pub size : length m' ≡ length m
  pub before : SameBefore m m' p
  pub filled : (x : ℕ) → p ≤ x → x < p + n → get_elem? m' x ≡ some (v % 256)

fill-Returns :
    (n : ℕ) (m : List ℕ) (p v : ℕ) → p + n ≤ length m → Returns (fill n m p v) (Filled m n p v)
fill-Returns zero m p v h = (
  m,
  refl,
  record { size = refl; before = λ x l. refl; filled = λ x l k. absurd (omega (arith, l, k)) },
)
fill-Returns (suc n) m p v h =
    let (m', run, f) =
      fill-Returns n (set m p (v % 256)) (p + 1) v (omega (arith, h, length-set m p (v % 256))) in
    rw (lt→ltb p (length m) (omega (arith, h)), run)
      (
        m',
        refl,
        record {
          size = f.size ∙ length-set m p (v % 256);
          before = λ x l.
              f.before x (omega (arith, l))
              ∙ get_elem?-set_other m p x (v % 256) (λ e. absurd (omega (arith, l, e)));
          filled = λ x l k. elim (Bool-cases (ltb p x)) [
            | inl above ↦ f.filled x (ground (arith, above)) (omega (arith, k))
            | inr here ↦ first x m' (ground (arith, here, l)) (f.before p (omega arith))
          ];
        },
      )
  where
    first :
        (x : ℕ) (m' : List ℕ)
        → p ≡ x
        → get_elem? m' p ≡ get_elem? (set m p (v % 256)) p
        → get_elem? m' x ≡ some (v % 256)
    first x m' e b =
        ap (get_elem? m') (sym e) ∙ b ∙ get_elem?-set_self m p (v % 256) (omega (arith, h))

module _ (start n : ℕ) where
  -- The options from a place on, none of which is SACKOK.
  pub data Clean (m : List ℕ) : ℕ → Type 0 where
    at_end : (p : ℕ) (s : OptStep) → opt_at start n p m ≡ ok s → is_zero s.type ≡ true → Clean m p
    past :
        (p q : ℕ) (s : OptStep)
        → opt_at start n p m ≡ ok s
        → is_zero s.type ≡ false
        → is_sackok s.type ≡ false
        → s.next ≡ some q
        → Clean m q
        → Clean m p

  -- Bytes of value 1 are options without data.
  Clean-noops :
      (m : List ℕ) (k p : ℕ)
      → p + k ≤ end start n
      → ((x : ℕ) → p ≤ x → x < p + k → get_elem? m x ≡ some 1)
      → Clean m (p + k)
      → Clean m p
  unfolding ip_opt_next opt_here
  Clean-noops m zero p h ones c = subst (Clean m) (omega arith) c
  Clean-noops m (suc k) p h ones c =
      past p (p + 1) record { type = pos 1; next = some (p + 1); data_at = none; data_len = 0 } noop
        refl refl refl
        (Clean-noops m k (p + 1) (omega (arith, h))
          (λ x l j. ones x (omega (arith, l)) (omega (arith, j))) (subst (Clean m) (omega arith) c))
    where
      noop :
          opt_at start n p m
          ≡ ok record { type = pos 1; next = some (p + 1); data_at = none; data_len = 0 }
      noop =
          rw
            (
              ip_opt_next,
              lt→leb_false (end start n) p (omega (arith, h)),
              ones p (omega arith) (omega arith),
            )
            refl

  Removed : List ℕ → ℕ → List ℕ × Bool → Type 0
  Removed m p r = SameBefore m r.0 p × (length r.0 ≡ length m) × Clean r.0 p

  module _ (pkt : Netpkt) (starts : pkt.tcp_opt ≡ some start) (long : pkt.tcp_opt_len ≡ pos n) where
    enum_lem : (m : List ℕ) (p : ℕ) → tcp_opt_enum m pkt (some p) ≡ opt_at start n p m
    unfolding tcp_opt_enum
    enum_lem m p =
        ap (λ o. ip_opt_next m o pkt.tcp_opt_len (some p)) starts
        ∙ ap (λ l. ip_opt_next m (some start) l (some p)) long

    sack_loop-Returns :
        (fuel : ℕ) (m : List ℕ) (p : ℕ) (ret : Bool)
        → end start n < length m
        → end start n < p + fuel
        → 0 < fuel
        → Returns (sack_loop fuel m pkt (some p) ret) (Removed m p)
    unfolding sack_loop Removed
    sack_loop-Returns zero m p ret h f g = elim g [ ]
    sack_loop-Returns (suc fuel) m p ret h f g =
        let (s, run, at) = ip_opt_next-Returns start n m p h in
        elim at [
          | inl zero_type ↦
              rw (sack_loop, enum_lem m p, run, zero_type)
                ((m, ret), refl, ((λ x l. refl), refl, at_end p s run zero_type))
          | inr (nz, (q, t)) ↦ elim (Bool-cases (is_sackok s.type)) [
            | inr other ↦
                let (r, loop, (same, size, clean)) =
                  sack_loop-Returns fuel m q ret h (omega (arith, f, t.onward))
                    (omega (arith, f, t.onward, t.within)) in
                rw (sack_loop, enum_lem m p, run, nz, other, t.next, loop)
                  (
                    r,
                    refl,
                    (
                      (λ x l. same x (omega (arith, l, t.onward))),
                      size,
                      past p q s (t.local r.0 same) nz other t.next clean,
                    ),
                  )
            | inl sackok ↦
                let has = t.has_data sackok in
                let (place, ends) = t.data_before (p + 2) has in
                let (m₁, filled, over) =
                  fill-Returns (s.data_len + 2) m (p + 2 - 2) 1
                    (omega (arith, ends, t.within, h)) in
                let (r, loop, (same, size, clean)) =
                  sack_loop-Returns fuel m₁ q true (omega (arith, h, over.size))
                    (omega (arith, f, t.onward)) (omega (arith, f, t.onward, t.within)) in
                rw (sack_loop, enum_lem m p, run, nz, sackok, has, filled, t.next, loop)
                  (
                    r,
                    refl,
                    (
                      (λ x l.
                          same x (omega (arith, l, t.onward)) ∙ over.before x (omega (arith, l))),
                      size ∙ over.size,
                      Clean-noops r.0 (q - p) p (omega (arith, t.onward, t.within))
                          (λ x l k.
                            same x (omega (arith, k, t.onward))
                            ∙ over.filled x (omega (arith, l)) (omega (arith, k, ends, t.onward)))
                          (subst (Clean r.0) (omega (arith, t.onward)) clean),
                    ),
                  )
          ]
        ]

    enum_none : (m : List ℕ) → tcp_opt_enum m pkt none ≡ opt_at start n start m
    unfolding tcp_opt_enum ip_opt_next
    enum_none m =
        ap (λ o. ip_opt_next m o pkt.tcp_opt_len none) starts
        ∙ ap (λ l. ip_opt_next m (some start) l none) long

    sack_loop-none :
        (fuel : ℕ) (m : List ℕ) (ret : Bool)
        → sack_loop (suc fuel) m pkt none ret ≡ sack_loop (suc fuel) m pkt (some start) ret
    unfolding sack_loop
    sack_loop-none fuel m ret = rw (sack_loop, enum_none m, enum_lem m start) refl

    -- On a packet with a TCP header whose SYN flag is set and options of `n` bytes, with a byte
    -- behind them in memory, `netpkt_tcp_remove_sack` returns: enumerated from the start, the
    -- options have no SACKOK any more, no byte before them has changed, and the memory has its old
    -- size.
    pub tcp_remove_sack-Clean :
        (m : List ℕ) (tcp flags : ℕ)
        → pkt.tcp ≡ some tcp
        → load m (tcp + 13) ≡ ok flags
        → syn_of flags ≡ 1
        → start + n < length m
        → Returns
            (tcp_remove_sack m pkt)
            (λ r. Clean r.0 start × SameBefore m r.0 start × (length r.0 ≡ length m))
    unfolding tcp_remove_sack remove_from Removed
    tcp_remove_sack-Clean m tcp flags has_tcp read syn h =
        let (r, run, (same, size, clean)) =
          sack_loop-Returns (suc n) m start false (omega (arith, h)) (omega arith) (omega arith) in
        (r, whole r run, (clean, same, size))
      where
        on : (syn_of flags == 1) ≡ true
        on = ground (arith, syn)

        looped :
            sack_loop (suc (pos_part pkt.tcp_opt_len)) m pkt none false
            ≡ sack_loop (suc n) m pkt (some start) false
        looped =
            ap (λ l. sack_loop (suc (pos_part l)) m pkt none false) long ∙ sack_loop-none n m false

        whole :
            (r : List ℕ × Bool)
            → sack_loop (suc n) m pkt (some start) false ≡ ok r
            → tcp_remove_sack m pkt ≡ ok r
        whole r run =
            ap (λ o. remove_from o pkt.tcp_opt m pkt) has_tcp
            ∙ ap (λ o. remove_from (some tcp) o m pkt) starts
            ∙ rw (read, on) (looped ∙ run)
