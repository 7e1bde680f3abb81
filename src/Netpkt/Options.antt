-- ===== src/Netpkt/Options.antt =====
-- netpkt.c: the options of IP and TCP headers.
pub mod Steps
pub mod Sack
use bklib.Base.{
  ℕ, zero, suc, ◌+◌, ◌-◌, ◌*◌, ◌/◌, ◌%◌, Bool, true, false, ◌&&◌, ◌||◌, not, Option, none, some,
  List, [], ◌∷◌, Run, ok, fault, ◌>>=◌, leb, ltb, ◌==◌, if◌then◌else◌,
}
use bklib.Base.Int.{ℤ, pos, negsuc, pos_part, neg_part, is_zero, ltb_ℤ}
use bklib.Netpkt.{Netpkt}
use bklib.Netpkt.Memory.{load, fill}
use bklib.Netpkt.Seq.{syn_of}

-- A byte as a `char`, which has a sign.
abbrev pub to_char : ℕ → ℤ
to_char b = if ltb b 128 then pos b else negsuc (255 - b)

-- What a call of `netpkt_ip_opt_next` returns: the type, `*p`, and the data with its length, if the
-- option has data.
pub record OptStep : Type 0 where
  pub type : ℤ
  pub next : Option ℕ
  pub data_at : Option ℕ
  pub data_len : ℕ

-- The end of the options: `start + optlen`, which lies before `start` if `optlen` is negative.
abbrev pub end_of : ℕ → ℤ → ℕ
end_of start optlen = start + pos_part optlen - neg_part optlen

-- An option of type `type` at `p`, behind whose type a length stands.
pub opt_with_data : List ℕ → ℕ → ℕ → ℤ → Run OptStep
opt_with_data m end p type = load m (p + 1) >>= λ b.
    if not (ltb b 128) || (ltb b 2 || ltb end (p + b))
    then ok record { type = pos 0; next = some end; data_at = none; data_len = 0 }
    else ok record { type = type; next = some (p + b); data_at = some (p + 2); data_len = b - 2 }

-- `switch(type)` of the option at `p`.
pub opt_here : List ℕ → ℕ → ℕ → Run OptStep
unfolding opt_with_data
opt_here m end p = load m p >>= λ type.
    if type == 0
    then ok record { type = pos 0; next = some end; data_at = none; data_len = 0 }
    else if type == 1
    then ok record { type = pos 1; next = some (p + 1); data_at = none; data_len = 0 }
    else opt_with_data m end p (to_char type)

-- `netpkt_ip_opt_next`; `none` is a null pointer.
unfoldable pub ip_opt_next : List ℕ → Option ℕ → ℤ → Option ℕ → Run OptStep
unfolding opt_here
ip_opt_next m none optlen p = ok record { type = pos 0; next = p; data_at = none; data_len = 0 }
ip_opt_next m (some start) optlen p₀ =
    let p : ℕ = elim p₀ [ none ↦ start | some q ↦ q ] in
    let end = end_of start optlen in
    if leb end p
    then ok record { type = pos 0; next = some p; data_at = none; data_len = 0 }
    else opt_here m end p

-- `netpkt_ip_opt_enum` and `netpkt_tcp_opt_enum`
unfoldable pub ip_opt_enum : List ℕ → Netpkt → Option ℕ → Run OptStep
unfolding ip_opt_next
ip_opt_enum m pkt p = ip_opt_next m pkt.ip_opt pkt.ip_opt_len p

unfoldable pub tcp_opt_enum : List ℕ → Netpkt → Option ℕ → Run OptStep
unfolding ip_opt_next
tcp_opt_enum m pkt p = ip_opt_next m pkt.tcp_opt pkt.tcp_opt_len p

-- `TCP_OPT_SACKOK`
abbrev pub tcp_opt_sackok : ℕ
tcp_opt_sackok = 4

abbrev pub is_sackok : ℤ → Bool
is_sackok (pos n) = n == tcp_opt_sackok
is_sackok (negsuc n) = false

-- The loop of `netpkt_tcp_remove_sack`, on fuel: the memory and `ret`.
pub sack_loop : ℕ → List ℕ → Netpkt → Option ℕ → Bool → Run (List ℕ × Bool)
unfolding tcp_opt_enum
sack_loop zero m pkt p ret = fault
sack_loop (suc fuel) m pkt p ret = tcp_opt_enum m pkt p >>= λ s.
    let overwrite : Run (List ℕ × Bool) = elim s.data_at [
      | none ↦ fault
      | some at ↦ fill (s.data_len + 2) m (at - 2) 1 >>= λ m'. sack_loop fuel m' pkt s.next true
    ] in
    let pass = sack_loop fuel m pkt s.next ret in
    if is_zero s.type then ok (m, ret) else if is_sackok s.type then overwrite else pass

-- `netpkt_tcp_remove_sack` of a TCP header and its options. A turn of the loop passes a byte of the
-- options at least.
unfoldable pub remove_from : Option ℕ → Option ℕ → List ℕ → Netpkt → Run (List ℕ × Bool)
unfolding sack_loop
remove_from none opts m pkt = ok (m, false)
remove_from (some tcp) none m pkt = load m (tcp + 13) >>= λ flags. ok (m, false)
remove_from (some tcp) (some opts) m pkt = load m (tcp + 13) >>= λ flags.
    let loop = sack_loop (suc (pos_part pkt.tcp_opt_len)) m pkt none false in
    if syn_of flags == 1 then loop else ok (m, false)

unfoldable pub tcp_remove_sack : List ℕ → Netpkt → Run (List ℕ × Bool)
unfolding remove_from
tcp_remove_sack m pkt = remove_from pkt.tcp pkt.tcp_opt m pkt
