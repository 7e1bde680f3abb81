-- ===== src/Netpkt/Seq.antt =====
-- netpkt.c: TCP sequence numbers, words of 32 bits that wrap around.
use bklib.Base.{
  ℕ, ◌+◌, ◌-◌, ◌/◌, ◌%◌, ◌^◌, ◌≤◌, ◌<◌, ◌≡◌, none, some, List, Run, ok, ◌>>=◌, arith, ltb,
  if◌then◌else◌,
}
use bklib.Base.Int.{ℤ, pos, negsuc, pos_part, neg_part}
use bklib.Netpkt.{Netpkt}
use bklib.Netpkt.Memory.{load, load_net_32}

-- `tcp_seq_diff`: the difference modulo 2 ^ 32, as an `int`.
unfoldable pub tcp_seq_diff : ℕ → ℕ → ℤ
tcp_seq_diff a b =
    let d = (a + (2 ^ 32 - b)) % 2 ^ 32 in if ltb d (2 ^ 31) then pos d else negsuc (2 ^ 32 - 1 - d)

-- `tcp_syn` and `tcp_fin`
abbrev pub syn_of : ℕ → ℕ
syn_of flags = flags / 2 % 2

abbrev pub fin_of : ℕ → ℕ
fin_of flags = flags % 2

-- An `int` as a word.
abbrev pub to_word : ℤ → ℕ
to_word z = (pos_part z % 2 ^ 32 + (2 ^ 32 - neg_part z % 2 ^ 32)) % 2 ^ 32

-- `tcp_seq_next`
unfoldable pub tcp_seq_next : List ℕ → Netpkt → Run ℕ
tcp_seq_next m pkt = elim pkt.tcp [
  | none ↦ ok 0
  | some tcp ↦ load_net_32 m (tcp + 4) >>= λ seq. load m (tcp + 13) >>= λ flags.
      ok ((seq + to_word pkt.len + syn_of flags + fin_of flags) % 2 ^ 32)
]

-- `tcp_seq_diff` is at least -2 ^ 31 and below 2 ^ 31, and is the distance modulo 2 ^ 32.
pub tcp_seq_diff_lem :
    (a b : ℕ)
    → a < 2 ^ 32
    → b < 2 ^ 32
    → (neg_part (tcp_seq_diff a b) ≤ 2 ^ 31)
      × (pos_part (tcp_seq_diff a b) < 2 ^ 31)
      × ((b + pos_part (tcp_seq_diff a b)) % 2 ^ 32 ≡ (a + neg_part (tcp_seq_diff a b)) % 2 ^ 32)
unfolding tcp_seq_diff
tcp_seq_diff_lem a b h k = ground arith

-- For a sequence number and a distance below 2 ^ 31, `tcp_seq_diff` of the number that far behind
-- it, across the wrap-around, is the distance, and in the other order, to the number one further,
-- one less than minus the distance.
pub tcp_seq_diff_wrap :
    (b d : ℕ)
    → b < 2 ^ 32
    → d < 2 ^ 31
    → (tcp_seq_diff ((b + d) % 2 ^ 32) b ≡ pos d)
      × (tcp_seq_diff b ((b + d + 1) % 2 ^ 32) ≡ negsuc d)
unfolding tcp_seq_diff
tcp_seq_diff_wrap b d h k = (ground arith, ground arith)
