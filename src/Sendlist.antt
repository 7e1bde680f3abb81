-- ===== src/Sendlist.antt =====
-- sendlist.c and sendlist.h: the queue of what is to be written to a socket, an `array_t` of
-- `sendbuf_t`.
-- The system calls, and `fdselect_set` and `fdselect_unset`, are a parameter with a state of its own.
-- A callback that is called is recorded; it does not use the list itself. `sock_wouldblock` reads
-- `errno`, so it is a test of the state after the call.
pub mod Flush
pub mod Queue
pub mod Send
pub mod Stream
mod Tests
pub mod Turn
use bklib.Base.{
  ℕ, zero, suc, ◌+◌, ◌-◌, ◌^◌, Bool, true, false, Option, none, some, List, [], ◌∷◌, ◌++◌, Run, ok,
  fault, ◌>>=◌, deref, leb, ltb, ◌==◌, if◌then◌else◌, length, take, drop, set,
}
use bklib.Base.Int.{ℤ, pos, negsuc, is_neg, is_zero, ltb_ℤ}
use bklib.Array.{Array, get, load, remove_idx, clear}
use bklib.Array
use bklib.Array.Cells.{Memory}
use bklib.Array.Grow.{append}

-- `buf` is what it points to, as bytes; `free_func` is the callback with its argument, by a number.
pub record Sendbuf : Type 0 where
  pub buf : Option (List ℕ)
  pub fd : ℤ
  pub len : ℕ
  pub off : ℕ
  pub free_func : Option ℕ

-- `freed` and `flushed` keep the calls of the callbacks, in order.
pub record Sendlist : Type 0 where
  pub send_fd : ℕ
  pub sendbufs : Array Sendbuf
  pub flushed_func : Option ℕ
  pub freed : List (ℕ × Sendbuf)
  pub flushed : List (ℕ × ℤ)

pub record System (W : Type 0) : Type 0 where
  pub write : ℕ → List ℕ → W → ℤ × W
  pub sendfile : ℕ → ℤ → ℕ → ℕ → W → ℤ × W
  pub shutdown : ℕ → W → ℤ × W
  pub would_block : W → Bool
  pub select : ℕ → W → ℤ × W
  pub unselect : ℕ → W → ℤ × W

abbrev sizeof_sendbuf : ℕ
sizeof_sendbuf = 56

-- `sendlist_init`
unfoldable pub init : ℕ → Option ℕ → Sendlist
unfolding Array.init
init send_fd flushed_func = record {
  send_fd = send_fd;
  sendbufs = Array.init sizeof_sendbuf (pos 10);
  flushed_func = flushed_func;
  freed = [];
  flushed = [];
}

-- `sendlist_peek`: whether there is a first sendbuf is what `array_get` says of index 0.
unfoldable pub peek : Sendlist → Option ℕ
unfolding get
peek s = get s.sendbufs (pos 0)

abbrev pub release : Sendbuf → List (ℕ × Sendbuf)
release b = elim b.free_func [ none ↦ [] | some f ↦ (f, b) ∷ [] ]

-- `sendlist_shift`, which returns whether there was a first sendbuf.
unfoldable pub shift : Sendlist → Run (Bool × Sendlist)
unfolding peek load remove_idx
shift s = elim (peek s) [
  | none ↦ ok (false, s)
  | some _ ↦ do
    b ← load s.sendbufs (pos 0)
    a ← remove_idx (pos 0) (pos 1) s.sendbufs
    ok (true, record s { sendbufs = a; freed = s.freed ++ release b })
]

-- What `sendlist_flush` writes through the pointer to the first sendbuf; `len` is a `size_t`.
abbrev pub advance : ℕ → Sendbuf → Sendbuf
advance n b = record b {
  len = if ltb b.len n then b.len + 2 ^ 64 - n else b.len - n;
  off = b.off + n;
}

unfoldable pub poke : Sendbuf → Sendlist → Run Sendlist
poke b s = do
  cells ← deref s.sendbufs.cells
  ok (record s { sendbufs = record s.sendbufs { cells = some (set cells 0 b) } })

-- The call of `flushed_func`.
abbrev pub report : Sendlist → ℤ → List (ℕ × ℤ)
report s err = elim s.flushed_func [ none ↦ [] | some f ↦ (f, err) ∷ [] ]

-- The loop of `sendlist_close`.
pub drain : ℕ → Sendlist → Run Sendlist
unfolding shift
drain zero s = fault
drain (suc fuel) s = do (more, s') ← shift s; elim more [ true ↦ drain fuel s' | false ↦ ok s' ]

module _ {W : Type 0} (sys : System W) where
  -- The number that is taken off the sendbuf, or none where the loop is left with `err` at -1.
  abbrev pub settle : ℤ × W → Option ℕ × W
  settle (pos n, w) = (some n, w)
  settle (negsuc k, w) = (if sys.would_block w then some 0 else none, w)

  -- One system call for the first sendbuf.
  unfoldable pub transfer : ℕ → Sendbuf → W → Run (Option ℕ × W)
  transfer send_fd b w = elim b.buf [
    | some xs ↦
        if leb (b.off + b.len) (length xs)
        then ok (settle (sys.write send_fd (take b.len (drop b.off xs)) w))
        else fault
    | none ↦
        if is_neg b.fd
        then (let r = sys.shutdown send_fd w in
            if is_zero r.0 then ok (settle (pos b.len, r.1)) else ok (none, r.1))
        else ok (settle (sys.sendfile send_fd b.fd b.off b.len w))
  ]

  -- The loop of `sendlist_flush`.
  pub flush_loop : ℕ → Sendlist → W → Run (ℤ × Sendlist × W)
  unfolding peek shift poke transfer load
  flush_loop zero s w = fault
  flush_loop (suc fuel) s w = elim (peek s) [
    | none ↦ ok (pos 0, s, w)
    | some _ ↦ do
      b ← load s.sendbufs (pos 0)
      (sent, w') ← transfer s.send_fd b w
      elim sent [
        | none ↦ ok (negsuc 0, s, w')
        | some n ↦ do
          s' ← poke (advance n b) s
          elim (ltb 0 (advance n b).len) [
            | true ↦ ok (pos 1, s', w')
            | false ↦ do (_, s'') ← shift s'; flush_loop fuel s'' w'
          ]
      ]
  ]

  -- `sendlist_flush`. What `fdselect_set` and `fdselect_unset` return does not change the result.
  unfoldable pub flush : Sendlist → W → Run (ℤ × Sendlist × W)
  unfolding flush_loop
  flush s w = do
    (err, s', w') ← flush_loop (suc s.sendbufs.count) s w
    let r = if ltb_ℤ (pos 0) err then sys.select s.send_fd w' else sys.unselect s.send_fd w'
    ok (err, record s' { flushed = s'.flushed ++ report s err }, r.1)

  -- `sendlist_select_write`, the callback of `fdselect_set`.
  unfoldable pub select_write : ℕ → Sendlist → W → Run (Sendlist × W)
  unfolding flush
  select_write fd s w =
      if fd == s.send_fd then (do (_, s', w') ← flush s w; ok (s', w')) else ok (s, w)

  -- `sendlist_send`: `sendlist_push`, the fields of the new sendbuf, and the flush.
  unfoldable pub send : Memory Sendbuf → Sendbuf → Sendlist → W → Run (ℤ × Sendlist × W)
  unfolding append flush
  send mem b s w = do
    (p, a) ← append mem (b ∷ []) s.sendbufs
    elim p [
      | none ↦ ok (negsuc 0, record s { sendbufs = a }, w)
      | some _ ↦ flush (record s { sendbufs = a }) w
    ]

  -- `sendlist_send_buf`, `sendlist_send_fd` and `sendlist_shutdown`.
  unfoldable pub send_buf :
      Memory Sendbuf → List ℕ → ℕ → Option ℕ → Sendlist → W → Run (ℤ × Sendlist × W)
  unfolding send
  send_buf mem buf len free_func =
      send mem (record { buf = some buf; fd = negsuc 0; len = len; off = 0; free_func = free_func })

  unfoldable pub send_fd :
      Memory Sendbuf → ℤ → ℕ → ℕ → Option ℕ → Sendlist → W → Run (ℤ × Sendlist × W)
  unfolding send
  send_fd mem fd off len free_func =
      send mem (record { buf = none; fd = fd; len = len; off = off; free_func = free_func })

  unfoldable pub shutdown : Memory Sendbuf → Option ℕ → Sendlist → W → Run (ℤ × Sendlist × W)
  unfolding send
  shutdown mem free_func =
      send mem (record { buf = none; fd = negsuc 0; len = 0; off = 0; free_func = free_func })

  -- `sendlist_close`.
  unfoldable pub close : Sendlist → W → Run (ℤ × Sendlist × W)
  unfolding drain clear
  close s w = do
    s' ← drain (suc s.sendbufs.count) s
    let r = sys.unselect s.send_fd w
    if is_zero r.0
        then ok (pos 0, record s' { sendbufs = (clear s'.sendbufs).1 }, r.1)
        else ok (negsuc 0, s', r.1)
