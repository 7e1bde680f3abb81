-- ===== src/Sendlist/Send.antt =====
-- `sendlist_send`, which `sendlist_send_buf`, `sendlist_send_fd` and `sendlist_shutdown` call, and
-- `sendlist_close`.
use bklib.Base.{
  ltb→lt, drop, ℕ, zero, suc, ◌<◌, ◌≡◌, refl, sym, ap, ◌∙◌, true, some, List, [], ◌∷◌, ◌++◌, ok,
  Returns, arith, ltb, Bool-cases, inl, inr, append_assoc, append-nil, subst,
}
use bklib.Base.Int.{ℤ, pos, negsuc, is_zero}
use bklib.Array.{Array, clear}
use bklib.Array.Cells.{Memory}
use bklib.Array.Contents.{IsValid}
use bklib.Array.Grow.{append}
use bklib.Array.Grow.Add.{request}
use bklib.Array.Grow.Append.{append_lem}
use bklib.Sendlist.{Sendbuf, Sendlist, System, shift, send, flush, drain, close, report}
use bklib.Sendlist.Queue.{
  queue, head, callbacks, callers, shifted, count_zero, ltb-false-zero, peek-nil,
}
use bklib.Sendlist.Stream.{bytes, pending, Backed, AllBacked, IsSocket}
use bklib.Sendlist.Flush.{Outcome, flush_lem}

AllBacked-append :
    (q : List Sendbuf) (b : Sendbuf) → AllBacked q → Backed b → AllBacked (q ++ b ∷ [])
AllBacked-append [] b k l = (l, tt)
AllBacked-append (x ∷ q) b k l = (k.0, AllBacked-append q b k.1 l)

callbacks-append : (q r : List Sendbuf) → callbacks (q ++ r) ≡ callbacks q ++ callbacks r
unfolding callbacks
callbacks-append [] r = refl
callbacks-append (x ∷ q) r = ground (arith, callbacks-append q r)

pending-append :
    (file : ℤ → List ℕ) (q r : List Sendbuf)
    → pending file (q ++ r) ≡ pending file q ++ pending file r
unfolding pending
pending-append file [] r = refl
pending-append file (x ∷ q) r =
    ap (λ l. bytes file x ++ l) (pending-append file q r)
    ∙ sym (append_assoc (bytes file x) (pending file q) (pending file r))

pending-one : (file : ℤ → List ℕ) (b : Sendbuf) → pending file (b ∷ []) ≡ bytes file b
unfolding pending
pending-one file b = append-nil (bytes file b)

module _ {W : Type 0} (sys : System W) where
  send_run :
      (mem : Memory Sendbuf) (b : Sendbuf) (s : Sendlist) (w : W) (i : ℕ) (a : Array Sendbuf)
      → append mem (b ∷ []) s.sendbufs ≡ ok (some i, a)
      → send sys mem b s w ≡ flush sys (record s { sendbufs = a }) w
  unfolding send
  send_run mem b s w i a e = rw (send, e) refl

module _ {W : Type 0} (sys : System W) (wire : W → List ℕ) (file : ℤ → List ℕ) (fd : ℕ)
    (socket : IsSocket sys wire file fd) where
  -- The list after `b` was sent on it.
  pub record Sent (s : Sendlist) (w : W) (b : Sendbuf) (r : ℤ × Sendlist × W) : Type 0 where
    pub valid : IsValid r.1.sendbufs
    pub backed : AllBacked (queue r.1)
    pub stream :
        wire r.2 ++ pending file (queue r.1) ≡ wire w ++ pending file (queue s) ++ bytes file b
    pub freed :
        callers r.1.freed ++ callbacks (queue r.1)
        ≡ callers s.freed ++ callbacks (queue s) ++ callbacks (b ∷ [])
    pub outcome : Outcome r.0 (queue r.1)
    pub told : r.1.flushed ≡ s.flushed ++ report s r.0

  -- For a socket that behaves as documented, a well-formed queue, buffers as long as they promise
  -- and memory granted for one more sendbuf, `sendlist_send` puts the bytes of its sendbuf behind
  -- all that was sent or queued before, its callback behind the others, and returns what the flush
  -- returns.
  pub send_lem :
      (mem : Memory Sendbuf) (b : Sendbuf) (s : Sendlist) (w : W)
      → IsValid s.sendbufs
      → AllBacked (queue s)
      → s.send_fd ≡ fd
      → Backed b
      → mem.grant (request 1 s.sendbufs) ≡ true
      → Returns (send sys mem b s w) (Sent s w b)
  send_lem mem b s w v k f l g =
      let ((p, a), run, (at, ext)) = append_lem mem (b ∷ []) s.sendbufs v (omega arith) g in
      let (r, run', x) =
        flush_lem sys wire file fd socket (record s { sendbufs = a }) w ext.valid
          (subst AllBacked (sym ext.holds) (AllBacked-append (queue s) b k l)) f in
      (
        r,
        send_run sys mem b s w s.sendbufs.count a (run ∙ ap (λ p. ok (p, a)) at) ∙ run',
        record {
          valid = x.valid;
          backed = x.backed;
          stream =
              x.stream
              ∙ ap (λ c. wire w ++ pending file c) ext.holds
              ∙ ap (λ c. wire w ++ c)
                  (pending-append file (queue s) (b ∷ [])
                    ∙ ap (λ c. pending file (queue s) ++ c) (pending-one file b))
              ∙ sym (append_assoc (wire w) (pending file (queue s)) (bytes file b));
          freed =
              x.freed
              ∙ ap (λ c. callers s.freed ++ callbacks c) ext.holds
              ∙ ap (λ c. callers s.freed ++ c) (callbacks-append (queue s) (b ∷ []))
              ∙ sym (append_assoc (callers s.freed) (callbacks (queue s)) (callbacks (b ∷ [])));
          outcome = x.outcome;
          told = x.told;
        },
      )

-- Every sendbuf of `s` is freed in `r`, first to last.
abbrev AllFreed : Sendlist → Sendlist → Type 0
AllFreed s r =
    IsValid r.sendbufs × (queue r ≡ []) × (callers r.freed ≡ callers s.freed ++ callbacks (queue s))

drain_stop :
    (fuel : ℕ) (s : Sendlist)
    → IsValid s.sendbufs
    → s.sendbufs.count ≡ 0
    → Returns (drain (suc fuel) s) (AllFreed s)
unfolding drain shift callbacks
drain_stop fuel s v e = (
  s,
  rw (drain, shift, peek-nil s e) refl,
  (
    v,
    count_zero s e,
    sym (append-nil (callers s.freed))
        ∙ ap (λ q. callers s.freed ++ callbacks q) (sym (count_zero s e)),
  ),
)

drain_next :
    (fuel : ℕ) (s s' : Sendlist) → shift s ≡ ok (true, s') → drain (suc fuel) s ≡ drain fuel s'
unfolding drain
drain_next fuel s s' e = rw (drain, e) refl

drain_lem :
    (fuel : ℕ) (s : Sendlist)
    → IsValid s.sendbufs
    → s.sendbufs.count < fuel
    → Returns (drain fuel s) (AllFreed s)
drain_lem zero s v h = absurd (omega arith)
drain_lem (suc fuel) s v h = elim (Bool-cases (ltb 0 s.sendbufs.count)) [
  | inr e ↦ drain_stop fuel s v (ltb-false-zero s.sendbufs.count e)
  | inl e ↦
      let some_left = ltb→lt 0 s.sendbufs.count e in
      let (b, _, at) = head s v some_left in
      let ((m, s'), run, (more, v', _, n, fr, _, _, _)) =
        shifted s b (drop 1 (queue s)) v some_left at in
      let (r, run', (v'', nil, c)) = drain_lem fuel s' v' (omega (arith, n)) in
      (r, drain_next fuel s s' (run ∙ ap (λ m. ok (m, s')) more) ∙ run', (v'', nil, c ∙ fr))
]

-- On a well-formed queue `sendlist_close` returns: it calls the callback of every sendbuf in the
-- queue once, first to last, and leaves an empty queue. It does no more to the socket than
-- `fdselect_unset`, and fails exactly if that does.
pub close_lem :
    {W : Type 0} (sys : System W) (s : Sendlist) (w : W)
    → IsValid s.sendbufs
    → Returns (close sys s w) λ r.
      (callers r.1.freed ≡ callers s.freed ++ callbacks (queue s))
      × (queue r.1 ≡ [])
      × (r.2 ≡ (sys.unselect s.send_fd w).1)
      × (is_zero r.0 ≡ is_zero (sys.unselect s.send_fd w).0)
unfolding close clear
close_lem sys s w v =
    let (s', run, (v', e, c)) = drain_lem (suc s.sendbufs.count) s v (omega arith) in
    elim (Bool-cases (is_zero (sys.unselect s.send_fd w).0)) [
      | inl z ↦ (
        (pos 0, record s' { sendbufs = (clear s'.sendbufs).1 }, (sys.unselect s.send_fd w).1),
        rw (close, run, z) refl,
        (c, refl, refl, sym z),
      )
      | inr z ↦ (
        (negsuc 0, s', (sys.unselect s.send_fd w).1),
        rw (close, run, z) refl,
        (c, e, refl, sym z),
      )
    ]
