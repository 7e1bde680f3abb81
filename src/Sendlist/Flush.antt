-- ===== src/Sendlist/Flush.antt =====
-- `sendlist_flush` and what ends with it, `sendlist_send` and `sendlist_select_write`; and
-- `sendlist_close`.
use bklib.Base.{
  ℕ, zero, suc, ◌<◌, ◌≡◌, refl, sym, ap, ◌∙◌, true, false, Option, none, some, List, [], ◌∷◌, ◌++◌,
  ok, Returns, arith, length, drop, if◌then◌else◌, ltb, Bool, Bool-cases, ◌⊎◌, inl, inr,
  append_assoc, subst, set,
}
use bklib.Base.Int.{ℤ, pos, negsuc, ltb_ℤ}
use bklib.Array.Contents.{IsValid, block}
use bklib.Array.{load}
use bklib.Sendlist.{Sendbuf, Sendlist, System, advance, transfer, flush_loop, flush, report}
use bklib.Sendlist.Queue.{
  queue, peek-nil, peek-cons, head, poke_lem, count_zero, ltb-false-zero, shifted, callbacks,
  callers,
}
use bklib.Sendlist.Turn.{stop_run, fail_run, block_run, next_run}
use bklib.Sendlist.Stream.{bytes, pending, AllBacked, bytes-len_zero, IsSocket, transfer_lem, Moves}

-- What the result says of the queue: 0 that it is empty, more that it waits, less that a call failed.
abbrev pub Outcome : ℤ → List Sendbuf → Type 0
Outcome (pos zero) q = q ≡ []
Outcome (pos (suc n)) q = 0 < length q
Outcome (negsuc n) q = 0 < length q

module _ {W : Type 0} (sys : System W) (wire : W → List ℕ) (file : ℤ → List ℕ) where
  -- From `s` and `w` to a result, with the calls of `flushed_func` until then: the list stays well formed; no byte is lost, repeated or
  -- overtaken; and each callback is called once, in the order of the queue.
  pub record Flushed (s : Sendlist) (w : W) (calls : List (ℕ × ℤ)) (r : ℤ × Sendlist × W)
      : Type 0 where
    pub valid : IsValid r.1.sendbufs
    pub backed : AllBacked (queue r.1)
    pub stream : wire r.2 ++ pending file (queue r.1) ≡ wire w ++ pending file (queue s)
    pub freed : callers r.1.freed ++ callbacks (queue r.1) ≡ callers s.freed ++ callbacks (queue s)
    pub outcome : Outcome r.0 (queue r.1)
    pub told : r.1.flushed ≡ calls
    pub send_fd : r.1.send_fd ≡ s.send_fd
    pub flushed_func : r.1.flushed_func ≡ s.flushed_func

  -- The queue before and after the first sendbuf `b` became `b'`, with `q` behind it.
  stream_step :
      (x y : List ℕ) (b b' : Sendbuf) (q : List Sendbuf)
      → y ++ bytes file b' ≡ x ++ bytes file b
      → y ++ pending file (b' ∷ q) ≡ x ++ pending file (b ∷ q)
  unfolding pending
  stream_step x y b b' q e =
      sym (append_assoc y (bytes file b') (pending file q))
      ∙ ap (λ l. l ++ pending file q) e
      ∙ append_assoc x (bytes file b) (pending file q)

  pending_done :
      (b : Sendbuf) (q : List Sendbuf) → b.len ≡ 0 → pending file (b ∷ q) ≡ pending file q
  unfolding pending
  pending_done b q e = ap (λ l. l ++ pending file q) (bytes-len_zero file b e)

  callbacks-advance :
      (n : ℕ) (b : Sendbuf) (q : List Sendbuf) → callbacks (advance n b ∷ q) ≡ callbacks (b ∷ q)
  unfolding callbacks
  callbacks-advance n b q = refl

  one_more : {A : Type 0} {q : List A} {x : A} {r : List A} → q ≡ x ∷ r → 0 < length q
  one_more {r = r} e = subst (λ l. 0 < length l) (sym e) (omega arith)

  flush_run :
      (s : Sendlist) (w : W) (err : ℤ) (s' : Sendlist) (w' : W)
      → flush_loop sys (suc s.sendbufs.count) s w ≡ ok (err, s', w')
      → flush sys s w
        ≡ ok (
          err,
          record s' { flushed = s'.flushed ++ report s err },
          (if ltb_ℤ (pos 0) err then sys.select s.send_fd w' else sys.unselect s.send_fd w').1,
        )
  unfolding flush
  flush_run s w err s' w' e = rw (flush, e) refl

  module _ (fd : ℕ) (socket : IsSocket sys wire file fd) where
    abbrev Loops : ℕ → Type 0
    Loops fuel =
        (s : Sendlist) (w : W)
        → IsValid s.sendbufs
        → AllBacked (queue s)
        → s.send_fd ≡ fd
        → s.sendbufs.count < fuel
        → Returns (flush_loop sys fuel s w) (Flushed s w s.flushed)

    -- One turn of the loop, with what the others do.
    step :
        (fuel : ℕ) (s : Sendlist) (w : W) (b : Sendbuf)
        → IsValid s.sendbufs
        → s.send_fd ≡ fd
        → s.sendbufs.count < suc fuel
        → 0 < s.sendbufs.count
        → load s.sendbufs (pos 0) ≡ ok b
        → queue s ≡ b ∷ drop 1 (queue s)
        → AllBacked (b ∷ drop 1 (queue s))
        → (r : Option ℕ × W) → transfer sys s.send_fd b w ≡ ok r
        → Moves sys wire file b w r
        → Loops fuel
        → Returns (flush_loop sys (suc fuel) s w) (Flushed s w s.flushed)
    step fuel s w b v f h some_left l at k (none, w') t m rec = (
      (negsuc 0, s, w'),
      fail_run sys fuel s w b w' (peek-cons s v some_left) l t,
      record {
        valid = v;
        backed = subst AllBacked (sym at) k;
        stream = ap (λ x. x ++ pending file (queue s)) m;
        freed = refl;
        outcome = one_more at;
        told = refl;
        send_fd = refl;
        flushed_func = refl;
      },
    )
    step fuel s w b v f h some_left l at k (some n, w') t (le, moved, k') rec =
        let q = drop 1 (queue s) in
        let b' = advance n b in
        let (p, v', at') = poke_lem s b' v some_left in
        let s' : Sendlist = record s {
          sendbufs = record s.sendbufs { cells = some (set (block s.sendbufs) 0 b') };
        } in
        let stream =
          ap (λ c. wire w' ++ pending file c) at'
          ∙ stream_step (wire w) (wire w') b b' q moved
          ∙ ap (λ c. wire w ++ pending file c) (sym at) in
        let freed =
          ap (λ c. callers s.freed ++ c)
            (ap callbacks at' ∙ callbacks-advance n b q ∙ ap callbacks (sym at)) in
        elim (Bool-cases (ltb 0 b'.len)) [
          | inl more ↦ (
            (pos 1, s', w'),
            block_run sys fuel s w b w' (peek-cons s v some_left) l n s' t p more,
            record {
              valid = v';
              backed = subst AllBacked (sym at') (k', k.1);
              stream = stream;
              freed = freed;
              outcome = one_more at';
              told = refl;
              send_fd = refl;
              flushed_func = refl;
            },
          )
          | inr done ↦
              let sent : b'.len ≡ 0 = ltb-false-zero b'.len done in
              let ((m, s''), run, (more, v'', at'', c, fr, g, g', quiet)) =
                shifted s' b' q v' some_left at' in
              let (r, run', flushed) =
                rec s'' w' v'' (subst AllBacked (sym at'') k.1) (g ∙ f) (omega (arith, c)) in
              (
                r,
                next_run sys fuel s w b w' (peek-cons s v some_left) l n s' s'' t p done
                      (run ∙ ap (λ m. ok (m, s'')) more)
                    ∙ run',
                record {
                  valid = flushed.valid;
                  backed = flushed.backed;
                  stream =
                      flushed.stream
                      ∙ ap (λ c. wire w' ++ pending file c) at''
                      ∙ ap (λ c. wire w' ++ c) (sym (pending_done b' q sent))
                      ∙ ap (λ c. wire w' ++ pending file c) (sym at')
                      ∙ stream;
                  freed = flushed.freed ∙ fr ∙ freed;
                  outcome = flushed.outcome;
                  told = flushed.told ∙ quiet;
                  send_fd = flushed.send_fd ∙ g;
                  flushed_func = flushed.flushed_func ∙ g';
                },
              )
        ]

    flush_loop_lem : (fuel : ℕ) → Loops fuel
    flush_loop_lem zero s w v k f h = absurd (omega arith)
    flush_loop_lem (suc fuel) s w v k f h =
        start (flush_loop_lem fuel) (Bool-cases (ltb 0 s.sendbufs.count))
      where
        start :
            Loops fuel
            → (ltb 0 s.sendbufs.count ≡ true) ⊎ (ltb 0 s.sendbufs.count ≡ false)
            → Returns (flush_loop sys (suc fuel) s w) (Flushed s w s.flushed)
        start rec (inr e) =
            let none_left : s.sendbufs.count ≡ 0 = ground arith in
            (
              (pos 0, s, w),
              stop_run sys fuel s w (peek-nil s none_left),
              record {
                valid = v;
                backed = k;
                stream = refl;
                freed = refl;
                outcome = count_zero s none_left;
                told = refl;
                send_fd = refl;
                flushed_func = refl;
              },
            )
        start rec (inl e) =
            let some_left : 0 < s.sendbufs.count = ground arith in
            let (b, l, at) = head s v some_left in
            let backed : AllBacked (b ∷ drop 1 (queue s)) = subst AllBacked at k in
            let (r, t, m) = transfer_lem sys wire file fd socket b w backed.0 in
            step fuel s w b v f (omega arith) some_left l at backed r
              (ap (λ g. transfer sys g b w) f ∙ t) m rec

    -- For a socket that behaves as documented, a well-formed queue and buffers as long as they
    -- promise, `sendlist_flush` returns. The bytes on the wire and those still queued are together
    -- what they were, in order; each callback of a sendbuf that left the queue is called once, in
    -- order; the result is 0 only with an empty queue and otherwise only with one that is not; and
    -- `flushed_func` is called once with it.
    pub flush_lem :
        (s : Sendlist) (w : W)
        → IsValid s.sendbufs
        → AllBacked (queue s)
        → s.send_fd ≡ fd
        → Returns (flush sys s w) λ r. Flushed s w (s.flushed ++ report s r.0) r
    flush_lem s w v k f =
        let ((err, s', w'), run, x) =
          flush_loop_lem (suc s.sendbufs.count) s w v k f (omega arith) in
        let r = if ltb_ℤ (pos 0) err then sys.select s.send_fd w' else sys.unselect s.send_fd w' in
        let quiet = selected s w' f (ltb_ℤ (pos 0) err) in
        (
          (err, record s' { flushed = s'.flushed ++ report s err }, r.1),
          flush_run s w err s' w' run,
          record {
            valid = x.valid;
            backed = x.backed;
            stream = ap (λ l. l ++ pending file (queue s')) quiet ∙ x.stream;
            freed = x.freed;
            outcome = x.outcome;
            told = ap (λ l. l ++ report s err) x.told;
            send_fd = x.send_fd;
            flushed_func = x.flushed_func;
          },
        )
      where
        selected :
            (s : Sendlist) (w' : W)
            → s.send_fd ≡ fd
            → (p : Bool)
            → wire (if p then sys.select s.send_fd w' else sys.unselect s.send_fd w').1 ≡ wire w'
        selected s w' f true = ap (λ g. wire (sys.select g w').1) f ∙ socket.selects w'
        selected s w' f false = ap (λ g. wire (sys.unselect g w').1) f ∙ socket.unselects w'
