-- ===== src/Sendlist/Turn.antt =====
-- One turn of the loop of `sendlist_flush`, as the calls in it return.
use bklib.Base.{ℕ, suc, ◌≡◌, refl, true, false, none, some, ok, ltb}
use bklib.Base.Int.{pos, negsuc}
use bklib.Array.{load}
use bklib.Sendlist.{Sendbuf, Sendlist, System, peek, poke, shift, advance, transfer, flush_loop}

module _ {W : Type 0} (sys : System W) where
  pub stop_run :
      (fuel : ℕ) (s : Sendlist) (w : W)
      → peek s ≡ none
      → flush_loop sys (suc fuel) s w ≡ ok (pos 0, s, w)
  unfolding flush_loop
  stop_run fuel s w e = rw (flush_loop, e) refl

  module _ (fuel : ℕ) (s : Sendlist) (w : W) (b : Sendbuf) (w' : W) (e : peek s ≡ some 0)
      (l : load s.sendbufs (pos 0) ≡ ok b) where
    pub fail_run :
        transfer sys s.send_fd b w ≡ ok (none, w')
        → flush_loop sys (suc fuel) s w ≡ ok (negsuc 0, s, w')
    unfolding flush_loop
    fail_run t = rw (flush_loop, e, l, t) refl

    pub block_run :
        (n : ℕ) (s' : Sendlist)
        → transfer sys s.send_fd b w ≡ ok (some n, w')
        → poke (advance n b) s ≡ ok s'
        → ltb 0 (advance n b).len ≡ true
        → flush_loop sys (suc fuel) s w ≡ ok (pos 1, s', w')
    unfolding flush_loop
    block_run n s' t p more = rw (flush_loop, e, l, t, p, more) refl

    pub next_run :
        (n : ℕ) (s' s'' : Sendlist)
        → transfer sys s.send_fd b w ≡ ok (some n, w')
        → poke (advance n b) s ≡ ok s'
        → ltb 0 (advance n b).len ≡ false
        → shift s' ≡ ok (true, s'')
        → flush_loop sys (suc fuel) s w ≡ flush_loop sys fuel s'' w'
    unfolding flush_loop
    next_run n s' s'' t p more h = rw (flush_loop, e, l, t, p, more, h) refl
