-- ===== src/State/Retries.antt =====
-- `state_set` and `state_poll` on a machine in use, and how often a poll says to try again.
use bklib.Base.{
  ℕ, zero, suc, ◌+◌, ◌≡◌, refl, sym, ap, ◌∙◌, Bool, true, false, none, some, List, [], ◌∷◌, Run, ok,
  ◌>>=◌, Returns, arith, Bool-cases, inl, inr, subst,
}
use bklib.Base.Int.{ℤ, pos, negsuc, ◌-ℤ◌, leb_ℤ}
use bklib.State.{
  Clock, Row, State, Poll, noop, retry, timeout, find_row, set, timeout_next, try_again, poll,
}
use bklib.State.Rows.{Ends, FirstRow, NoRow, Found, find_row_lem}

leb_ℤ-refl : (z : ℤ) → leb_ℤ z z ≡ true
leb_ℤ-refl z = ground arith

leb_ℤ-less : (c m : ℤ) → leb_ℤ c m ≡ true → leb_ℤ (c -ℤ pos 1) m ≡ true
unfolding ◌-ℤ◌
leb_ℤ-less c m h = ground arith

module _ {T : Type 0} where
  -- The table has an end, the current row is the first of its state in it, and no more retries are
  -- left than the row allows.
  pub record IsSound (st : State T) : Type 0 where
    pub ends : Ends st.table
    pub row : Row T
    pub current : st.current ≡ some row
    pub listed : (s : ℤ) × FirstRow s row st.table
    pub budget : leb_ℤ st.retry_count row.retry_max ≡ true

module _ {T : Type 0} (clock : Clock T) where
  abbrev pub Switched : ℤ → State T → ℤ × State T → Type 0
  Switched s st (pos n, st') =
      (n ≡ 0)
      × (p : Row T) × FirstRow s p st.table
      × (st'.current ≡ some p)
      × (st'.retry_count ≡ p.retry_max)
      × (st'.retry_timeout ≡ clock.zero_time)
      × (st'.table ≡ st.table)
  Switched s st (negsuc n, st') = (n ≡ 0) × NoRow s st.table × (st' ≡ st)

  -- On a machine whose table has an end, `state_set` either returns 0 and makes the first row with
  -- the state, before the end of the table, the current one, with all its retries and no time to
  -- wait for; or returns -1, no row before the end has the state, and nothing has changed.
  pub set_lem : (s : ℤ) (st : State T) → Ends st.table → Returns (set clock s st) (Switched s st)
  unfolding set
  set_lem s st e = go (find_row_lem s st.table e)
    where
      go :
          Returns (find_row s st.table) (Found s st.table)
          → Returns (set clock s st) (Switched s st)
      go (none, run, f) = ((negsuc 0, st), rw (set, run) refl, (refl, f, refl))
      go (some p, run, f) = (
        (
          pos 0,
          record st {
            current = some p;
            retry_timeout = clock.zero_time;
            retry_count = p.retry_max;
          },
        ),
        rw (set, run) refl,
        (refl, p, f, refl, refl, refl, refl),
      )

  Switched-IsSound :
      (s : ℤ) (st : State T) (r : ℤ × State T) → IsSound st → Switched s st r → IsSound r.1
  Switched-IsSound s st (pos n, st') v (_, p, f, c, b, t, e) = record {
    ends = subst Ends (sym e) v.ends;
    row = p;
    current = c;
    listed = (s, subst (FirstRow s p) (sym e) f);
    budget = ap (λ z. leb_ℤ z p.retry_max) b ∙ leb_ℤ-refl p.retry_max;
  }
  Switched-IsSound s st (negsuc n, st') v (_, _, e) = subst IsSound (sym e) v

  -- The machine after a retry at `now`.
  abbrev after_retry : T → Row T → State T → State T
  after_retry now p st = record st {
    retry_count = st.retry_count -ℤ pos 1;
    retry_timeout = clock.add now p.retry_interval;
  }

  again_run :
      (now : T) (st : State T) (p : Row T)
      → st.current ≡ some p
      → try_again clock now st ≡ ok (retry, after_retry now p st)
  unfolding try_again
  again_run now st p e = rw (try_again, e) refl

  again-IsSound : (now : T) (st : State T) (v : IsSound st) → IsSound (after_retry now v.row st)
  again-IsSound now st v = record {
    ends = v.ends;
    row = v.row;
    current = v.current;
    listed = v.listed;
    budget = leb_ℤ-less st.retry_count v.row.retry_max v.budget;
  }

  again_lem :
      (now : T) (st : State T) → IsSound st → Returns (try_again clock now st) λ r. IsSound r.1
  again_lem now st v =
      ((retry, after_retry now v.row st), again_run now st v.row v.current, again-IsSound now st v)

  noop_run :
      (now : T) (next : Bool) (st : State T)
      → clock.less now st.retry_timeout ≡ true
      → poll clock now next st ≡ ok (noop, st)
  unfolding poll
  noop_run now next st e = rw (poll, e) refl

  out_run :
      (now : T) (st : State T)
      → clock.less now st.retry_timeout ≡ false
      → leb_ℤ st.retry_count (pos 0) ≡ true
      → poll clock now false st ≡ ok (timeout, st)
  unfolding poll
  out_run now st e h = rw (poll, e, h) refl

  retry_run :
      (now : T) (next : Bool) (st : State T)
      → clock.less now st.retry_timeout ≡ false
      → leb_ℤ st.retry_count (pos 0) ≡ false
      → poll clock now next st ≡ try_again clock now st
  unfolding poll
  retry_run now next st e h = rw (poll, e, h) refl

  next_run :
      (now : T) (st : State T) (p : Row T) (r : ℤ × State T)
      → clock.less now st.retry_timeout ≡ false
      → leb_ℤ st.retry_count (pos 0) ≡ true
      → st.current ≡ some p
      → set clock p.timeout_next st ≡ ok r
      → poll clock now true st ≡ try_again clock now r.1
  unfolding poll timeout_next
  next_run now st p r e h c g = rw (poll, timeout_next, e, h, c, g) refl

  -- On a machine whose table has an end, whose current row is the first of its state in the table,
  -- and which has no more retries left than the row allows, `state_poll` returns, at any time and
  -- with or without going to the next state, and leaves a machine of which that is still true.
  pub poll_lem :
      (now : T) (next : Bool) (st : State T)
      → IsSound st
      → Returns (poll clock now next st) λ r. IsSound r.1
  poll_lem now next st v = elim (Bool-cases (clock.less now st.retry_timeout)) [
    | inl e ↦ ((noop, st), noop_run now next st e, v)
    | inr e ↦ elim (Bool-cases (leb_ℤ st.retry_count (pos 0))) [
      | inr h ↦ let (r, run, w) = again_lem now st v in (r, retry_run now next st e h ∙ run, w)
      | inl h ↦ out now next st v e h
    ]
  ]
    where
      out :
          (now : T) (next : Bool) (st : State T)
          → IsSound st
          → clock.less now st.retry_timeout ≡ false
          → leb_ℤ st.retry_count (pos 0) ≡ true
          → Returns (poll clock now next st) λ r. IsSound r.1
      out now false st v e h = ((timeout, st), out_run now st e h, v)
      out now true st v e h =
          let (r, run, sw) = set_lem v.row.timeout_next st v.ends in
          let (r', run', w) = again_lem now r.1 (Switched-IsSound v.row.timeout_next st r v sw) in
          (r', next_run now st v.row r e h v.current run ∙ run', w)

  -- The number of retries that polls at the given times ask for, without going to the next state.
  abbrev pub retried : Poll → ℕ
  retried noop = 0
  retried retry = 1
  retried timeout = 0

  pub polls : List T → State T → Run (ℕ × State T)
  polls [] st = ok (0, st)
  polls (now ∷ times) st = do
    (r, st') ← poll clock now false st
    (n, st'') ← polls times st'
    ok (retried r + n, st'')

  polls_run :
      (now : T) (times : List T) (st st' st'' : State T) (r : Poll) (n : ℕ)
      → poll clock now false st ≡ ok (r, st')
      → polls times st' ≡ ok (n, st'')
      → polls (now ∷ times) st ≡ ok (retried r + n, st'')
  unfolding polls
  polls_run now times st st' st'' r n e h = rw (polls, e, h) refl

  one_poll :
      (now : T) (st : State T) (n : ℕ)
      → IsSound st
      → st.retry_count ≡ pos n
      → Returns
          (poll clock now false st)
          λ r. IsSound r.1 × (m : ℕ) × (r.1.retry_count ≡ pos m) × (retried r.0 + m ≡ n)
  unfolding ◌-ℤ◌
  one_poll now st n v e = elim (Bool-cases (clock.less now st.retry_timeout)) [
    | inl l ↦ ((noop, st), noop_run now false st l, (v, n, e, omega arith))
    | inr l ↦ elim (Bool-cases (leb_ℤ st.retry_count (pos 0))) [
      | inl h ↦ ((timeout, st), out_run now st l h, (v, n, e, omega arith))
      | inr h ↦ (
        (retry, after_retry now v.row st),
        retry_run now false st l h ∙ again_run now st v.row v.current,
        (let (m, c, d) = one_less n e (ap (λ c. leb_ℤ c (pos 0)) (sym e) ∙ h) in
            (again-IsSound now st v, m, c, d)),
      )
    ]
  ]
    where
      one_less :
          (n : ℕ)
          → st.retry_count ≡ pos n
          → leb_ℤ (pos n) (pos 0) ≡ false
          → (m : ℕ) × (st.retry_count -ℤ pos 1 ≡ pos m) × (1 + m ≡ n)
      one_less zero e h = absurd (ground arith)
      one_less (suc m) e h = (m, ap (λ c. c -ℤ pos 1) e ∙ down m, omega arith)
        where
          down : (m : ℕ) → pos (suc m) -ℤ pos 1 ≡ pos m
          down m = ground arith

  -- On a machine as before, with a number of retries left that is not negative, polls at any times
  -- that do not go to the next state all return, and as many of them say to try again as the
  -- number of retries left falls by, which does not fall below 0.
  pub polls_lem :
      (times : List T) (st : State T) (n : ℕ)
      → IsSound st
      → st.retry_count ≡ pos n
      → Returns
          (polls times st)
          λ r. IsSound r.1 × (m : ℕ) × (r.1.retry_count ≡ pos m) × (r.0 + m ≡ n)
  unfolding polls
  polls_lem [] st n v e = ((0, st), refl, (v, n, e, omega arith))
  polls_lem (now ∷ times) st n v e =
      let ((r, st'), run, (v', m, c, d)) = one_poll now st n v e in
      let ((k, st''), run', (v'', m', c', d')) = polls_lem times st' m v' c in
      (
        (retried r + k, st''),
        polls_run now times st st' st'' r k run run',
        (v'', m', c', omega (arith, d, d')),
      )
