-- ===== src/State/Tests.antt =====
-- The theorems on the retry machine at a concrete table with times in milliseconds.
use bklib.Base.{
  ℕ, ◌+◌, ◌≡◌, refl, true, false, some, List, [], ◌∷◌, Run, ok, ◌>>=◌, Returns, ltb, inl, inr,
}
use bklib.Base.Int.{pos, ◌-ℤ◌}
use bklib.State.{Clock, Row, State, Poll, noop, retry, timeout, init, set, poll, same_state}
use bklib.State.Retries.{IsSound, poll_lem, polls, polls_lem}

abbrev clock : Clock ℕ
clock = record { zero_time = 0; add = λ a b. a + b; less = ltb }

abbrev row : ℕ → ℕ → ℕ → Row ℕ
row s max next = record {
  state = pos s;
  retry_interval = 10;
  retry_max = pos max;
  timeout_next = pos next;
}

-- Two states with two and three tries, each the other's successor.
abbrev table : List (Row ℕ)
table = row 1 2 2 ∷ row 2 3 1 ∷ row 0 0 0 ∷ []

abbrev machine : State ℕ
machine = record {
  table = table;
  current = some (row 1 2 2);
  retry_timeout = 0;
  retry_count = pos 2;
}

machine-IsSound : IsSound machine
unfolding same_state ◌-ℤ◌
machine-IsSound = record {
  ends = inr (inr (inl refl));
  row = row 1 2 2;
  current = refl;
  listed = (pos 1, (refl, inl (refl, refl)));
  budget = refl;
}

poll_lem_example : Returns (poll clock 5 true machine) λ r. IsSound r.1
poll_lem_example = poll_lem clock 5 true machine machine-IsSound

polls_lem_example :
    Returns
      (polls clock (5 ∷ 6 ∷ 20 ∷ 40 ∷ []) machine)
      λ r. IsSound r.1 × (m : ℕ) × (r.1.retry_count ≡ pos m) × (r.0 + m ≡ 2)
polls_lem_example = polls_lem clock (5 ∷ 6 ∷ 20 ∷ 40 ∷ []) machine 2 machine-IsSound refl

-- From the start: the first state, two tries, and the next state.
abbrev trial : Run (Poll × Poll × Poll × Poll)
unfolding init set poll
trial = do
  (_, st) ← set clock (pos 1) (init clock table)
  (a, st) ← poll clock 5 true st
  (b, st) ← poll clock 6 true st
  (c, st) ← poll clock 20 true st
  (d, st) ← poll clock 40 false st
  ok (a, b, c, d)

trial_lem : trial ≡ ok (retry, noop, retry, timeout)
unfolding trial
trial_lem = refl
