-- ===== src/State.antt =====
-- state.c and state.h: a table of states, each with the times and the number of its retries.
-- The rows of the table are not written, so a pointer to one is the row; an empty list stands for a
-- null table. A time is a `double`: what the code does with one is the parameter `Clock`.
pub mod Retries
pub mod Rows
mod Tests
use bklib.Base.{
  ℕ, Bool, true, false, Option, none, some, List, [], ◌∷◌, Run, ok, fault, ◌>>=◌, deref,
  if◌then◌else◌,
}
use bklib.Base.Int.{ℤ, pos, negsuc, ◌-ℤ◌, is_zero, leb_ℤ}

pub record Clock (T : Type 0) : Type 0 where
  pub zero_time : T
  pub add : T → T → T
  pub less : T → T → Bool

-- `state_table_t`; `arg` is not used.
pub record Row (T : Type 0) : Type 0 where
  pub state : ℤ
  pub retry_interval : T
  pub retry_max : ℤ
  pub timeout_next : ℤ

pub record State (T : Type 0) : Type 0 where
  pub table : List (Row T)
  pub current : Option (Row T)
  pub retry_timeout : T
  pub retry_count : ℤ

pub data Poll : Type 0 where
  noop retry timeout : Poll

abbrev pub same_state : ℤ → ℤ → Bool
unfolding ◌-ℤ◌
same_state a b = is_zero (a -ℤ b)

module _ {T : Type 0} where
  abbrev first_row : List (Row T) → Option (Row T)
  first_row [] = none
  first_row (p ∷ ps) = some p

  -- The loop of `state_set`, up to the row with `retry_max` 0.
  pub find_row : ℤ → List (Row T) → Run (Option (Row T))
  find_row new_state [] = fault
  find_row new_state (p ∷ ps) =
      let rest = find_row new_state ps in
      if is_zero p.retry_max
      then ok none
      else if same_state p.state new_state
      then ok (some p)
      else rest

  -- `state_get`
  unfoldable pub get : State T → ℤ
  get st = elim st.current [ none ↦ pos 0 | some p ↦ p.state ]

module _ {T : Type 0} (clock : Clock T) where
  -- `state_init`
  unfoldable pub init : List (Row T) → State T
  init table = record {
    table = table;
    current = first_row table;
    retry_timeout = clock.zero_time;
    retry_count = pos 0;
  }

  -- `state_set`
  unfoldable pub set : ℤ → State T → Run (ℤ × State T)
  unfolding find_row
  set new_state st = do
    p ← find_row new_state st.table
    elim p [
      | none ↦ ok (negsuc 0, st)
      | some p ↦ ok (
        pos 0,
        record st { current = some p; retry_timeout = clock.zero_time; retry_count = p.retry_max },
      )
    ]

  -- `state_timeout_next`
  unfoldable pub timeout_next : State T → Run (ℤ × State T)
  unfolding set
  timeout_next st = do p ← deref st.current; set p.timeout_next st

  -- The end of `state_poll`.
  unfoldable pub try_again : T → State T → Run (Poll × State T)
  unfolding ◌-ℤ◌
  try_again now st = do
    p ← deref st.current
    ok (
      retry,
      record st {
        retry_count = st.retry_count -ℤ pos 1;
        retry_timeout = clock.add now p.retry_interval;
      },
    )

  -- `state_poll`
  unfoldable pub poll : T → Bool → State T → Run (Poll × State T)
  unfolding timeout_next try_again
  poll now next st =
      let again = timeout_next st >>= λ r. try_again now r.1 in
      if clock.less now st.retry_timeout
      then ok (noop, st)
      else if leb_ℤ st.retry_count (pos 0)
      then if next then again else ok (timeout, st)
      else try_again now st
