-- ===== src/Hash/Walk.antt =====
-- hash.c: `hash_foreach`, and what goes over all nodes or buckets: `hash_clear` and `hash_stat`.
pub mod Stats
pub mod Visits
use bklib.Base.{
  ℕ, zero, suc, ◌+◌, Option, none, some, List, [], ◌∷◌, ◌++◌, Run, ok, fault, ◌>>=◌, ltb, ◌==◌,
  if◌then◌else◌,
}
use bklib.Base.Int.{ℤ, pos, is_zero}
use bklib.Array.{Array, load}
use bklib.Hash.{Node, Hash, Freed, releases}

-- The callback gets a node and a state of its own; it does not change the table.
module _ {K V S : Type 0} (func : Node K V → S → ℤ × S) where
  -- One bucket, with `j` nodes left, the last first.
  pub foreach_bucket : ℕ → Array (Node K V) → S → Run (ℤ × S)
  unfolding load
  foreach_bucket zero bucket s = ok (pos 0, s)
  foreach_bucket (suc j) bucket s = do
    x ← load bucket (pos j)
    let r = func x s
    if is_zero r.0 then foreach_bucket j bucket r.1 else ok r

  pub foreach_all : List (Array (Node K V)) → S → Run (ℤ × S)
  unfolding foreach_bucket
  foreach_all [] s = ok (pos 0, s)
  foreach_all (b ∷ bs) s = do
    r ← foreach_bucket b.count b s
    if is_zero r.0 then foreach_all bs r.1 else ok r

  -- `hash_foreach`: the first result that is not 0 stops it and is returned.
  unfoldable pub foreach : Hash K V → S → Run (ℤ × S)
  unfolding foreach_all
  foreach h s = elim h.buckets [
    | some bs ↦ foreach_all bs s
    | none ↦ if h.bucket_count == 0 then ok (pos 0, s) else fault
  ]

module _ {K V : Type 0} where
  -- `hash_foreach_free_node`, with the calls made so far.
  abbrev pub free_node : Hash K V → Node K V → List (Freed K V) → ℤ × List (Freed K V)
  free_node h x calls = (pos 0, calls ++ releases h x)

  -- `hash_clear`: the whole struct is zero after it.
  unfoldable pub clear : Hash K V → Run (Hash K V)
  unfolding foreach
  clear h = do
    r ← foreach (free_node h) h h.freed
    ok (record {
      buckets = none;
      bucket_count = 0;
      node_count = 0;
      node_sz = 0;
      free_key = none;
      free_val = none;
      freed = r.1;
    })

-- `hash_stat_t`. `avg` is a quotient of floats, `sum / used`: it is kept as the two numbers.
pub record Stat : Type 0 where
  pub count : ℕ
  pub used : ℕ
  pub max : ℕ
  pub sum : ℕ

module _ {K V : Type 0} where
  -- The loop of `hash_stat`.
  stat_loop : List (Array (Node K V)) → Stat → Stat
  stat_loop [] st = st
  stat_loop (a ∷ bs) st =
      let n = a.count in
      stat_loop bs (record st {
        sum = st.sum + n;
        max = if ltb st.max n then n else st.max;
        used = if ltb 0 n then st.used + 1 else st.used;
      })

  -- `hash_stat`.
  unfoldable pub stat : Hash K V → Run Stat
  unfolding stat_loop
  stat h = elim h.buckets [
    | some (a ∷ bs) ↦
        ok
          (stat_loop (a ∷ bs) (record { count = h.bucket_count; used = 0; max = a.count; sum = 0 }))
    | some [] ↦ ok (record { count = h.bucket_count; used = 0; max = 0; sum = 0 })
    | none ↦
        if h.bucket_count == 0 then ok (record { count = 0; used = 0; max = 0; sum = 0 }) else fault
  ]
