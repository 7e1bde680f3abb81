-- ===== src/Pool/Tests.antt =====
-- The pool's theorems at a pool with one pointer, which has two references.
use bklib.Base.{
  ℕ, zero, suc, ◌<◌, ◌≡◌, refl, true, Option, none, some, List, [], ◌∷◌, ◌++◌, ok, Returns, arith,
  if◌then◌else◌, get_elem?, subst, Run, ◌>>=◌,
}
use bklib.Base.Int.{pos}
use bklib.Array.{Array}
use bklib.Array.Contents
use bklib.Array.Cells.{Memory}
use bklib.Hash.{Node}
use bklib.Hash.Chains.{count, last_match, same, homed}
use bklib.Hash.Functions.{hash_int, cmp_int, int_keys}
use bklib.Hash.Table.{IsTable, chain}
use bklib.Hash.Map.{Models, update}
use bklib.Hash.Touch.{map_val}
use bklib.Pool.{PoolNode, Pool, addref, free, add, counted_up}
use bklib.Pool.Counts.{freed_by_drop, count_of, addref_lem, Dropped, free_lem, add-Models}
use mathlib.Core.Option.{some-injective}

abbrev shared : PoolNode
shared = record { ptr = 8; refcount = pos 2; free = some 5 }

abbrev node : Node ℕ PoolNode
node = record { key = 8; val = shared; hash = 8 }

abbrev plenty : Memory (Node ℕ PoolNode)
plenty = record { grant = λ _. true; zeroed = node; junk = node }

abbrev bucket : Array (Node ℕ PoolNode)
bucket = record {
  eltsz = 56;
  blocksz = 1;
  cells = some (node ∷ []);
  count = 1;
  max = 1;
  free_func = none;
}

abbrev pool : Pool
pool = record {
  hash = record {
    buckets = some (bucket ∷ []);
    bucket_count = 1;
    node_count = 1;
    node_sz = 56;
    free_key = none;
    free_val = none;
    freed = [];
  };
  released = [];
}

bucket-IsValid : Contents.IsValid bucket
bucket-IsValid = omega arith

one_bucket-IsTable : IsTable (bucket ∷ []) 1 (node ∷ [])
unfolding homed
one_bucket-IsTable = record { width = refl; valid = valid; chains = chains }
  where
    valid :
        (i : ℕ) (a : Array (Node ℕ PoolNode))
        → get_elem? (bucket ∷ []) i ≡ some a
        → Contents.IsValid a
    valid zero a e = subst Contents.IsValid (some-injective _ _ e) bucket-IsValid
    valid (suc i) a e = absurd cc

    chains : (i : ℕ) → i < 1 → chain (bucket ∷ []) i ≡ homed 1 i (node ∷ [])
    chains zero l = refl
    chains (suc i) l = absurd (omega arith)

abbrev contents : ℕ → Option PoolNode
contents q = if same int_keys q 8 then some shared else none

pool-Models : Models int_keys contents pool.hash
unfolding count last_match int_keys hash_int cmp_int
pool-Models = record {
  nodes = node ∷ [];
  valid = record {
    some_bucket = omega arith;
    sized = omega arith;
    buckets = bucket ∷ [];
    allocated = refl;
    table = one_bucket-IsTable;
    counted = refl;
    once = λ q. ground arith;
    hashed = (refl, tt);
  };
  reads = λ q. ground arith;
}

addref_lem_example : Returns (addref 8 pool) λ r.
    Models int_keys
      (update int_keys 8 (map_val int_keys 8 counted_up (contents 8)) contents)
      r.1.hash
    × (r.1.released ≡ [])
    × (r.0 ≡ count_of (map_val int_keys 8 counted_up (contents 8)))
addref_lem_example = addref_lem contents pool pool-Models 8 (omega arith)

free_lem_example : Returns (free 8 pool) (Dropped contents pool pool-Models 8)
free_lem_example = free_lem contents pool pool-Models 8 (omega arith)

add-Models_example : Returns (add plenty 16 none pool) λ r.
    Models int_keys
      (update int_keys 16 (some (record { ptr = 16; refcount = pos 1; free = none })) contents)
      r.hash
    × (r.released ≡ [] ++ freed_by_drop (contents 16))
add-Models_example = add-Models contents pool pool-Models 16 plenty none (λ n. refl) (omega arith)

-- Two frees of a pointer with two references: the second one frees it.
abbrev freed_twice : Run (List (Option ℕ × ℕ) × List (Option ℕ × ℕ))
unfolding free
freed_twice = do p ← free 8 pool; p' ← free 8 p; ok (p.released, p'.released)

freed_twice_lem : freed_twice ≡ ok ([], (some 5, 8) ∷ [])
unfolding freed_twice int_keys
freed_twice_lem = refl
