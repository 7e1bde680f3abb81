-- ===== src/Hash/Tests.antt =====
-- The table's theorems at a concrete table with integer keys, and runs of its operations.
use bklib.Base.{
  ℕ, zero, suc, ◌+◌, ◌^◌, ◌≤◌, ◌<◌, ◌≡◌, refl, true, Option, none, some, List, [], ◌∷◌, ◌++◌, ok,
  Returns, arith, if◌then◌else◌, length, get_elem?, ◌==◌, ◌%◌, subst, ◌>>=◌,
}
use bklib.Base.Int.{ℤ, pos, negsuc, is_zero}
use bklib.Array.{Array}
use bklib.Array.Contents
use bklib.Array.Cells.{Memory}
use bklib.Hash.{Node, Hash, init, get, put, remove, resize, resize_next}
use bklib.Hash.Chains.{count, last_match, same, homed}
use bklib.Hash.Functions.{hash_int, cmp_int, int_keys, int_keys-IsKeys, int_keys_lem}
use bklib.Hash.Table.{IsTable, chain}
use bklib.Hash.Find.{IsValid}
use bklib.Hash.Map.{Models, update, resize_lem}
use bklib.Hash.Updates.{Finds, Freeing, Replacing, get-Models, remove-Models, put-Models}
use bklib.Hash.Growth.{resize_next_lem}
use bklib.Hash.Walk.{foreach, clear}
use bklib.Hash.Walk.Visits.{foreach_lem, clear_lem, until_stop, all_visited, all_releases}
use mathlib.Core.Option.{some-injective}

abbrev four : Node ℕ ℕ
four = record { key = 4; val = 40; hash = 4 }

abbrev seven : Node ℕ ℕ
seven = record { key = 7; val = 70; hash = 7 }

abbrev plenty : Memory (Node ℕ ℕ)
plenty = record { grant = λ _. true; zeroed = four; junk = seven }

abbrev bucket : Node ℕ ℕ → Array (Node ℕ ℕ)
bucket x = record {
  eltsz = 24;
  blocksz = 1;
  cells = some (x ∷ []);
  count = 1;
  max = 1;
  free_func = none;
}

-- Two keys in two buckets, with a callback for the values.
abbrev two_buckets : List (Array (Node ℕ ℕ))
two_buckets = bucket four ∷ bucket seven ∷ []

abbrev table : Hash ℕ ℕ
table = record {
  buckets = some two_buckets;
  bucket_count = 2;
  node_count = 2;
  node_sz = 24;
  free_key = none;
  free_val = some 1;
  freed = [];
}

abbrev nodes : List (Node ℕ ℕ)
nodes = four ∷ seven ∷ []

bucket-IsValid : (x : Node ℕ ℕ) → Contents.IsValid (bucket x)
bucket-IsValid x = omega arith

two_buckets-IsTable : IsTable two_buckets 2 nodes
unfolding homed
two_buckets-IsTable = record { width = refl; valid = valid; chains = chains }
  where
    valid : (i : ℕ) (a : Array (Node ℕ ℕ)) → get_elem? two_buckets i ≡ some a → Contents.IsValid a
    valid zero a e = subst Contents.IsValid (some-injective _ _ e) (bucket-IsValid four)
    valid (suc zero) a e = subst Contents.IsValid (some-injective _ _ e) (bucket-IsValid seven)
    valid (suc (suc i)) a e = absurd cc

    chains : (i : ℕ) → i < 2 → chain two_buckets i ≡ homed 2 i nodes
    chains zero l = refl
    chains (suc zero) l = refl
    chains (suc (suc i)) l = absurd (omega arith)

table-IsValid : IsValid int_keys table nodes
unfolding count int_keys
table-IsValid = record {
  some_bucket = omega arith;
  sized = omega arith;
  buckets = two_buckets;
  allocated = refl;
  table = two_buckets-IsTable;
  counted = refl;
  once = once;
  hashed = (refl, (refl, tt));
}
  where
    once : (q : ℕ) → count int_keys q nodes ≤ 1
    once q = ground arith

abbrev contents : ℕ → Option ℕ
contents q = if same int_keys q 7 then some 70 else if same int_keys q 4 then some 40 else none

table-Models : Models int_keys contents table
unfolding last_match int_keys hash_int cmp_int
table-Models = record { nodes = nodes; valid = table-IsValid; reads = λ q. ground arith }

resize_lem_example : Returns (resize plenty 5 table) λ h.
    Models int_keys contents h
    × (h.bucket_count ≡ 5)
    × (h.node_count ≡ 2)
    × (h.freed ≡ [])
    × (h.node_sz ≡ 24)
resize_lem_example =
    resize_lem int_keys plenty (λ n. refl) 5 table contents (omega arith) table-Models

get-Models_example :
    Returns (get int_keys 7 table) (Finds int_keys int_keys-IsKeys 7 table contents table-Models)
get-Models_example = get-Models int_keys int_keys-IsKeys 7 table contents table-Models

remove-Models_example : Returns (remove int_keys 4 table) λ h.
    Models int_keys (update int_keys 4 none contents) h
    × Freeing int_keys int_keys-IsKeys 4 table contents table-Models (contents 4) table h
remove-Models_example = remove-Models int_keys int_keys-IsKeys 4 table contents table-Models

put-Models_example : Returns (put int_keys plenty 7 71 table) λ h.
    Models int_keys (update int_keys 7 (some 71) contents) h
    × Replacing int_keys int_keys-IsKeys 7 table contents table-Models (contents 7) table h
put-Models_example =
    put-Models int_keys int_keys-IsKeys 7 table contents table-Models plenty 71 (λ n. refl)

resize_next_lem_example : (k : ℕ) × (resize_next 17 ≡ 2 ^ k + 1) × (17 < 2 ^ k) × (2 ^ k ≤ 35)
resize_next_lem_example = resize_next_lem 17 (omega arith)

abbrev add_value : Node ℕ ℕ → ℕ → ℤ × ℕ
add_value x n = (pos 0, n + x.val)

foreach_lem_example :
    foreach add_value table 0
    ≡ ok (until_stop add_value (all_visited int_keys table nodes table-IsValid) 0)
foreach_lem_example = foreach_lem int_keys table nodes table-IsValid add_value 0

clear_lem_example : Returns (clear table) λ r.
    (r.freed
      ≡ []
        ++ all_releases int_keys table nodes table-IsValid
            (all_visited int_keys table nodes table-IsValid))
    × (r.node_count ≡ 0)
    × (r.bucket_count ≡ 0)
    × (r.buckets ≡ none)
    × (length (all_visited int_keys table nodes table-IsValid) ≡ 2)
    × ((q : ℕ)
        → count int_keys q (all_visited int_keys table nodes table-IsValid)
          ≡ count int_keys q nodes)
clear_lem_example = clear_lem int_keys table nodes table-IsValid

int_keys_lem_example :
    (same int_keys 5 (5 + 2 ^ 32) ≡ (5 % 2 ^ 64 == (5 + 2 ^ 32) % 2 ^ 64))
    × (is_zero (cmp_int 5 (5 + 2 ^ 32)) ≡ (5 % 2 ^ 32 == (5 + 2 ^ 32) % 2 ^ 32))
    × (cmp_int ((5 + 2 ^ 32 + 3) % 2 ^ 64) (5 + 2 ^ 32) ≡ pos 3)
    × (cmp_int (5 + 2 ^ 32) ((5 + 2 ^ 32 + 3 + 1) % 2 ^ 64) ≡ negsuc 3)
int_keys_lem_example = int_keys_lem 5 (5 + 2 ^ 32) 3 (omega arith)

abbrev small_a : List ℕ
small_a = b'a' ∷ []

abbrev big_a : List ℕ
big_a = b'A' ∷ []

-- A value is found after it is put, in a table that `hash_init` made, and not after it is removed.
put-get :
    (do h ← init plenty 0 0 0; h ← put int_keys plenty 21 5 h; get int_keys 21 h) ≡ ok (some (4, 0))
unfolding init put get int_keys
put-get = refl
