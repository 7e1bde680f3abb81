-- ===== src/Pool.antt =====
-- pool.c and pool.h: a pool of pointers with reference counts, kept in a hash table under the pointer.
-- A pointer is its address, 0 for null. What `malloc` and its like return is an argument. A callback
-- that frees a pointer is recorded; it does not use the pool itself.
pub mod Counts
mod Tests
use bklib.Base.{ℕ, Option, none, some, List, [], ◌∷◌, ◌++◌, Run, ok, ◌>>=◌, ◌==◌, if◌then◌else◌}
use bklib.Base.Int.{ℤ, pos, ◌+ℤ◌, ◌-ℤ◌, leb_ℤ}
use bklib.Array.Cells.{Memory}
use bklib.Hash
use bklib.Hash.{Hash, Node, read}
use bklib.Hash.Functions.{int_keys}
use bklib.Hash.Modify.{modify}
use bklib.Hash.Walk.{foreach}
use bklib.Hash.Walk

-- `pool_node_t`; `free` is a callback with its argument, by a number, or none for the C library's.
pub record PoolNode : Type 0 where
  pub ptr : ℕ
  pub refcount : ℤ
  pub free : Option ℕ

-- `released` keeps the pointers that were freed, each with what freed it, in order.
pub record Pool : Type 0 where
  pub hash : Hash ℕ PoolNode
  pub released : List (Option ℕ × ℕ)

abbrev sizeof_pool_node : ℕ
sizeof_pool_node = 32

abbrev pub counted_up : PoolNode → PoolNode
counted_up p = record p { refcount = p.refcount +ℤ pos 1 }

abbrev pub counted_down : PoolNode → PoolNode
counted_down p = record p { refcount = p.refcount -ℤ pos 1 }

-- `pool_find`: a pointer to the node.
unfoldable pub find : ℕ → Pool → Run (Option (ℕ × ℕ))
unfolding Hash.get int_keys
find ptr pool = Hash.get int_keys ptr pool.hash

-- `pool_remove`
unfoldable pub remove : ℕ → Pool → Run Pool
unfolding Hash.remove int_keys
remove ptr pool = do hash ← Hash.remove int_keys ptr pool.hash; ok (record pool { hash = hash })

-- `pool_addref`
unfoldable pub addref : ℕ → Pool → Run (ℤ × Pool)
unfolding find modify read
addref ptr pool = if ptr == 0 then ok (pos 0, pool) else do
  p ← find ptr pool
  elim p [
    | none ↦ ok (pos 0, pool)
    | some p ↦ do
      hash ← modify p counted_up pool.hash
      x ← read p hash
      ok (x.val.refcount, record pool { hash = hash })
  ]

-- The end of `pool_free`, with a pointer to the node.
unfoldable pub drop_ref : ℕ → ℕ × ℕ → Pool → Run Pool
unfolding modify read remove
drop_ref ptr p pool = do
  hash ← modify p counted_down pool.hash
  x ← read p hash
  if leb_ℤ x.val.refcount (pos 0)
      then remove ptr
          (record { hash = hash; released = pool.released ++ (x.val.free, x.val.ptr) ∷ [] })
      else ok (record pool { hash = hash })

-- `pool_free`
unfoldable pub free : ℕ → Pool → Run Pool
unfolding find drop_ref
free ptr pool =
    if ptr == 0
    then ok pool
    else do p ← find ptr pool; elim p [ none ↦ ok pool | some p ↦ drop_ref ptr p pool ]

-- `pool_foreach_free`
abbrev pub free_node : Node ℕ PoolNode → List (Option ℕ × ℕ) → ℤ × List (Option ℕ × ℕ)
free_node x calls = (pos 0, calls ++ (x.val.free, x.val.ptr) ∷ [])

module _ (mem : Memory (Node ℕ PoolNode)) where
  -- `pool_new`
  unfoldable pub new : Run Pool
  unfolding Hash.init
  new = do hash ← Hash.init mem 0 sizeof_pool_node 0; ok (record { hash = hash; released = [] })

  -- `pool_add`: the fields that it sets in the node that `hash_put` returns are put with it.
  unfoldable pub add : ℕ → Option ℕ → Pool → Run Pool
  unfolding free Hash.put int_keys
  add ptr f pool = do
    pool' ← free ptr pool
    hash ← Hash.put int_keys mem ptr (record { ptr = ptr; refcount = pos 1; free = f }) pool'.hash
    ok (record pool' { hash = hash })

  -- `pool_malloc`, with what `calloc` returned.
  unfoldable pub malloc : ℕ → Pool → Run Pool
  unfolding add
  malloc ptr pool = add ptr none pool

  -- `pool_realloc`, with what `realloc` returned.
  unfoldable pub realloc : ℕ → ℕ → Pool → Run Pool
  unfolding remove add
  realloc ptr new_ptr pool = do pool' ← remove ptr pool; add new_ptr none pool'

  -- `pool_clear`
  unfoldable pub clear : Pool → Run Pool
  unfolding foreach Walk.clear Hash.init
  clear pool = do
    r ← foreach free_node pool.hash pool.released
    _ ← Walk.clear pool.hash
    hash ← Hash.init mem 0 sizeof_pool_node 0
    ok (record { hash = hash; released = r.1 })
