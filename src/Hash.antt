-- ===== src/Hash.antt =====
-- hash.c and hash.h: `hash_t`, a table of buckets, each an `array_t` of nodes.
-- The block of buckets is a list, and a loop over all buckets goes down it: `m_bucket` is allocated
-- with `m_bucket_count` elements wherever that is set.
-- A key and a value are values of `K` and `V`: with `m_key_sz` or `m_val_sz` they are the bytes copied
-- into the node, otherwise the pointers that the caller passes. A pointer to a node is the number of
-- its bucket and its place in it. An allocation that fails is followed through the null pointer, so
-- it is a `fault`.
pub mod Chains
pub mod Erase
pub mod Find
pub mod Free
pub mod Functions
pub mod Growth
pub mod Map
pub mod Modify
pub mod Resize
pub mod Table
mod Tests
pub mod Touch
pub mod Updates
pub mod Visit
pub mod Walk
use bklib.Base.{
  ℕ, zero, suc, ◌+◌, ◌*◌, ◌%◌, ◌^◌, Bool, true, false, ◌&&◌, ◌||◌, Option, none, some, List, [],
  ◌∷◌, ◌++◌, Run, ok, fault, ◌>>=◌, deref, leb, ltb, ◌==◌, if◌then◌else◌, length, replicate,
  get_elem?, set,
}
use bklib.Base.Int.{ℤ, pos, is_zero}
use bklib.Array.{Array, load, remove_ptr}
use bklib.Array.Cells.{Memory}
use bklib.Array
use bklib.Array.Grow

pub record Node (K V : Type 0) : Type 0 where
  pub key : K
  pub val : V
  pub hash : ℕ

-- `m_hash` and `m_cmp`; a hash is an `unsigned long`.
pub record Keys (K : Type 0) : Type 0 where
  pub hash : K → ℕ
  pub cmp : K → K → ℤ

-- A call of a free callback, by the number that names it, with what it is given.
pub data Freed (K V : Type 0) : Type 0 where
  key : ℕ → K → Freed K V
  val : ℕ → V → Freed K V

-- `freed` is no field of the struct: it keeps the calls of the free callbacks, in order.
pub record Hash (K V : Type 0) : Type 0 where
  pub buckets : Option (List (Array (Node K V)))
  pub bucket_count : ℕ
  pub node_count : ℕ
  pub node_sz : ℕ
  pub free_key : Option ℕ
  pub free_val : Option ℕ
  pub freed : List (Freed K V)

-- `HASH_DEFAULT_BUCKETS`, and the sizes of the two structs that are allocated.
abbrev pub default_buckets : ℕ
default_buckets = 17

abbrev pub sizeof_node : ℕ
sizeof_node = 24

abbrev pub sizeof_array : ℕ
sizeof_array = 48

-- `h % m_bucket_count`
unfoldable pub slot : ℕ → ℕ → Run ℕ
slot h zero = fault
slot h (suc n) = ok (h % suc n)

-- The doubling loop of `hash_resize_next`, on fuel, over 32-bit words: one from 2 ^ 31 on is a
-- negative `int`.
pub next_power : ℕ → ℕ → ℕ → ℕ
next_power zero buckets i = i
next_power (suc fuel) buckets i =
    let rest = next_power fuel buckets (i * 2 % 2 ^ 32) in
    if i == 0 then 0 else if leb i buckets || leb (2 ^ 31) i then rest else i

-- `hash_resize_next`: 33 shifts bring any word to 0.
unfoldable pub resize_next : ℕ → ℕ
resize_next buckets = let i = next_power 33 buckets 1 in if i == 0 then buckets + 1 else i + 1

module _ {K V : Type 0} where
  unfoldable pub set_free : Option ℕ → Option ℕ → Hash K V → Hash K V
  set_free free_key free_val h = record h { free_key = free_key; free_val = free_val }

  -- The node that a pointer points to.
  unfoldable pub read : ℕ × ℕ → Hash K V → Run (Node K V)
  unfolding load
  read (i, j) h = do
    buckets ← deref h.buckets
    bucket ← deref (get_elem? buckets i)
    load bucket (pos j)

  -- `hash_free_node`: the calls that it makes.
  abbrev pub releases : Hash K V → Node K V → List (Freed K V)
  releases h node =
      elim h.free_key [ none ↦ [] | some f ↦ key f node.key ∷ [] ]
      ++ elim h.free_val [ none ↦ [] | some f ↦ val f node.val ∷ [] ]

  -- `hash_free`: the bucket is found by the node's hash, and must be the one that the node is in.
  unfoldable pub free : Option (ℕ × ℕ) → Hash K V → Run (Hash K V)
  unfolding slot read remove_ptr
  free none h = ok h
  free (some (i, j)) h = do
    node ← read (i, j) h
    i' ← slot node.hash h.bucket_count
    buckets ← deref h.buckets
    bucket ← deref (get_elem? buckets i')
    bucket' ← if i' == i then remove_ptr j bucket else fault
    elim h.node_count [
      | zero ↦ fault
      | suc n ↦ ok (record h {
        buckets = some (set buckets i' bucket');
        node_count = n;
        freed = h.freed ++ releases h node;
      })
    ]

module _ {K V : Type 0} (keys : Keys K) where
  -- Whether a node holds the key: the hashes are compared first.
  abbrev pub holds : K → Node K V → Bool
  holds k node = keys.hash k == node.hash && is_zero (keys.cmp k node.key)

  -- The loop of `hash_get` over a bucket, with `j` nodes left, the last first.
  pub scan : K → ℕ → Array (Node K V) → Run (Option ℕ)
  unfolding load
  scan k zero bucket = ok none
  scan k (suc j) bucket = do
    node ← load bucket (pos j)
    if holds k node then ok (some j) else scan k j bucket

  -- `hash_get`: a pointer to the node with the key, or null.
  unfoldable pub get : K → Hash K V → Run (Option (ℕ × ℕ))
  unfolding slot scan
  get k h = do
    i ← slot (keys.hash k) h.bucket_count
    buckets ← deref h.buckets
    bucket ← deref (get_elem? buckets i)
    p ← scan k bucket.count bucket
    ok (elim p [ none ↦ none | some j ↦ some (i, j) ])

  -- `hash_remove`.
  unfoldable pub remove : K → Hash K V → Run (Hash K V)
  unfolding get free
  remove k h = do p ← get k h; free p h

module _ {K V : Type 0} (mem : Memory (Node K V)) where
  -- `array_add` to the bucket of the node's hash, of `n` buckets, and the copy of the node into it.
  pub push : ℕ → Node K V → List (Array (Node K V)) → Run (List (Array (Node K V)))
  unfolding slot Grow.append
  push n node buckets = do
    i ← slot node.hash n
    bucket ← deref (get_elem? buckets i)
    (p, bucket') ← Grow.append mem (node ∷ []) bucket
    deref p >>= λ _. ok (set buckets i bucket')

  -- One old bucket, its last `j` nodes still to be moved, the last first.
  pub move_bucket :
      ℕ → ℕ → Array (Node K V) → List (Array (Node K V)) → Run (List (Array (Node K V)))
  unfolding push load
  move_bucket n zero old buckets = ok buckets
  move_bucket n (suc j) old buckets = do
    node ← load old (pos j)
    buckets' ← push n node buckets
    move_bucket n j old buckets'

  pub move_all :
      ℕ → List (Array (Node K V)) → List (Array (Node K V)) → Run (List (Array (Node K V)))
  unfolding move_bucket
  move_all n [] buckets = ok buckets
  move_all n (old ∷ olds) buckets = move_bucket n old.count old buckets >>= move_all n olds

  -- `hash_resize`.
  unfoldable pub resize : ℕ → Hash K V → Run (Hash K V)
  unfolding move_all Array.init
  resize n h =
      let fresh = replicate n (Array.init h.node_sz (pos 1)) in
      let old : List (Array (Node K V)) = elim h.buckets [ none ↦ [] | some bs ↦ bs ] in
      if mem.grant (n * sizeof_array)
      then (do
        buckets ← move_all n old fresh
        ok (record h { buckets = some buckets; bucket_count = n }))
      else fault

  -- `hash_init`.
  unfoldable pub init : ℕ → ℕ → ℕ → Run (Hash K V)
  unfolding resize
  init key_sz val_sz buckets = resize (if buckets == 0 then default_buckets else buckets) (record {
    buckets = none;
    bucket_count = 0;
    node_count = 0;
    node_sz = sizeof_node + key_sz + val_sz;
    free_key = none;
    free_val = none;
    freed = [];
  })

  -- The growth in `hash_put`.
  pub grow : Hash K V → Run (Hash K V)
  unfolding resize resize_next
  grow h =
      if ltb (3 * h.bucket_count) h.node_count then resize (resize_next h.bucket_count) h else ok h

module _ {K V : Type 0} (keys : Keys K) (mem : Memory (Node K V)) where
  -- `hash_put`. The value is the one that the node has then: what `val` points to, or the zeros of
  -- `array_add` if `val` is null and values are copied.
  unfoldable pub put : K → V → Hash K V → Run (Hash K V)
  unfolding get free grow push
  put k v h = do
    p ← get keys k h
    h' ← free p h
    h'' ← grow mem h'
    buckets ← deref h''.buckets
    buckets' ← push mem h''.bucket_count (record { key = k; val = v; hash = keys.hash k }) buckets
    ok (record h'' { buckets = some buckets'; node_count = h''.node_count + 1 })
