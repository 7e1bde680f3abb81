-- ===== src/Pool/Counts.antt =====
-- `pool_addref`, `pool_free` and `pool_add` on the pool as a map from pointers to counted nodes.
use bklib.Base.{
  ℕ, ◌<◌, ◌≡◌, refl, sym, ap, ◌∙◌, true, false, Option, none, some, List, [], ◌∷◌, ◌++◌, ok,
  Returns, ==_zero_false, if◌then◌else◌, Bool-cases, inl, inr, append-nil, subst,
}
use bklib.Base.Int.{ℤ, pos, leb_ℤ}
use bklib.Array.Cells.{Memory}
use bklib.Hash
use bklib.Hash.{Hash, Node, read}
use bklib.Hash.Functions.{int_keys, int_keys-IsKeys}
use bklib.Hash.Find.{Located, get_lem}
use bklib.Hash.Map.{Models, update}
use bklib.Hash.Modify.{modify, modify-Models, same-Models, update-Models}
use bklib.Hash.Touch.{map_val, with_val}
use bklib.Hash.Updates.{remove-Models, put-Models}
use bklib.Hash.Table.{Grants}
use bklib.Pool.{PoolNode, Pool, find, addref, free, drop_ref, remove, counted_up, counted_down, add}

-- The node of a pointer after one reference less, and what is freed.
abbrev pub after_drop : Option PoolNode → Option PoolNode
after_drop none = none
after_drop (some p) =
    if leb_ℤ (counted_down p).refcount (pos 0) then none else some (counted_down p)

abbrev pub freed_by_drop : Option PoolNode → List (Option ℕ × ℕ)
freed_by_drop none = []
freed_by_drop (some p) =
    if leb_ℤ (counted_down p).refcount (pos 0) then (p.free, p.ptr) ∷ [] else []

module _ (p : PoolNode) where
  last_drop : leb_ℤ (counted_down p).refcount (pos 0) ≡ true → after_drop (some p) ≡ none
  last_drop d = rw d refl

  last_freed :
      leb_ℤ (counted_down p).refcount (pos 0) ≡ true → freed_by_drop (some p) ≡ (p.free, p.ptr) ∷ []
  last_freed d = rw d refl

  not_last :
      leb_ℤ (counted_down p).refcount (pos 0) ≡ false → after_drop (some p) ≡ some (counted_down p)
  not_last d = rw d refl

  none_freed : leb_ℤ (counted_down p).refcount (pos 0) ≡ false → freed_by_drop (some p) ≡ []
  none_freed d = rw d refl

abbrev pub count_of : Option PoolNode → ℤ
count_of none = pos 0
count_of (some p) = p.refcount

module _ (f : ℕ → Option PoolNode) (pool : Pool) (m : Models int_keys f pool.hash) (ptr : ℕ) where
  addref_run :
      (p : ℕ × ℕ) (hash : Hash ℕ PoolNode) (x : Node ℕ PoolNode)
      → 0 < ptr
      → find ptr pool ≡ ok (some p)
      → modify p counted_up pool.hash ≡ ok hash
      → read p hash ≡ ok x
      → addref ptr pool ≡ ok (x.val.refcount, record pool { hash = hash })
  unfolding addref
  addref_run p hash x l a b c = rw (addref, ==_zero_false ptr l, a, b, c) refl

  addref-none : 0 < ptr → find ptr pool ≡ ok none → addref ptr pool ≡ ok (pos 0, pool)
  unfolding addref
  addref-none l a = rw (addref, ==_zero_false ptr l, a) refl

  -- On a pool that models a map from pointers to nodes and for a pointer that is not null,
  -- `pool_addref` adds a reference to the node of the pointer, frees nothing, and returns the new
  -- count, or 0 if there is no node.
  pub addref_lem :
      0 < ptr
      → Returns (addref ptr pool) λ r.
        Models int_keys (update int_keys ptr (map_val int_keys ptr counted_up (f ptr)) f) r.1.hash
        × (r.1.released ≡ pool.released)
        × (r.0 ≡ count_of (map_val int_keys ptr counted_up (f ptr)))
  unfolding find
  addref_lem l = go (get_lem int_keys ptr pool.hash m.nodes m.valid)
    where
      go :
          Returns (find ptr pool) (Located int_keys ptr pool.hash m.nodes m.valid)
          → Returns (addref ptr pool) λ r.
            Models int_keys
              (update int_keys ptr (map_val int_keys ptr counted_up (f ptr)) f)
              r.1.hash
            × (r.1.released ≡ pool.released)
            × (r.0 ≡ count_of (map_val int_keys ptr counted_up (f ptr)))
      go (none, run, e) =
          let nothing : f ptr ≡ none = sym (m.reads ptr) ∙ e in
          (
            (pos 0, pool),
            addref-none l run,
            (
              same-Models int_keys int_keys-IsKeys ptr pool.hash f m
                  (map_val int_keys ptr counted_up (f ptr))
                  (nothing ∙ ap (map_val int_keys ptr counted_up) (sym nothing)),
              refl,
              ap (λ o. count_of (map_val int_keys ptr counted_up o)) (sym nothing),
            ),
          )
      go (some p, run, at) =
          let (hash, run', (m', _, _, x, e, here)) =
            modify-Models int_keys int_keys-IsKeys ptr pool.hash f m counted_up p at in
          (
            ((counted_up x.val).refcount, record pool { hash = hash }),
            addref_run p hash _ l run run' here,
            (m', refl, ap (λ o. count_of (map_val int_keys ptr counted_up o)) (sym e)),
          )

  keep_run :
      (p : ℕ × ℕ) (hash : Hash ℕ PoolNode) (x : Node ℕ PoolNode)
      → 0 < ptr
      → find ptr pool ≡ ok (some p)
      → modify p counted_down pool.hash ≡ ok hash
      → read p hash ≡ ok x
      → leb_ℤ x.val.refcount (pos 0) ≡ false
      → free ptr pool ≡ ok (record pool { hash = hash })
  unfolding free drop_ref
  keep_run p hash x l a b c d = rw (free, drop_ref, ==_zero_false ptr l, a, b, c, d) refl

  drop_run :
      (p : ℕ × ℕ) (hash hash' : Hash ℕ PoolNode) (x : Node ℕ PoolNode)
      → 0 < ptr
      → find ptr pool ≡ ok (some p)
      → modify p counted_down pool.hash ≡ ok hash
      → read p hash ≡ ok x
      → leb_ℤ x.val.refcount (pos 0) ≡ true
      → Hash.remove int_keys ptr hash ≡ ok hash'
      → free ptr pool
        ≡ ok (record { hash = hash'; released = pool.released ++ (x.val.free, x.val.ptr) ∷ [] })
  unfolding free drop_ref remove
  drop_run p hash hash' x l a b c d e =
      rw (free, drop_ref, remove, ==_zero_false ptr l, a, b, c, d, e) refl

  none_run : 0 < ptr → find ptr pool ≡ ok none → free ptr pool ≡ ok pool
  unfolding free
  none_run l a = rw (free, ==_zero_false ptr l, a) refl

  abbrev pub Dropped : Pool → Type 0
  Dropped pool' =
      Models int_keys (update int_keys ptr (after_drop (f ptr)) f) pool'.hash
      × (pool'.released ≡ pool.released ++ freed_by_drop (f ptr))

  -- On a pool that models a map from pointers to nodes and for a pointer that is not null,
  -- `pool_free` returns. A node with more than one reference loses one and nothing is freed; one
  -- with no more than that leaves the map and its pointer is freed once, with its own function; a
  -- pointer without a node changes nothing.
  pub free_lem : 0 < ptr → Returns (free ptr pool) Dropped
  unfolding find
  free_lem l = go (get_lem int_keys ptr pool.hash m.nodes m.valid)
    where
      go :
          Returns (find ptr pool) (Located int_keys ptr pool.hash m.nodes m.valid)
          → Returns (free ptr pool) Dropped
      go (none, run, e) =
          let nothing : f ptr ≡ none = sym (m.reads ptr) ∙ e in
          (
            pool,
            none_run l run,
            (
              same-Models int_keys int_keys-IsKeys ptr pool.hash f m (after_drop (f ptr))
                  (nothing ∙ ap after_drop (sym nothing)),
              sym (append-nil pool.released)
                  ∙ ap (λ o. pool.released ++ freed_by_drop o) (sym nothing),
            ),
          )
      go (some p, run, at) =
          let (hash, run', (m', _, _, x, e, here)) =
            modify-Models int_keys int_keys-IsKeys ptr pool.hash f m counted_down p at in
          drop p hash x run run'
            (subst
              (λ o.
                Models int_keys (update int_keys ptr (map_val int_keys ptr counted_down o) f) hash)
              e m')
            e here
        where
          drop :
              (p : ℕ × ℕ) (hash : Hash ℕ PoolNode) (x : Node ℕ PoolNode)
              → find ptr pool ≡ ok (some p)
              → modify p counted_down pool.hash ≡ ok hash
              → Models int_keys (update int_keys ptr (some (counted_down x.val)) f) hash
              → f ptr ≡ some x.val
              → read p hash ≡ ok (with_val counted_down x)
              → Returns (free ptr pool) Dropped
          drop p hash x run run' m' e here =
              elim (Bool-cases (leb_ℤ (counted_down x.val).refcount (pos 0))) [
                | inl d ↦
                    let (hash', run'', (m'', _)) =
                      remove-Models int_keys int_keys-IsKeys ptr hash
                        (update int_keys ptr (some (counted_down x.val)) f) m' in
                    (
                      record {
                        hash = hash';
                        released = pool.released ++ (x.val.free, x.val.ptr) ∷ [];
                      },
                      drop_run p hash hash' _ l run run' here d run'',
                      (
                        subst (λ o. Models int_keys (update int_keys ptr o f) hash')
                            (sym (ap after_drop e ∙ last_drop x.val d))
                            (update-Models int_keys int_keys-IsKeys ptr pool.hash f m
                              (some (counted_down x.val)) none hash' m''),
                        ap (λ c. pool.released ++ c)
                            (sym (ap freed_by_drop e ∙ last_freed x.val d)),
                      ),
                    )
                | inr d ↦ (
                  record pool { hash = hash },
                  keep_run p hash _ l run run' here d,
                  (
                    subst (λ o. Models int_keys (update int_keys ptr o f) hash)
                        (sym (ap after_drop e ∙ not_last x.val d)) m',
                    sym (append-nil pool.released)
                        ∙ ap (λ c. pool.released ++ c)
                            (sym (ap freed_by_drop e ∙ none_freed x.val d)),
                  ),
                )
              ]

module _ (f : ℕ → Option PoolNode) (pool : Pool) (m : Models int_keys f pool.hash) (ptr : ℕ)
    (mem : Memory (Node ℕ PoolNode)) (fr : Option ℕ) where
  abbrev pub registered : PoolNode
  registered = record { ptr = ptr; refcount = pos 1; free = fr }

  add_run :
      (pool' : Pool) (hash : Hash ℕ PoolNode)
      → free ptr pool ≡ ok pool'
      → Hash.put int_keys mem ptr registered pool'.hash ≡ ok hash
      → add mem ptr fr pool ≡ ok (record pool' { hash = hash })
  unfolding add
  add_run pool' hash a b = rw (add, a, b) refl

  -- On a pool that models a map from pointers to nodes, with memory always granted and for a
  -- pointer that is not null, `pool_add` makes a node with one reference and the given function
  -- the node of the pointer; before that a node that was there is dropped as `pool_free` does.
  pub add-Models :
      Grants mem
      → 0 < ptr
      → Returns (add mem ptr fr pool) λ r.
        Models int_keys (update int_keys ptr (some registered) f) r.hash
        × (r.released ≡ pool.released ++ freed_by_drop (f ptr))
  add-Models g l =
      let (pool', run, (m', e)) = free_lem f pool m ptr l in
      let (hash, run', (m'', _)) =
        put-Models int_keys int_keys-IsKeys ptr pool'.hash
          (update int_keys ptr (after_drop (f ptr)) f) m' mem registered g in
      (
        record pool' { hash = hash },
        add_run pool' hash run run',
        (
          update-Models int_keys int_keys-IsKeys ptr pool.hash f m (after_drop (f ptr))
              (some registered) hash m'',
          e,
        ),
      )
