-- ===== src/Hash/Map.antt =====
-- The table as a map from keys to values; `hash_init`, and `hash_resize`, which keeps it.
use bklib.Base.{
  ℕ, ◌+◌, ◌*◌, ◌<◌, ◌≡◌, refl, sym, ap, ◌∙◌, Option, none, some, List, [], Returns, arith, ltb,
  ◌==◌, if◌then◌else◌, inl, inr, Bool-cases, subst, replicate, get_elem?_lt,
}
use bklib.Base.Int.{pos}
use bklib.Array
use bklib.Array.{Array}
use bklib.Array.Cells.{Memory}
use bklib.Hash.{
  Node, Hash, Keys, init, grow, resize, resize_next, sizeof_array, sizeof_node, default_buckets,
}
use bklib.Hash.Chains.{last_match, count, homed, same}
use bklib.Hash.Table.{Grants, IsTable, chain_of}
use bklib.Hash.Visit.{visited, visited_same, length-visited, Hashed-visited}
use bklib.Hash.Resize.{fresh-IsTable, move_all_lem}
use bklib.Hash.Find.{IsValid}

module _ {K V : Type 0} (keys : Keys K) where
  -- The table is well formed, and a key finds in it what `f` says.
  pub record Models (f : K → Option V) (h : Hash K V) : Type 0 where
    pub nodes : List (Node K V)
    pub valid : IsValid keys h nodes
    pub reads : (q : K) → last_match keys q nodes ≡ f q

  -- `f` with `v` at `k`, and at the keys that are one with it.
  abbrev pub update : K → Option V → (K → Option V) → K → Option V
  update k v f q = if same keys q k then v else f q

  module _ (mem : Memory (Node K V)) (g : Grants mem) where
    -- With memory granted and at least one bucket asked for, `hash_resize` of a well-formed table
    -- that models a map returns a table with that many buckets which models the same map, with the
    -- same count of nodes and no callback called.
    pub resize_lem :
        (n : ℕ) (h : Hash K V) (f : K → Option V)
        → 0 < n
        → Models f h
        → Returns (resize mem n h) λ h'.
          Models f h'
          × (h'.bucket_count ≡ n)
          × (h'.node_count ≡ h.node_count)
          × (h'.freed ≡ h.freed)
          × (h'.node_sz ≡ h.node_sz)
    unfolding resize
    resize_lem n h f some_bucket m =
        let v = m.valid in
        let t = v.table in
        let (bs, run, t') =
          move_all_lem mem g n some_bucket h.bucket_count v.buckets m.nodes 0 _ []
            (λ j a e. (
              t.valid j a e,
              sym (ap chain_of e)
                  ∙ t.chains j (omega (arith, get_elem?_lt v.buckets j a e, t.width))
                  ∙ ap (λ i. homed h.bucket_count i m.nodes) (omega arith),
            ))
            (fresh-IsTable h.node_sz n v.sized) in
        let alike =
          λ (q : K). visited_same keys q h.bucket_count m.nodes v.some_bucket (v.once q) in
        (
          record h { buckets = some bs; bucket_count = n },
          ground (arith, g (n * sizeof_array), v.allocated, run),
          (
            record {
              nodes = visited h.bucket_count m.nodes h.bucket_count 0;
              valid = record {
                some_bucket = some_bucket;
                sized = v.sized;
                buckets = bs;
                allocated = refl;
                table = subst (λ w. IsTable bs n (visited h.bucket_count m.nodes w 0)) t.width t';
                counted = v.counted ∙ sym (length-visited h.bucket_count m.nodes v.some_bucket);
                once = λ q. omega (arith, (alike q).0, v.once q);
                hashed = Hashed-visited keys h.bucket_count m.nodes h.bucket_count 0 v.hashed;
              };
              reads = λ q. (alike q).1 ∙ m.reads q;
            },
            refl,
            refl,
            refl,
            refl,
          ),
        )

    -- With memory granted, `hash_init` makes a well-formed table that models the empty map, for
    -- any sizes of key and value and any number of buckets asked for.
    pub init_lem :
        (key_sz val_sz buckets : ℕ)
        → Returns
            (init mem key_sz val_sz buckets)
            λ h. Models (λ _. none) h × (h.node_count ≡ 0) × (h.freed ≡ [])
    unfolding init resize last_match count
    init_lem key_sz val_sz buckets =
        let n = if buckets == 0 then default_buckets else buckets in
        let node_sz = sizeof_node + key_sz + val_sz in
        let fresh = replicate n (Array.init {A = Node K V} node_sz (pos 1)) in
        (
          record {
            buckets = some fresh;
            bucket_count = n;
            node_count = 0;
            node_sz = node_sz;
            free_key = none;
            free_val = none;
            freed = [];
          },
          ground (arith, g (n * sizeof_array)),
          (
            record {
              nodes = [];
              valid = record {
                some_bucket = ground arith;
                sized = omega arith;
                buckets = fresh;
                allocated = refl;
                table = fresh-IsTable node_sz n (omega arith);
                counted = refl;
                once = λ q. omega arith;
                hashed = tt;
              };
              reads = λ q. refl;
            },
            refl,
            refl,
          ),
        )

    pub resize_next_pos : (n : ℕ) → 0 < resize_next n
    unfolding resize_next
    resize_next_pos n = ground arith

    -- The growth of `hash_put` changes nothing that a key finds.
    pub grow_lem :
        (h : Hash K V) (f : K → Option V)
        → Models f h
        → Returns
            (grow mem h)
            λ h'. Models f h' × (h'.node_count ≡ h.node_count) × (h'.freed ≡ h.freed)
    unfolding grow
    grow_lem h f m = elim (Bool-cases (ltb (3 * h.bucket_count) h.node_count)) [
      | inl e ↦
          let (h', run, (m', _, c, d, _)) =
            resize_lem (resize_next h.bucket_count) h f (resize_next_pos h.bucket_count) m in
          (h', rw e run, (m', c, d))
      | inr e ↦ (h, rw e, (m, refl, refl))
    ]
