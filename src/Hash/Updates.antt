-- ===== src/Hash/Updates.antt =====
-- `hash_get`, `hash_remove` and `hash_put` on the table as a map from keys to values.
use bklib.Base.{
  ℕ, ◌+◌, ◌≤◌, ◌≡◌, refl, sym, ap, ◌∙◌, true, Option, none, some, List, [], ◌∷◌, ◌++◌, ok, Returns,
  arith, length-append, subst,
}
use bklib.Array.{Array}
use bklib.Array.Cells.{Memory}
use bklib.Hash.{Node, Hash, Keys, holds, free, releases, get, remove, put, grow, push, read}
use bklib.Hash.Chains.{
  last_match, last_match-append, count, count-append, IsKeys, last_match-none_count, same,
  Hashed-append,
}
use bklib.Hash.Table.{Grants, push_lem}
use bklib.Hash.Erase.{erase, last_match-erase, last_match_same}
use bklib.Hash.Find.{get_lem, Located, read_lem}
use bklib.Hash.Free.{free_lem}
use bklib.Hash.Map.{Models, update, grow_lem}

module _ {K V : Type 0} (keys : Keys K) where
  module _ (laws : IsKeys keys) (k : K) (h : Hash K V) (f : K → Option V)
      (m : Models keys f h) where
    abbrev pub Finds : Option (ℕ × ℕ) → Type 0
    Finds none = f k ≡ none
    Finds (some p) =
        (x : Node K V) × (read p h ≡ ok x) × (holds keys k x ≡ true) × (f k ≡ some x.val)

    -- For keys whose hash and comparison fit each other and a well-formed table that models a map,
    -- `hash_get` returns null exactly if the map has nothing at the key, and otherwise a pointer
    -- to a node with the map's value whose key compares equal.
    pub get-Models : Returns (get keys k h) Finds
    get-Models = go (get_lem keys k h m.nodes m.valid)
      where
        go :
            Returns (get keys k h) (Located keys k h m.nodes m.valid) → Returns (get keys k h) Finds
        go (none, run, e) = (none, run, sym (m.reads k) ∙ e)
        go (some (i, j), run, (x, at, is, e)) = (
          some (i, j),
          run,
          (
            x,
            ap (λ i. read (i, j) h) at ∙ read_lem keys k h m.nodes m.valid j x is,
            is.same,
            sym (m.reads k) ∙ e,
          ),
        )

    -- What removing the key calls, and the node count: for a map with no value at the key, and for one
    -- with a value.
    abbrev pub Freeing : Option V → Hash K V → Hash K V → Type 0
    Freeing none before after =
        (after.freed ≡ before.freed) × (after.node_count ≡ before.node_count)
    Freeing (some v) before after =
        (x : Node K V) × (holds keys k x ≡ true)
        × (x.val ≡ v)
        × (after.freed ≡ before.freed ++ releases before x)
        × (after.node_count + 1 ≡ before.node_count)

    -- The same for setting the key.
    abbrev pub Replacing : Option V → Hash K V → Hash K V → Type 0
    Replacing none before after =
        (after.freed ≡ before.freed) × (after.node_count ≡ before.node_count + 1)
    Replacing (some v) before after =
        (x : Node K V) × (holds keys k x ≡ true)
        × (x.val ≡ v)
        × (after.freed ≡ before.freed ++ releases before x)
        × (after.node_count ≡ before.node_count)

    Freeing-Replacing :
        (o : Option V) (h₁ h₂ h₃ : Hash K V)
        → h₂.freed ≡ h₁.freed
        → h₂.node_count ≡ h₁.node_count
        → h₃.freed ≡ h₂.freed
        → h₃.node_count ≡ h₂.node_count + 1
        → Freeing o h h₁
        → Replacing o h h₃
    Freeing-Replacing none h₁ h₂ h₃ a b c d (e, l) = (c ∙ a ∙ e, omega arith)
    Freeing-Replacing (some v) h₁ h₂ h₃ a b c d (x, s, w, e, l) = (x, s, w, c ∙ a ∙ e, omega arith)

    free-Models :
        (p : Option (ℕ × ℕ))
        → Located keys k h m.nodes m.valid p
        → Returns (free p h) λ h'. Models keys (update keys k none f) h' × Freeing (f k) h h'
    unfolding free
    free-Models none e = (
      h,
      refl,
      (
        record {
          nodes = m.nodes;
          valid = m.valid;
          reads = λ q.
              m.reads q
              ∙ ground (
                arith,
                last_match_same keys k laws q m.nodes m.valid.hashed,
                m.reads q,
                m.reads k,
              );
        },
        subst (λ o. Freeing o h h) (sym e ∙ m.reads k) (refl, refl),
      ),
    )
    free-Models (some (i, j)) (x, at, is, e) =
        let (h', run, keeps) = free_lem keys k h m.nodes m.valid j x is e in
        (
          h',
          ap (λ i. free (some (i, j)) h) at ∙ run,
          (
            record {
              nodes = erase keys k m.nodes;
              valid = keeps.valid;
              reads = λ q.
                  last_match-erase keys k laws q m.nodes m.valid.hashed ∙ ground (arith, m.reads q);
            },
            subst (λ o. Freeing o h h') (sym e ∙ m.reads k)
                (x, is.same, refl, keeps.calls_made, keeps.one_less),
          ),
        )

    -- For keys whose hash and comparison fit each other and a well-formed table that models a map,
    -- `hash_remove` returns a table that models the map without the key. If the key had a value,
    -- the free callbacks are called on its node and the count falls by one; if it had none,
    -- nothing is called and the count stays.
    pub remove-Models :
        Returns (remove keys k h) λ h'. Models keys (update keys k none f) h' × Freeing (f k) h h'
    unfolding remove
    remove-Models =
        let (p, run, at) = get_lem keys k h m.nodes m.valid in
        let (h', run', r) = free-Models p at in (h', rw run run', r)

    abbrev new_node : V → Node K V
    new_node v = record { key = k; val = v; hash = keys.hash k }

    put_run :
        (mem : Memory (Node K V)) (v : V) (p : Option (ℕ × ℕ)) (h₁ h₂ : Hash K V)
        (bs bs' : List (Array (Node K V)))
        → get keys k h ≡ ok p
        → free p h ≡ ok h₁
        → grow mem h₁ ≡ ok h₂
        → h₂.buckets ≡ some bs
        → push mem h₂.bucket_count (new_node v) bs ≡ ok bs'
        → put keys mem k v h ≡ ok (record h₂ { buckets = some bs'; node_count = h₂.node_count + 1 })
    unfolding put
    put_run mem v p h₁ h₂ bs bs' a b c d e = rw (a, b, c, d, e)

    -- The new node is found under the keys that compare equal to its own.
    holds_new : (v : V) (q : K) → holds keys q (new_node v) ≡ same keys q k
    holds_new v q = refl

    last_match_new :
        (v : V) (c : List (Node K V)) (q : K)
        → last_match keys q c ≡ update keys k none f q
        → last_match keys q (c ++ new_node v ∷ []) ≡ update keys k (some v) f q
    unfolding last_match
    last_match_new v c q e =
        last_match-append keys q c (new_node v ∷ []) ∙ ground (arith, holds_new v q)

    count_new :
        (v : V) (c : List (Node K V)) (q : K)
        → last_match keys q c ≡ update keys k none f q
        → count keys q c ≤ 1
        → count keys q (c ++ new_node v ∷ []) ≤ 1
    unfolding count
    count_new v c q e l = ground (
      arith,
      count-append keys q c (new_node v ∷ []),
      holds_new v q,
      last_match-none_count keys q c,
    )

    -- For keys whose hash and comparison fit each other, a well-formed table that models a map,
    -- and memory that is always granted, `hash_put` returns a table that models the map with the
    -- value at the key and every other key as it was. If the key had a value, the free callbacks
    -- are called on its node and the count stays; if it had none, nothing is called and the count
    -- grows by one.
    pub put-Models :
        (mem : Memory (Node K V)) (v : V)
        → Grants mem
        → Returns
            (put keys mem k v h)
            λ h'. Models keys (update keys k (some v) f) h' × Replacing (f k) h h'
    unfolding put
    put-Models mem v g =
        let (p, run, at) = get_lem keys k h m.nodes m.valid in
        let (h₁, run₁, (m₁, fr)) = free-Models p at in
        let (h₂, run₂, (m₂, same_count, same_freed)) =
          grow_lem keys mem g h₁ (update keys k none f) m₁ in
        let new = new_node v in
        let w = m₂.valid in
        let (bs, run₃, t) =
          push_lem mem new w.buckets h₂.bucket_count m₂.nodes g w.some_bucket w.table in
        (
          record h₂ { buckets = some bs; node_count = h₂.node_count + 1 },
          put_run mem v p h₁ h₂ w.buckets bs run run₁ run₂ w.allocated run₃,
          (
            record {
              nodes = m₂.nodes ++ new ∷ [];
              valid = record {
                some_bucket = w.some_bucket;
                sized = w.sized;
                buckets = bs;
                allocated = refl;
                table = t;
                counted = omega (arith, length-append m₂.nodes (new ∷ []), w.counted);
                once = λ q. count_new v m₂.nodes q (m₂.reads q) (w.once q);
                hashed = Hashed-append keys m₂.nodes (new ∷ []) w.hashed (refl, tt);
              };
              reads = λ q. last_match_new v m₂.nodes q (m₂.reads q);
            },
            Freeing-Replacing (f k) h₁ h₂
                (record h₂ { buckets = some bs; node_count = h₂.node_count + 1 }) same_freed
                same_count refl refl fr,
          ),
        )
