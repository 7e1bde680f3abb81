-- ===== src/Hash/Find.antt =====
-- `hash_get`: the node that it points to.
use bklib.Base.{
  ℕ, zero, suc, ◌%◌, ◌≤◌, ◌<◌, ◌≡◌, refl, sym, ap, ◌∙◌, true, Option, none, some, List, [], ◌∷◌, ok,
  Returns, arith, length, inl, inr, Bool-cases, get_elem?, get_elem?-some, take, take-suc, take_all,
  subst, get_elem?_lt,
}
use bklib.Array.{Array}
use bklib.Array.Contents.{contents, load_lem, length-contents}
use bklib.Array.Contents
use bklib.Hash.{Node, Hash, Keys, holds, scan, get, slot, read}
use bklib.Hash.Chains.{last_match, count, last_match-append, last_match-homed, Hashed}
use bklib.Hash.Table.{chain, chain_of, IsTable, slot_lem}
use mathlib.Core.Option.{some-injective}

module _ {K V : Type 0} (keys : Keys K) where
  -- The table holds `nodes`, each key at most once, and counts them.
  pub record IsValid (h : Hash K V) (nodes : List (Node K V)) : Type 0 where
    pub some_bucket : 0 < h.bucket_count
    pub sized : 0 < h.node_sz
    pub buckets : List (Array (Node K V))
    pub allocated : h.buckets ≡ some buckets
    pub table : IsTable buckets h.bucket_count nodes
    pub counted : h.node_count ≡ length nodes
    pub once : (q : K) → count keys q nodes ≤ 1
    pub hashed : Hashed keys nodes

  module _ (k : K) where
    -- `x` is the node with the key, at place `j` of `c`, and the last one.
    pub record IsAt (c : List (Node K V)) (j : ℕ) (x : Node K V) : Type 0 where
      pub at : get_elem? c j ≡ some x
      pub same : holds keys k x ≡ true

    -- What a search of `c` up to place `n` says of the last node with the key.
    abbrev Scanned : List (Node K V) → ℕ → Option ℕ → Type 0
    Scanned c n none = last_match keys k (take n c) ≡ none
    Scanned c n (some j) = (x : Node K V) × IsAt c j x × (last_match keys k (take n c) ≡ some x.val)

    scan_lem :
        (n : ℕ) (a : Array (Node K V))
        → Contents.IsValid a
        → n ≤ a.count
        → Returns (scan keys k n a) (Scanned (contents a) n)
    unfolding scan last_match
    scan_lem zero a v h = (none, refl, refl)
    scan_lem (suc n) a v h =
        let (x, run, at) = load_lem a n v h in
        let split =
          ap (last_match keys k) (take-suc (contents a) n x at)
          ∙ last_match-append keys k (take n (contents a)) (x ∷ []) in
        elim (Bool-cases (holds keys k x)) [
          | inl e ↦ (
            some n,
            ground (arith, run, e),
            (x, record { at = at; same = e }, split ∙ ground (arith, e)),
          )
          | inr e ↦
              step n a x (ground (arith, run, e)) (split ∙ ground (arith, e))
                (scan_lem n a v (omega arith))
        ]
      where
        step :
            (n : ℕ) (a : Array (Node K V)) (x : Node K V)
            → scan keys k (suc n) a ≡ scan keys k n a
            → last_match keys k (take (suc n) (contents a))
              ≡ last_match keys k (take n (contents a))
            → Returns (scan keys k n a) (Scanned (contents a) n)
            → Returns (scan keys k (suc n) a) (Scanned (contents a) (suc n))
        step n a x same look (none, run, s) = (none, same ∙ run, look ∙ s)
        step n a x same look (some j, run, (y, i, s)) = (some j, same ∙ run, (y, i, look ∙ s))

    module _ (h : Hash K V) (nodes : List (Node K V)) (v : IsValid h nodes) where
      abbrev pub home : ℕ
      home = keys.hash k % h.bucket_count

      -- What `hash_get` says of the key: null if no node has it, otherwise where the node is.
      abbrev pub Located : Option (ℕ × ℕ) → Type 0
      Located none = last_match keys k nodes ≡ none
      Located (some (i, j)) =
          (x : Node K V) × (i ≡ home)
          × IsAt (chain v.buckets home) j x
          × (last_match keys k nodes ≡ some x.val)

      pub get_lem : Returns (get keys k h) Located
      unfolding get
      get_lem =
          let inside : home < length v.buckets = omega (arith, v.table.width, v.some_bucket) in
          let (a, at) = get_elem?-some v.buckets home inside in
          let w = v.table.valid home a at in finish a at w (scan_lem a.count a w (omega arith))
        where
          finish :
              (a : Array (Node K V))
              → get_elem? v.buckets home ≡ some a
              → Contents.IsValid a
              → Returns (scan keys k a.count a) (Scanned (contents a) a.count)
              → Returns (get keys k h) Located
          finish a at w r =
              let whole : last_match keys k (take a.count (contents a)) ≡ last_match keys k nodes =
                ap (last_match keys k) (
                  take_all a.count (contents a) (omega (arith, length-contents a w))
                  ∙ sym (ap chain_of at)
                  ∙ v.table.chains home (omega (arith, v.some_bucket)))
                ∙ last_match-homed keys k h.bucket_count nodes in
              settle a at whole (slot_lem (keys.hash k) h.bucket_count v.some_bucket) r
            where
              settle :
                  (a : Array (Node K V))
                  → get_elem? v.buckets home ≡ some a
                  → last_match keys k (take a.count (contents a)) ≡ last_match keys k nodes
                  → slot (keys.hash k) h.bucket_count ≡ ok home
                  → Returns (scan keys k a.count a) (Scanned (contents a) a.count)
                  → Returns (get keys k h) Located
              settle a at whole s (none, run, e) =
                  (none, ground (arith, s, v.allocated, at, run), sym whole ∙ e)
              settle a at whole s (some j, run, (x, i, e)) = (
                some (home, j),
                ground (arith, s, v.allocated, at, run),
                (x, refl, subst (λ c. IsAt c j x) (sym (ap chain_of at)) i, sym whole ∙ e),
              )

      -- A pointer to a node of the key's bucket is followed to that node.
      pub read_lem :
          (j : ℕ) (x : Node K V) → IsAt (chain v.buckets home) j x → read (home, j) h ≡ ok x
      unfolding read
      read_lem j x i =
          let (a, at) =
            get_elem?-some v.buckets home (omega (arith, v.table.width, v.some_bucket)) in
          go a at (v.table.valid home a at)
        where
          go :
              (a : Array (Node K V))
              → get_elem? v.buckets home ≡ some a
              → Contents.IsValid a
              → read (home, j) h ≡ ok x
          go a at w =
              let here : get_elem? (contents a) j ≡ some x =
                ap (λ c. get_elem? c j) (sym (ap chain_of at)) ∙ i.at in
              let (y, run, at') =
                load_lem a j w
                  (omega (arith, get_elem?_lt (contents a) j x here, length-contents a w)) in
              let same : y ≡ x = some-injective _ _ (sym at' ∙ here) in
              ground (arith, v.allocated, at, run, same)
