-- ===== src/Hash/Free.antt =====
-- `hash_free` of the node that a key has: the other nodes stay, and the callbacks are called on it.
use bklib.Base.{
  ℕ, suc, ◌+◌, ◌%◌, ◌≤◌, ◌<◌, ◌≡◌, refl, sym, ap, ◌∙◌, true, none, some, List, ◌++◌, ok, Returns,
  arith, ◌==◌, ==_iff, length, get_elem?, get_elem?-some, get_elem?_lt, take, drop, set, subst,
}
use bklib.Base.Int.{pos}
use bklib.Array.{Array, load, remove_ptr}
use bklib.Array.Contents.{contents, load_lem, length-contents}
use bklib.Array.Contents
use bklib.Array.Remove.{remove_idx_lem, removed}
use bklib.Hash.{Node, Hash, Keys, Freed, holds, read, free, releases, slot}
use bklib.Hash.Chains.{homed, last_match, last_match-none, count, count-homed-le}
use bklib.Hash.Table.{chain, chain_of, IsTable, slot_lem, set-IsTable}
use bklib.Hash.Visit.{count-homed}
use bklib.Hash.Erase.{
  erase, erase_absent, erase-homed, erase_at, length-erase, count-erase-le, Hashed-erase,
}
use bklib.Hash.Find.{IsValid, IsAt, home}
use native.Mathlib.Decide.{ℕ_discrete}
use mathlib.Core.Option.{some-injective}

module _ {K V : Type 0} where
  free_run :
      (h : Hash K V) (i j n : ℕ) (bs : List (Array (Node K V))) (a b : Array (Node K V))
      (x : Node K V)
      → h.buckets ≡ some bs
      → get_elem? bs i ≡ some a
      → load a (pos j) ≡ ok x
      → slot x.hash h.bucket_count ≡ ok i
      → remove_ptr j a ≡ ok b
      → h.node_count ≡ suc n
      → free (some (i, j)) h
        ≡ ok (record h {
          buckets = some (set bs i b);
          node_count = n;
          freed = h.freed ++ releases h x;
        })
  unfolding free read
  free_run h i j n bs a b x p q l s r c = ground arith

module _ {K V : Type 0} (keys : Keys K) (k : K) where
  -- One cell goes from a bucket.
  remove_ptr_lem :
      (a : Array (Node K V)) (j : ℕ) (x : Node K V)
      → Contents.IsValid a
      → IsAt keys k (contents a) j x
      → count keys k (contents a) ≤ 1
      → Returns (remove_ptr j a) λ b. Contents.IsValid b × (contents b ≡ erase keys k (contents a))
  unfolding remove_ptr
  remove_ptr_lem a j x v i h =
      let inside : j < a.count =
        omega (arith, get_elem?_lt (contents a) j x i.at, length-contents a v) in
      let (b, run, (w, _, c)) = remove_idx_lem a v (pos 1) j inside in
      let one : j + removed a.count j (pos 1) ≡ suc j = ground arith in
      (
        b,
        run,
        (
          w,
          c
              ∙ ap (λ n. take j (contents a) ++ drop n (contents a)) one
              ∙ erase_at keys k (contents a) j x i.at i.same h,
        ),
      )

  module _ (h : Hash K V) (nodes : List (Node K V)) (v : IsValid keys h nodes) where
    -- What an operation leaves as it was, but for the nodes and the calls that were made.
    pub record Keeps (calls : List (Freed K V)) (nodes' : List (Node K V)) (h' : Hash K V)
        : Type 0 where
      pub valid : IsValid keys h' nodes'
      pub calls_made : h'.freed ≡ h.freed ++ calls
      pub free_key : h'.free_key ≡ h.free_key
      pub free_val : h'.free_val ≡ h.free_val
      pub node_sz : h'.node_sz ≡ h.node_sz
      pub one_less : h'.node_count + 1 ≡ h.node_count

    erased-IsTable :
        (b : Array (Node K V))
        → Contents.IsValid b
        → contents b ≡ erase keys k (homed h.bucket_count (home keys k h nodes v) nodes)
        → IsTable (set v.buckets (home keys k h nodes v) b) h.bucket_count (erase keys k nodes)
    erased-IsTable b w c =
        set-IsTable v.buckets h.bucket_count nodes (erase keys k nodes) (home keys k h nodes v) b
          v.table (omega (arith, v.some_bucket)) w
          (c ∙ erase-homed keys k h.bucket_count (home keys k h nodes v) nodes)
          (λ j ne.
            sym (erase-homed keys k h.bucket_count j nodes)
            ∙ erase_absent keys k (homed h.bucket_count j nodes)
                (count-homed keys k h.bucket_count j nodes ∙ ground arith))

    hash_same : (x : Node K V) → holds keys k x ≡ true → (keys.hash k == x.hash) ≡ true
    hash_same x e = ground arith

    counted_found : (x : V) → last_match keys k nodes ≡ some x → 0 < count keys k nodes
    counted_found x e = elim (ℕ_discrete (count keys k nodes) 0) [
      | yes n ↦ absurd (let z : none ≡ some x = sym (last_match-none keys k nodes n) ∙ e in cc)
      | no n ↦ omega arith
    ]

    -- The node of the key goes, no other, and the callbacks are called on it once.
    pub free_lem :
        (j : ℕ) (x : Node K V)
        → IsAt keys k (chain v.buckets (home keys k h nodes v)) j x
        → last_match keys k nodes ≡ some x.val
        → Returns
            (free (some (home keys k h nodes v, j)) h)
            (Keeps (releases h x) (erase keys k nodes))
    unfolding free read
    free_lem j x i found =
        let (a, at) = get_elem?-some v.buckets m (omega (arith, v.table.width, v.some_bucket)) in
        go a at (v.table.valid m a at)
      where
        m : ℕ
        m = home keys k h nodes v

        go :
            (a : Array (Node K V))
            → get_elem? v.buckets m ≡ some a
            → Contents.IsValid a
            → Returns (free (some (m, j)) h) (Keeps (releases h x) (erase keys k nodes))
        go a at w =
            let own : contents a ≡ homed h.bucket_count m nodes =
              sym (ap chain_of at) ∙ v.table.chains m (omega (arith, v.some_bucket)) in
            let here : IsAt keys k (contents a) j x =
              subst (λ c. IsAt keys k c j x) (ap chain_of at) i in
            let (y, run, at') =
              load_lem a j w
                (omega (arith, get_elem?_lt (contents a) j x here.at, length-contents a w)) in
            let same : y ≡ x = some-injective _ _ (sym at' ∙ here.at) in
            let once : count keys k (contents a) ≤ 1 = omega (
              arith,
              ap (count keys k) own,
              count-homed-le keys k h.bucket_count m nodes,
              v.once k,
            ) in
            let (b, run', (w', c)) = remove_ptr_lem a j x w here once in
            let to : x.hash % h.bucket_count ≡ m =
              ap (λ z. z % h.bucket_count)
                (sym ((==_iff (keys.hash k) x.hash).0 (hash_same x i.same))) in
            let many : h.node_count ≡ suc (length (erase keys k nodes)) =
              omega (
                arith,
                v.counted,
                length-erase keys k nodes,
                v.once k,
                counted_found x.val found,
              ) in
            (
              record h {
                buckets = some (set v.buckets m b);
                node_count = length (erase keys k nodes);
                freed = h.freed ++ releases h x;
              },
              free_run h m j (length (erase keys k nodes)) v.buckets a b x v.allocated at
                  (run ∙ ap ok same) (slot_lem x.hash h.bucket_count v.some_bucket ∙ ap ok to) run'
                  many,
              record {
                valid = record {
                  some_bucket = v.some_bucket;
                  sized = v.sized;
                  buckets = set v.buckets m b;
                  allocated = refl;
                  table = erased-IsTable b w' (c ∙ ap (erase keys k) own);
                  counted = refl;
                  once = λ q. omega (arith, count-erase-le keys k q nodes, v.once q);
                  hashed = Hashed-erase keys k nodes v.hashed;
                };
                calls_made = refl;
                free_key = refl;
                free_val = refl;
                node_sz = refl;
                one_less = omega (arith, many);
              },
            )
