-- ===== src/Hash/Resize.antt =====
-- `hash_resize`: the nodes in the order in which they are moved, and the table that they make.
use bklib.Base.{
  ℕ, zero, suc, ◌+◌, ◌≤◌, ◌<◌, ◌≡◌, refl, sym, ap, ◌∙◌, some, List, [], ◌∷◌, ◌++◌, Returns, arith,
  length, get_elem?, take, replicate, length-replicate, get_elem?-replicate, append-nil,
  append_assoc, reverse, take-suc, take_all, subst, lt→ltb, get_elem?-replicate-some,
}
use bklib.Base.Int.{pos}
use bklib.Array.{Array, load}
use bklib.Array
use bklib.Array.Cells.{Memory}
use bklib.Array.Contents.{contents, IsValid, load_lem, length-contents, init-IsValid}
use bklib.Hash.{Node, move_bucket, move_all}
use bklib.Hash.Chains.{homed}
use bklib.Hash.Visit.{visited}
use bklib.Hash.Table.{Grants, IsTable, push_lem}
use mathlib.Core.List.{reverse-append}

module _ {K V : Type 0} where
  pub fresh-IsTable :
      (node_sz n : ℕ)
      → 0 < node_sz
      → IsTable {K = K} {V = V} (replicate n (Array.init node_sz (pos 1))) n []
  unfolding homed Array.init
  fresh-IsTable node_sz n h = record {
    width = length-replicate n _;
    valid = λ i a e.
        subst IsValid (get_elem?-replicate-some n i _ a e) (init-IsValid node_sz 1 h (omega arith));
    chains = λ i l.
        rw (get_elem?-replicate n i (Array.init {A = Node K V} node_sz (pos 1)), lt→ltb i n l);
  }

  module _ (mem : Memory (Node K V)) (g : Grants mem) (n : ℕ) (some_bucket : 0 < n) where
    move_bucket_lem :
        (j : ℕ) (old : Array (Node K V)) (bs : List (Array (Node K V))) (nodes : List (Node K V))
        → IsValid old
        → j ≤ old.count
        → IsTable bs n nodes
        → Returns
            (move_bucket mem n j old bs)
            (λ r. IsTable r n (nodes ++ reverse (take j (contents old))))
    unfolding move_bucket
    move_bucket_lem zero old bs nodes v h t =
        (bs, refl, subst (IsTable bs n) (sym (append-nil nodes)) t)
    move_bucket_lem (suc j) old bs nodes v h t =
        let (x, run, at) = load_lem old j v h in
        let (bs', run', t') = push_lem mem x bs n nodes g some_bucket t in
        let (r, run'', t'') = move_bucket_lem j old bs' (nodes ++ x ∷ []) v (omega arith) t' in
        let e : reverse (take (suc j) (contents old)) ≡ x ∷ reverse (take j (contents old)) =
          ap reverse (take-suc (contents old) j x at)
          ∙ reverse-append (take j (contents old)) (x ∷ []) in
        (
          r,
          ground (arith, run, run', run''),
          subst (IsTable r n) (append_assoc nodes (x ∷ []) _ ∙ ap (λ c. nodes ++ c) (sym e)) t'',
        )

    -- The nodes of all the old buckets are pushed, in the order in which they are visited.
    pub move_all_lem :
        (m : ℕ) (olds : List (Array (Node K V))) (old_nodes : List (Node K V)) (i : ℕ)
        (bs : List (Array (Node K V))) (nodes : List (Node K V))
        → ((j : ℕ) (a : Array (Node K V))
            → get_elem? olds j ≡ some a
            → IsValid a × (contents a ≡ homed m (i + j) old_nodes))
        → IsTable bs n nodes
        → Returns
            (move_all mem n olds bs)
            (λ r. IsTable r n (nodes ++ visited m old_nodes (length olds) i))
    unfolding move_all visited
    move_all_lem m [] old_nodes i bs nodes h t =
        (bs, refl, subst (IsTable bs n) (sym (append-nil nodes)) t)
    move_all_lem m (old ∷ olds) old_nodes i bs nodes h t =
        let (v, c) = h 0 old refl in
        let (bs', run, t') = move_bucket_lem old.count old bs nodes v (omega arith) t in
        let (r, run', t'') =
          move_all_lem m olds old_nodes (suc i) bs' _
            (λ j a e.
              let (w, d) = h (suc j) a e in (w, d ∙ ap (λ k. homed m k old_nodes) (omega arith)))
            t' in
        let whole : reverse (take old.count (contents old)) ≡ reverse (homed m i old_nodes) =
          ap reverse (
            take_all old.count (contents old) (omega (arith, length-contents old v))
            ∙ c
            ∙ ap (λ k. homed m k old_nodes) (omega arith)) in
        (
          r,
          rw run run',
          subst (IsTable r n)
              (append_assoc nodes _ _
                ∙ ap (λ c. nodes ++ (c ++ visited m old_nodes (length olds) (suc i))) whole)
              t'',
        )
