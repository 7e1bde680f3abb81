-- ===== src/Hash/Walk/Visits.antt =====
-- `hash_foreach` calls its function on the nodes of the table, in the order of `visited`, until one
-- call returns other than 0; `hash_clear` hands every node to the free callbacks.
use bklib.Base.{
  ℕ, zero, suc, ◌+◌, ◌≤◌, ◌≡◌, refl, sym, ap, ◌∙◌, none, some, List, [], ◌∷◌, ◌++◌, ok, Returns,
  arith, length, if◌then◌else◌, get_elem?, get_elem?_lt, take, take-suc, take_all, append_assoc,
  append-nil, reverse,
}
use bklib.Base.Int.{ℤ, pos, is_zero}
use bklib.Array.{Array}
use bklib.Array.Contents.{contents, load_lem, length-contents}
use bklib.Array.Contents
use bklib.Hash.{Node, Hash, Keys, Freed, releases}
use bklib.Hash.Chains.{homed, count}
use bklib.Hash.Table.{chain_of}
use bklib.Hash.Visit.{visited, visited_same, length-visited}
use bklib.Hash.Find.{IsValid}
use bklib.Hash.Walk.{foreach_bucket, foreach_all, foreach, free_node, clear}
use mathlib.Core.List.{reverse-append}

module _ {K V S : Type 0} (func : Node K V → S → ℤ × S) where
  -- The calls on a list of nodes, until one returns other than 0.
  unfoldable pub until_stop : List (Node K V) → S → ℤ × S
  until_stop [] s = (pos 0, s)
  until_stop (x ∷ c) s =
      let r = func x s in let rest = until_stop c r.1 in if is_zero r.0 then rest else r

  until_stop-append :
      (c d : List (Node K V)) (s : S)
      → until_stop (c ++ d) s
        ≡ (let r = until_stop c s in if is_zero r.0 then until_stop d r.1 else r)
  unfolding until_stop
  until_stop-append [] d s = refl
  until_stop-append (x ∷ c) d s = ground (arith, until_stop-append c d (func x s).1)

  foreach_bucket_lem :
      (j : ℕ) (a : Array (Node K V)) (s : S)
      → Contents.IsValid a
      → j ≤ a.count
      → foreach_bucket func j a s ≡ ok (until_stop (reverse (take j (contents a))) s)
  unfolding foreach_bucket until_stop
  foreach_bucket_lem zero a s v h = refl
  foreach_bucket_lem (suc j) a s v h =
      let (x, run, at) = load_lem a j v h in
      let e : reverse (take (suc j) (contents a)) ≡ x ∷ reverse (take j (contents a)) =
        ap reverse (take-suc (contents a) j x at) ∙ reverse-append (take j (contents a)) (x ∷ []) in
      ground (
        arith,
        run,
        ap (λ c. until_stop c s) e,
        foreach_bucket_lem j a (func x s).1 v (omega arith),
      )

  foreach_all_lem :
      (m : ℕ) (bs : List (Array (Node K V))) (nodes : List (Node K V)) (i : ℕ) (s : S)
      → ((j : ℕ) (a : Array (Node K V))
          → get_elem? bs j ≡ some a
          → Contents.IsValid a × (contents a ≡ homed m (i + j) nodes))
      → foreach_all func bs s ≡ ok (until_stop (visited m nodes (length bs) i) s)
  unfolding foreach_all visited until_stop
  foreach_all_lem m [] nodes i s h = refl
  foreach_all_lem m (a ∷ bs) nodes i s h =
      let (v, c) = h 0 a refl in
      let whole : reverse (take a.count (contents a)) ≡ reverse (homed m i nodes) = ap reverse (
        take_all a.count (contents a) (omega (arith, length-contents a v))
        ∙ c
        ∙ ap (λ k. homed m k nodes) (omega arith)) in
      let rest = λ (s : S).
        foreach_all_lem m bs nodes (suc i) s (λ j b e.
          let (w, d) = h (suc j) b e in (w, d ∙ ap (λ k. homed m k nodes) (omega arith))) in
      let r = until_stop (reverse (homed m i nodes)) s in
      ground (
        arith,
        foreach_bucket_lem a.count a s v (omega arith),
        ap (λ c. until_stop c s) whole,
        until_stop-append (reverse (homed m i nodes)) (visited m nodes (length bs) (suc i)) s,
        rest r.1,
      )

module _ {K V : Type 0} (keys : Keys K) (h : Hash K V) (nodes : List (Node K V))
    (v : IsValid keys h nodes) where
  -- All nodes, in the order in which they are visited.
  abbrev pub all_visited : List (Node K V)
  all_visited = visited h.bucket_count nodes h.bucket_count 0

  -- The nodes visited are those of the table: as many, and each key among them as often.
  pub all_visited_same :
      (length all_visited ≡ h.node_count)
      × ((q : K) → count keys q all_visited ≡ count keys q nodes)
  all_visited_same = (
    length-visited h.bucket_count nodes v.some_bucket ∙ sym v.counted,
    λ q. (visited_same keys q h.bucket_count nodes v.some_bucket (v.once q)).0,
  )

  -- On a well-formed table, `hash_foreach` is the calls of the function on all nodes, bucket by
  -- bucket and each bucket from its end, until one returns other than 0, whose result it returns.
  pub foreach_lem :
      {S : Type 0} (func : Node K V → S → ℤ × S) (s : S)
      → foreach func h s ≡ ok (until_stop func all_visited s)
  unfolding foreach
  foreach_lem func s =
      let t = v.table in
      let run = foreach_all_lem func h.bucket_count v.buckets nodes 0 s (λ j a e. (
        t.valid j a e,
        sym (ap chain_of e)
            ∙ t.chains j (omega (arith, get_elem?_lt v.buckets j a e, t.width))
            ∙ ap (λ i. homed h.bucket_count i nodes) (omega arith),
      )) in
      ground (
        arith,
        v.allocated,
        run,
        ap (λ w. until_stop func (visited h.bucket_count nodes w 0) s) t.width,
      )

  -- The calls of the free callbacks on a list of nodes, in order.
  unfoldable pub all_releases : List (Node K V) → List (Freed K V)
  all_releases [] = []
  all_releases (x ∷ c) = releases h x ++ all_releases c

  free_all :
      (c : List (Node K V)) (calls : List (Freed K V))
      → until_stop (free_node h) c calls ≡ (pos 0, calls ++ all_releases c)
  unfolding until_stop all_releases
  free_all [] calls = ap (λ z. (pos 0, z)) (sym (append-nil calls))
  free_all (x ∷ c) calls =
      free_all c (calls ++ releases h x)
      ∙ ap (λ z. (pos 0, z)) (append_assoc calls (releases h x) (all_releases c))

  -- On a well-formed table, `hash_clear` calls the free callbacks on as many nodes as the table
  -- counts, with each key among them as often as in the table, and leaves no buckets and counts of
  -- 0.
  pub clear_lem : Returns (clear h) λ r.
      (r.freed ≡ h.freed ++ all_releases all_visited)
      × (r.node_count ≡ 0)
      × (r.bucket_count ≡ 0)
      × (r.buckets ≡ none)
      × (length all_visited ≡ h.node_count)
      × ((q : K) → count keys q all_visited ≡ count keys q nodes)
  unfolding clear
  clear_lem =
      let (n, c) = all_visited_same in
      let run = foreach_lem (free_node h) h.freed ∙ ap ok (free_all all_visited h.freed) in
      (
        record {
          buckets = none;
          bucket_count = 0;
          node_count = 0;
          node_sz = 0;
          free_key = none;
          free_val = none;
          freed = h.freed ++ all_releases all_visited;
        },
        rw run,
        (refl, refl, refl, refl, n, c),
      )
