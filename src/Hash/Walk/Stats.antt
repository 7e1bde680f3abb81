-- ===== src/Hash/Walk/Stats.antt =====
-- `hash_stat`: what its numbers say of the table.
use bklib.Base.{
  ℕ, suc, ◌+◌, ◌*◌, ◌≤◌, ◌≡◌, refl, sym, ap, ◌∙◌, some, List, [], ◌∷◌, Returns, arith, ltb, length,
  if◌then◌else◌, get_elem?, get_elem?_lt, reverse, length-append,
}
use bklib.Array.{Array}
use bklib.Array.Contents.{contents, length-contents}
use bklib.Array.Contents
use bklib.Hash.{Node, Hash, Keys}
use bklib.Hash.Chains.{homed}
use bklib.Hash.Table.{chain_of}
use bklib.Hash.Visit.{visited, length-visited, length-reverse}
use bklib.Hash.Find.{IsValid}
use bklib.Hash.Walk.{Stat, stat_loop, stat}

-- What holds of the numbers before and after a bucket is counted.
record IsSound (st : Stat) : Type 0 where
  bounded : st.sum ≤ st.max * st.used
  filled : st.used ≤ st.sum

mul_step : (m m' u s n : ℕ) → m ≤ m' → n ≤ m' → s ≤ m * u → s + n ≤ m' * (u + 1)
mul_step m m' u s n h k l = grind arith

mul_le : (m m' u s : ℕ) → m ≤ m' → s ≤ m * u → s ≤ m' * u
mul_le m m' u s h l = grind arith

module _ {K V : Type 0} where
  -- The number of nodes in the buckets.
  total : List (Array (Node K V)) → ℕ
  total [] = 0
  total (a ∷ bs) = a.count + total bs

  step : Array (Node K V) → Stat → Stat
  step a st =
      let n = a.count in
      record st {
        sum = st.sum + n;
        max = if ltb st.max n then n else st.max;
        used = if ltb 0 n then st.used + 1 else st.used;
      }

  step-IsSound : (a : Array (Node K V)) (st : Stat) → IsSound st → IsSound (step a st)
  unfolding step
  step-IsSound a st i = ground (
    arith,
    mul_step st.max (step a st).max st.used st.sum a.count,
    mul_le st.max (step a st).max st.used st.sum,
  )

  record Summed (bs : List (Array (Node K V))) (st r : Stat) : Type 0 where
    sum : r.sum ≡ st.sum + total bs
    used : r.used ≤ st.used + length bs
    sound : IsSound r
    count : r.count ≡ st.count

  stat_loop_lem :
      (bs : List (Array (Node K V))) (st : Stat) → IsSound st → Summed bs st (stat_loop bs st)
  unfolding stat_loop total step
  stat_loop_lem [] st i = record { sum = omega arith; used = omega arith; sound = i; count = refl }
  stat_loop_lem (a ∷ bs) st i =
      let r = stat_loop_lem bs (step a st) (step-IsSound a st i) in
      record {
        sum = omega (arith, r.sum);
        used = ground (arith, r.used);
        sound = r.sound;
        count = r.count;
      }

  -- The buckets hold together as many nodes as are visited.
  total-visited :
      (m : ℕ) (bs : List (Array (Node K V))) (nodes : List (Node K V)) (i : ℕ)
      → ((j : ℕ) (a : Array (Node K V))
          → get_elem? bs j ≡ some a
          → Contents.IsValid a × (contents a ≡ homed m (i + j) nodes))
      → total bs ≡ length (visited m nodes (length bs) i)
  unfolding total visited
  total-visited m [] nodes i h = refl
  total-visited m (a ∷ bs) nodes i h =
      let (v, c) = h 0 a refl in
      let own : a.count ≡ length (homed m i nodes) =
        sym (length-contents a v)
        ∙ ap length c
        ∙ ap (λ k. length (homed m k nodes)) (omega arith) in
      let rest =
        total-visited m bs nodes (suc i) (λ j b e.
          let (w, d) = h (suc j) b e in (w, d ∙ ap (λ k. homed m k nodes) (omega arith))) in
      omega (
        arith,
        own,
        rest,
        length-append (reverse (homed m i nodes)) (visited m nodes (length bs) (suc i)),
        length-reverse (homed m i nodes),
      )

module _ {K V : Type 0} (keys : Keys K) (h : Hash K V) (nodes : List (Node K V))
    (v : IsValid keys h nodes) where
  total-node_count : total v.buckets ≡ h.node_count
  total-node_count =
      let t = v.table in
      total-visited h.bucket_count v.buckets nodes 0 (λ j a e. (
        t.valid j a e,
        sym (ap chain_of e)
            ∙ t.chains j (omega (arith, get_elem?_lt v.buckets j a e, t.width))
            ∙ ap (λ i. homed h.bucket_count i nodes) (omega arith),
      ))
      ∙ ap (λ w. length (visited h.bucket_count nodes w 0)) t.width
      ∙ length-visited h.bucket_count nodes v.some_bucket
      ∙ sym v.counted

  -- On a well-formed table, `hash_stat` gives the number of buckets, a sum that is the number of
  -- nodes, a number of used buckets that is at most either, and a maximum which times the used
  -- buckets is at least the number of nodes.
  pub stat_lem : Returns (stat h) λ st.
      (st.count ≡ h.bucket_count)
      × (st.sum ≡ h.node_count)
      × (st.used ≤ st.count)
      × (st.used ≤ st.sum)
      × (st.sum ≤ st.max * st.used)
  unfolding stat
  stat_lem = go v.buckets v.allocated v.table.width total-node_count
    where
      go :
          (bs : List (Array (Node K V)))
          → h.buckets ≡ some bs
          → length bs ≡ h.bucket_count
          → total bs ≡ h.node_count
          → Returns (stat h) λ st.
            (st.count ≡ h.bucket_count)
            × (st.sum ≡ h.node_count)
            × (st.used ≤ st.count)
            × (st.used ≤ st.sum)
            × (st.sum ≤ st.max * st.used)
      go [] e w t = absurd (omega (arith, v.some_bucket))
      go (a ∷ bs) e w t =
          let st : Stat = record { count = h.bucket_count; used = 0; max = a.count; sum = 0 } in
          let r = stat_loop_lem (a ∷ bs) st (omega arith) in
          (
            stat_loop (a ∷ bs) st,
            rw (e, stat),
            (
              r.count,
              r.sum ∙ omega arith,
              omega (arith, r.used, r.count),
              r.sound.filled,
              r.sound.bounded,
            ),
          )
