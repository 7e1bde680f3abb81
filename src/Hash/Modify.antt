-- ===== src/Hash/Modify.antt =====
-- A write through the pointer `node_val` of a node that `hash_get` or `hash_put` returned, as the
-- clients of the table do: the key's value changes and nothing else.
use bklib.Base.{
  ℕ, zero, suc, ◌≤◌, ◌<◌, ◌≡◌, refl, sym, ap, ◌∙◌, true, false, Bool, Option, none, some, List, [],
  ◌∷◌, ok, Run, ◌>>=◌, deref, Returns, if◌then◌else◌, arith, length, length-set, get_elem?,
  get_elem?-some, get_elem?_lt, get_elem?-set_self, take, set, subst, Bool-cases, inl, inr,
}
use bklib.Base.Int.{pos}
use bklib.Array.{Array, load}
use bklib.Array.Contents.{contents, load_lem, length-contents, block, cells_some}
use bklib.Array.Contents
use bklib.Hash.{Node, Hash, Keys, read}
use bklib.Hash.Chains.{homed, last_match, count, count-homed-le, IsKeys, same}
use bklib.Hash.Table.{chain, chain_of, set-IsTable}
use bklib.Hash.Visit.{count-homed}
use bklib.Hash.Erase.{last_match_same}
use bklib.Hash.Find.{IsValid, IsAt, home, Located}
use bklib.Hash.Touch.{
  with_val, touch, touch_absent, touch-homed, touch_at, length-touch, count-touch, Hashed-touch,
  map_val, last_match-touch,
}
use bklib.Hash.Map.{Models, update}
use mathlib.Core.Option.{some-injective}

module _ {K V : Type 0} where
  unfoldable pub modify : ℕ × ℕ → (V → V) → Hash K V → Run (Hash K V)
  modify (i, j) g h = do
    buckets ← deref h.buckets
    bucket ← deref (get_elem? buckets i)
    cells ← deref bucket.cells
    x ← deref (get_elem? cells j)
    ok (record h {
      buckets = some (set buckets i (record bucket { cells = some (set cells j (with_val g x)) }));
    })

module _ {K V : Type 0} where
  modify_run :
      (h : Hash K V) (i j : ℕ) (g : V → V) (bs : List (Array (Node K V))) (a : Array (Node K V))
      (cells : List (Node K V)) (x : Node K V)
      → h.buckets ≡ some bs
      → get_elem? bs i ≡ some a
      → a.cells ≡ some cells
      → get_elem? cells j ≡ some x
      → modify (i, j) g h
        ≡ ok (record h {
          buckets = some (set bs i (record a { cells = some (set cells j (with_val g x)) }));
        })
  unfolding modify
  modify_run h i j g bs a cells x p q c e = rw (modify, p, q, c, e) refl

take-set : {A : Type 0} (n j : ℕ) (xs : List A) (x : A) → take n (set xs j x) ≡ set (take n xs) j x
take-set zero j [] x = refl
take-set zero zero (y ∷ xs) x = refl
take-set zero (suc j) (y ∷ xs) x = refl
take-set (suc n) j [] x = refl
take-set (suc n) zero (y ∷ xs) x = refl
take-set (suc n) (suc j) (y ∷ xs) x = ap (λ l. y ∷ l) (take-set n j xs x)

get_elem?-take_inv :
    {A : Type 0} (n j : ℕ) (xs : List A) (x : A)
    → get_elem? (take n xs) j ≡ some x
    → get_elem? xs j ≡ some x
get_elem?-take_inv zero j xs x e = absurd (let z : none ≡ some x = e in cc)
get_elem?-take_inv (suc n) j [] x e = e
get_elem?-take_inv (suc n) zero (y ∷ xs) x e = e
get_elem?-take_inv (suc n) (suc j) (y ∷ xs) x e = get_elem?-take_inv n j xs x e

read_run :
    {K V : Type 0} (h : Hash K V) (i j : ℕ) (bs : List (Array (Node K V))) (a : Array (Node K V))
    (x : Node K V)
    → h.buckets ≡ some bs
    → get_elem? bs i ≡ some a
    → load a (pos j) ≡ ok x
    → read (i, j) h ≡ ok x
unfolding read
read_run h i j bs a x p q l = rw (read, p, q, l) refl

load-set :
    {A : Type 0} (a b : Array A) (j : ℕ) (x : A)
    → Contents.IsValid b
    → j < b.count
    → contents b ≡ set (contents a) j x
    → j < length (contents a)
    → load b (pos j) ≡ ok x
load-set a b j x w h c l =
    let (y, run, at) = load_lem b j w h in
    run
    ∙ ap ok (
        some-injective _ _
          (sym at ∙ ap (λ xs. get_elem? xs j) c ∙ get_elem?-set_self (contents a) j x l))

module _ {K V : Type 0} (keys : Keys K) (k : K) (g : V → V) (h : Hash K V) (nodes : List (Node K V))
    (v : IsValid keys h nodes) where
  pub modify_lem :
      (j : ℕ) (x : Node K V)
      → IsAt keys k (chain v.buckets (home keys k h nodes v)) j x
      → Returns (modify (home keys k h nodes v, j) g h) λ h'.
        IsValid keys h' (touch keys k g nodes)
        × (h'.freed ≡ h.freed)
        × (h'.node_count ≡ h.node_count)
        × (read (home keys k h nodes v, j) h' ≡ ok (with_val g x))
  modify_lem j x i =
      let (a, at) = get_elem?-some v.buckets m (omega (arith, v.table.width, v.some_bucket)) in
      go a at (v.table.valid m a at)
    where
      m : ℕ
      m = home keys k h nodes v

      go :
          (a : Array (Node K V))
          → get_elem? v.buckets m ≡ some a
          → Contents.IsValid a
          → Returns (modify (m, j) g h) λ h'.
            IsValid keys h' (touch keys k g nodes)
            × (h'.freed ≡ h.freed)
            × (h'.node_count ≡ h.node_count)
            × (read (m, j) h' ≡ ok (with_val g x))
      go a at w =
          let own : contents a ≡ homed h.bucket_count m nodes =
            sym (ap chain_of at) ∙ v.table.chains m (omega (arith, v.some_bucket)) in
          let here : IsAt keys k (contents a) j x =
            subst (λ c. IsAt keys k c j x) (ap chain_of at) i in
          let inside : j < a.count =
            omega (arith, get_elem?_lt (contents a) j x here.at, length-contents a w) in
          let once : count keys k (contents a) ≤ 1 = omega (
            arith,
            ap (count keys k) own,
            count-homed-le keys k h.bucket_count m nodes,
            v.once k,
          ) in
          let b = record a { cells = some (set (block a) j (with_val g x)) } in
          let w' : Contents.IsValid b = record {
            sized = w.sized;
            stepped = w.stepped;
            allocated = length-set (block a) j (with_val g x) ∙ w.allocated;
            fits = w.fits;
          } in
          let c : contents b ≡ homed h.bucket_count m (touch keys k g nodes) =
            take-set a.count j (block a) (with_val g x)
            ∙ touch_at keys k g (contents a) j x here.at here.same once
            ∙ ap (touch keys k g) own
            ∙ touch-homed keys k g h.bucket_count m nodes in
          (
            record h { buckets = some (set v.buckets m b) },
            modify_run h m j g v.buckets a (block a) x v.allocated at
                (cells_some a w (omega (arith, w.fits)))
                (get_elem?-take_inv a.count j (block a) x here.at),
            (
              record {
                some_bucket = v.some_bucket;
                sized = v.sized;
                buckets = set v.buckets m b;
                allocated = refl;
                table =
                    set-IsTable v.buckets h.bucket_count nodes (touch keys k g nodes) m b v.table
                      (omega (arith, v.some_bucket)) w' c
                      (λ j ne.
                        sym (touch-homed keys k g h.bucket_count j nodes)
                        ∙ touch_absent keys k g (homed h.bucket_count j nodes)
                            (count-homed keys k h.bucket_count j nodes ∙ ground arith));
                counted = v.counted ∙ sym (length-touch keys k g nodes);
                once = λ q. omega (arith, count-touch keys k g q nodes, v.once q);
                hashed = Hashed-touch keys k g nodes v.hashed;
              },
              refl,
              refl,
              read_run (record h { buckets = some (set v.buckets m b) }) m j (set v.buckets m b) b
                  (with_val g x) refl
                  (get_elem?-set_self v.buckets m b (omega (arith, v.table.width, v.some_bucket)))
                  (load-set a b j (with_val g x) w' inside
                    (take-set a.count j (block a) (with_val g x))
                    (omega (arith, length-contents a w))),
            ),
          )

module _ {K V : Type 0} (keys : Keys K) (laws : IsKeys keys) (k : K) (h : Hash K V)
    (f : K → Option V) (m : Models keys f h) where
  -- The value of the key changes, and no other.
  pub modify-Models :
      (g : V → V) (p : ℕ × ℕ)
      → Located keys k h m.nodes m.valid (some p)
      → Returns (modify p g h) λ h'.
        Models keys (update keys k (map_val keys k g (f k)) f) h'
        × (h'.freed ≡ h.freed)
        × (h'.node_count ≡ h.node_count)
        × (x : Node K V) × (f k ≡ some x.val)
        × (read p h' ≡ ok (with_val g x))
  modify-Models g (i, j) (x, at, is, e) =
      let (h', run, (v, fr, n, here)) = modify_lem keys k g h m.nodes m.valid j x is in
      (
        h',
        ap (λ i. modify (i, j) g h) at ∙ run,
        (
          record {
            nodes = touch keys k g m.nodes;
            valid = v;
            reads = λ q.
                last_match-touch keys k g laws q m.nodes m.valid.hashed
                ∙ ap (λ o. if same keys q k then map_val keys k g o else last_match keys q m.nodes)
                    (m.reads k)
                ∙ ap (λ o. if same keys q k then map_val keys k g (f k) else o) (m.reads q);
          },
          fr,
          n,
          x,
          sym (m.reads k) ∙ e,
          ap (λ i. read (i, j) h') at ∙ here,
        ),
      )

  -- A map with the value that it has is the same map.
  pub same-Models : (o : Option V) → f k ≡ o → Models keys (update keys k o f) h
  same-Models o e = record {
    nodes = m.nodes;
    valid = m.valid;
    reads = λ q.
        m.reads q
        ∙ agree q (λ s.
          sym (m.reads q) ∙ last_match_same keys k laws q m.nodes m.valid.hashed s ∙ m.reads k ∙ e);
  }
    where
      agree : (q : K) → (same keys q k ≡ true → f q ≡ o) → f q ≡ update keys k o f q
      agree q a = elim (Bool-cases (same keys q k)) [ inl s ↦ rw s (a s) | inr s ↦ rw s refl ]

  -- Of two values set in turn the second stays.
  pub update-Models :
      (o o' : Option V) (h' : Hash K V)
      → Models keys (update keys k o' (update keys k o f)) h'
      → Models keys (update keys k o' f) h'
  update-Models o o' h' m' = record {
    nodes = m'.nodes;
    valid = m'.valid;
    reads = λ q. m'.reads q ∙ twice (same keys q k) (f q);
  }
    where
      twice :
          (b : Bool) (r : Option V) → (if b then o' else if b then o else r) ≡ (if b then o' else r)
      twice true r = refl
      twice false r = refl
