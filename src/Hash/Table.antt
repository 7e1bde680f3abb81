-- ===== src/Hash/Table.antt =====
-- Buckets that hold a list of nodes, each in the bucket of its hash; and what adding a node does.
use bklib.Base.{
  ℕ, zero, suc, ◌%◌, ◌<◌, ◌≡◌, ◌≢◌, refl, sym, ap, ◌∙◌, true, Option, none, some, List, [], ◌∷◌,
  ◌++◌, ok, Returns, arith, ◌==◌, length, if◌then◌else◌, get_elem?, get_elem?-some, set, length-set,
  append-nil, subst, get_elem?-set_ne, get_elem?-set_self,
}
use bklib.Array.{Array}
use bklib.Array.Cells.{Memory}
use bklib.Array.Contents.{contents, IsValid}
use bklib.Array.Grow.Append.{append_lem}
use bklib.Hash.{Node, slot, push}
use bklib.Hash.Chains.{homed, homed-append}
use native.Mathlib.Decide.{ℕ_discrete}
use mathlib.Core.Option.{some-injective}

abbrev pub Grants : {A : Type 0} → Memory A → Type 0
Grants mem = (n : ℕ) → mem.grant n ≡ true

pub slot_lem : (h n : ℕ) → 0 < n → slot h n ≡ ok (h % n)
unfolding slot
slot_lem h zero k = absurd (omega arith)
slot_lem h (suc n) k = refl

module _ {K V : Type 0} where
  -- The nodes of a bucket.
  abbrev pub chain_of : Option (Array (Node K V)) → List (Node K V)
  chain_of none = []
  chain_of (some a) = contents a

  abbrev pub chain : List (Array (Node K V)) → ℕ → List (Node K V)
  chain bs i = chain_of (get_elem? bs i)

  -- `n` well-formed buckets that hold the nodes `nodes`, in their order, each in its hash's bucket.
  pub record IsTable (bs : List (Array (Node K V))) (n : ℕ) (nodes : List (Node K V)) : Type 0 where
    pub width : length bs ≡ n
    pub valid : (i : ℕ) (a : Array (Node K V)) → get_elem? bs i ≡ some a → IsValid a
    pub chains : (i : ℕ) → i < n → chain bs i ≡ homed n i nodes

  -- Writing one bucket.
  pub set-IsTable :
      (bs : List (Array (Node K V))) (n : ℕ) (nodes nodes' : List (Node K V)) (i : ℕ)
      (a : Array (Node K V))
      → IsTable bs n nodes
      → i < n
      → IsValid a
      → contents a ≡ homed n i nodes'
      → ((j : ℕ) → i ≢ j → homed n j nodes' ≡ homed n j nodes)
      → IsTable (set bs i a) n nodes'
  set-IsTable bs n nodes nodes' i a t h v c rest = record {
    width = length-set bs i a ∙ t.width;
    valid = λ j b e. elim (ℕ_discrete i j) [
      | yes same ↦ subst IsValid (some-injective _ _ (sym (self j same) ∙ e)) v
      | no ne ↦ t.valid j b (sym (get_elem?-set_ne bs i j a inside ne) ∙ e)
    ];
    chains = λ j l. elim (ℕ_discrete i j) [
      | yes same ↦ ap chain_of (self j same) ∙ c ∙ ap (λ k. homed n k nodes') same
      | no ne ↦ ap chain_of (get_elem?-set_ne bs i j a inside ne) ∙ t.chains j l ∙ sym (rest j ne)
    ];
  }
    where
      inside : i < length bs
      inside = omega (arith, t.width)

      self : (j : ℕ) → i ≡ j → get_elem? (set bs i a) j ≡ some a
      self j same = ap (get_elem? (set bs i a)) (sym same) ∙ get_elem?-set_self bs i a inside

  homed_one :
      (n i : ℕ) (x : Node K V) → homed n i (x ∷ []) ≡ (if x.hash % n == i then x ∷ [] else [])
  unfolding homed
  homed_one n i x = refl

  -- A node pushed goes behind the others.
  pub push_lem :
      (mem : Memory (Node K V)) (x : Node K V) (bs : List (Array (Node K V))) (n : ℕ)
      (nodes : List (Node K V))
      → Grants mem
      → 0 < n
      → IsTable bs n nodes
      → Returns (push mem n x bs) (λ r. IsTable r n (nodes ++ x ∷ []))
  unfolding push
  push_lem mem x bs n nodes g h t =
      let i = x.hash % n in
      let inside : i < length bs = omega (arith, t.width) in
      let (a, at) = get_elem?-some bs i inside in
      let ((p, b), run, (where_, ext)) =
        append_lem mem (x ∷ []) a (t.valid i a at) (omega arith) (g _) in
      (
        set bs i b,
        ground (arith, slot_lem x.hash n, at, run, where_),
        set-IsTable bs n nodes (nodes ++ x ∷ []) i b t (omega arith) ext.valid
            (ext.holds
              ∙ ap (λ c. c ++ x ∷ []) (sym (ap chain_of at) ∙ t.chains i (omega arith))
              ∙ sym (
                  homed-append n i nodes (x ∷ [])
                  ∙ ap (λ c. homed n i nodes ++ c) (homed_one n i x ∙ ground arith)))
            (λ j ne.
              homed-append n j nodes (x ∷ [])
              ∙ ap (λ c. homed n j nodes ++ c) (homed_one n j x ∙ ground arith)
              ∙ append-nil _),
      )
