-- ===== src/Llist/Linked.antt =====
-- The operations on linked lists are those on the lists of their nodes.
use bklib.Base.{
  ℕ, ◌≡◌, ◌≢◌, refl, sym, ap, ◌∙◌, subst, List, [], ◌∷◌, ◌++◌, append-nil, arith, ◌==◌, ◌||◌,
  if◌then◌else◌,
}
use bklib.Llist.{Store, add_behind, add_after, remove, append, init, insert, to_tail}
use bklib.Llist.Chain.{
  Fresh, Distinct, first, last, Chain, last-append, Fresh-last, Fresh-first, Fresh-append,
  append-Fresh, last-Fresh, Distinct-put, Distinct-take, Chain-next, Chain-prev, Chain-past, Same,
}
use bklib.Llist.Splice.{
  Chain-put, Chain-take, add_facts, add_prev, remove_first, remove_behind, last-head,
}

module _ (head : ℕ) where
  -- The store has the links of the list `xs` of nodes.
  pub record Linked (s : Store) (xs : List ℕ) : Type 0 where
    pub head_some : head ≢ 0
    pub no_head : Fresh head xs
    pub no_null : Fresh 0 xs
    pub distinct : Distinct xs
    pub chain : Chain s head 0 xs
    pub at_tail : s.tail ≡ last 0 xs

  -- `llist_init` makes an empty list.
  pub init_lem : (s : Store) → head ≢ 0 → Linked (init head s) []
  unfolding init
  init_lem s h = record {
    head_some = h;
    no_head = _;
    no_null = _;
    distinct = _;
    chain = ground arith;
    at_tail = refl;
  }

  -- An address that a new node may have.
  pub record Free (x : ℕ) (xs : List ℕ) : Type 0 where
    pub some : x ≢ 0
    pub no_head : x ≢ head
    pub unused : Fresh x xs

  add_tail :
      (t c x : ℕ) (ys : List ℕ)
      → t ≡ last (if c == head then 0 else c) ys
      → Fresh 0 ys
      → Fresh c ys
      → (if t == 0 || t == c then x else t) ≡ last x ys
  add_tail t c x [] e z f = ground arith
  add_tail t c x (y ∷ ys) e z f =
      let m = Fresh-last 0 y ys z.0 z.1 in let n = Fresh-last c y ys f.0 f.1 in ground arith

  after_tail :
      (s : Store) (c x : ℕ)
      → c ≢ 0
      → (add_behind head s c x).tail ≡ (if s.tail == 0 || s.tail == c then x else s.tail)
  unfolding add_behind
  after_tail s c x nz = ground arith

  -- `llist_add_after` behind the last node of a part, where that is not null.
  add_at :
      (s : Store) (xs ys : List ℕ) (x : ℕ)
      → Linked s (xs ++ ys)
      → Free x (xs ++ ys)
      → Linked (add_behind head s (last head xs) x) (xs ++ x ∷ ys)
  add_at s xs ys x l f =
      let (h, h') = Fresh-append head xs ys l.no_head in
      let (z, z') = Fresh-append 0 xs ys l.no_null in
      let (f₀, f₁) = Fresh-append x xs ys f.unused in
      let (d, p, nz) = last-head head xs l.head_some h z in
      let on = Chain-next s head 0 xs ys l.chain in
      let xc = Fresh-last x head xs f.no_head f₀ in
      let nx : s.next (last head xs) ≢ x = λ e. Fresh-first x ys f.some f₁ (sym e ∙ on) in
      let (same, to, past, back) = add_facts head s (last head xs) x nz xc f.no_head nx in
      let behind = last-Fresh head xs ys (l.no_head, l.distinct) in
      record {
        head_some = l.head_some;
        no_head = append-Fresh head xs (x ∷ ys) h ((λ e. f.no_head (sym e)), h');
        no_null = append-Fresh 0 xs (x ∷ ys) z ((λ e. f.some (sym e)), z');
        distinct = Distinct-put x xs ys l.distinct f.unused;
        chain =
            Chain-put s (add_behind head s (last head xs) x) x head 0 xs ys
              (subst (Same s (add_behind head s (last head xs) x) (last head xs) x) on same) to
              (past ∙ on) (add_prev head s (last head xs) x nz xc nx ∙ d)
              (subst (λ n. n ≢ 0 → (add_behind head s (last head xs) x).prev n ≡ x) on back)
              l.no_null (l.no_head, l.distinct) f.no_head f.unused l.chain;
        at_tail =
            after_tail s (last head xs) x nz
            ∙ add_tail s.tail (last head xs) x ys
                (l.at_tail ∙ last-append 0 xs ys ∙ ap (λ e. last e ys) (sym d)) z' behind
            ∙ sym (last-append 0 xs (x ∷ ys));
      }

  -- On a store whose links are those of the list `xs ++ ys`, forward, back and at the tail, and
  -- for a node that is not on it, `llist_add_after` behind the last node of `xs`, or with a null
  -- pointer if there is none, leaves the links of `xs ++ x ∷ ys`.
  pub add_after_lem :
      (s : Store) (xs ys : List ℕ) (x : ℕ)
      → Linked s (xs ++ ys)
      → Free x (xs ++ ys)
      → Linked (add_after head s (last 0 xs) x) (xs ++ x ∷ ys)
  unfolding add_after
  add_after_lem s xs ys x l f =
      let (h, _) = Fresh-append head xs ys l.no_head in
      let (z, _) = Fresh-append 0 xs ys l.no_null in
      let (_, p, _) = last-head head xs l.head_some h z in
      subst (λ t. Linked t (xs ++ x ∷ ys)) (sym (ap (λ c. add_behind head s c x) p))
        (add_at s xs ys x l f)

  -- `llist_insert` puts a new node first.
  pub insert_lem :
      (s : Store) (xs : List ℕ) (x : ℕ)
      → Linked s xs
      → Free x xs
      → Linked (insert head s x) (x ∷ xs)
  unfolding insert add_after
  insert_lem s xs x l f =
      let at_head : (if head == 0 then head else head) ≡ head = ground arith in
      subst (λ c. Linked (add_behind head s c x) (x ∷ xs)) (sym at_head) (add_at s [] xs x l f)

  -- `llist_append` puts a new node last.
  pub append_lem :
      (s : Store) (xs : List ℕ) (x : ℕ)
      → Linked s xs
      → Free x xs
      → Linked (append head s x) (xs ++ x ∷ [])
  unfolding append
  append_lem s xs x l f =
      subst (λ t. Linked (add_after head s t x) (xs ++ x ∷ [])) (sym l.at_tail)
        (add_after_lem s xs [] x (subst (Linked s) (sym (append-nil xs)) l)
          (subst (Free x) (sym (append-nil xs)) f))

  cut_tail :
      (t d x : ℕ) (ys : List ℕ) → t ≡ last x ys → Fresh x ys → (if x == t then d else t) ≡ last d ys
  cut_tail t d x [] e f = ground arith
  cut_tail t d x (y ∷ ys) e f = let n = Fresh-last x y ys f.0 f.1 in ground arith

  removed_tail :
      (s : Store) (x : ℕ) → (remove head s x).tail ≡ (if x == s.tail then s.prev x else s.tail)
  unfolding remove
  removed_tail s x = refl

  abbrev pub Removal : Store → ℕ → ℕ → ℕ → ℕ → Type 0
  Removal s x c d n =
      Same s (remove head s x) c x n
      × ((remove head s x).next c ≡ n)
      × (n ≢ 0 → (remove head s x).prev n ≡ d)

  removal :
      (s : Store) (xs ys : List ℕ) (x : ℕ)
      → Linked s (xs ++ x ∷ ys)
      → Removal s x (last head xs) (last 0 xs) (first ys)
  removal s [] ys x l =
      let on = Chain-past s head 0 x [] ys l.chain in
      let nx = Fresh-first x ys (λ e. l.no_null.0 (sym e)) l.distinct.0 in
      subst (Removal s x head 0) on (
        remove_first head s x l.head_some (λ e. l.no_head.0 (sym e)) l.chain.0
          (λ e. nx (sym e ∙ on)))
  removal s (w ∷ xs) ys x l =
      let on = Chain-past s head 0 x (w ∷ xs) ys l.chain in
      let (h, top, c) = l.chain in
      let some = Fresh-last 0 w xs l.no_null.0 (Fresh-append 0 xs (x ∷ ys) l.no_null.1).0 in
      let out = Fresh-last head w xs l.no_head.0 (Fresh-append head xs (x ∷ ys) l.no_head.1).0 in
      let (wx, wy) = (Fresh-append w xs (x ∷ ys) l.distinct.0).1 in
      let wn = Fresh-first w ys (λ e. l.no_null.0 (sym e)) wy in
      subst (Removal s x (last w xs) (last w xs)) on (
        remove_behind head s (last w xs) x (Chain-prev s w w x xs ys c) (λ e. some (sym e))
          (λ e. out (sym e)) (last-Fresh w xs (x ∷ ys) l.distinct).0 (λ e. wx (sym h ∙ e))
          (λ e. l.no_null.0 (sym e ∙ h)) (λ e. wn (sym h ∙ e ∙ on)) (ap s.prev h ∙ top))

  -- On a store whose links are those of the list `xs ++ x ∷ ys`, wherever the node `x` stands in
  -- it, `llist_remove` leaves the links of `xs ++ ys`.
  pub remove_lem :
      (s : Store) (xs ys : List ℕ) (x : ℕ)
      → Linked s (xs ++ x ∷ ys)
      → Linked (remove head s x) (xs ++ ys)
  remove_lem s xs ys x l =
      let (h, h') = Fresh-append head xs (x ∷ ys) l.no_head in
      let (z, z') = Fresh-append 0 xs (x ∷ ys) l.no_null in
      let (distinct, unused) = Distinct-take x xs ys l.distinct in
      let no_head = append-Fresh head xs ys h h'.1 in
      let no_null = append-Fresh 0 xs ys z z'.1 in
      let (same, to, back) = removal s xs ys x l in
      record {
        head_some = l.head_some;
        no_head = no_head;
        no_null = no_null;
        distinct = distinct;
        chain =
            Chain-take s (remove head s x) x head 0 xs ys same to back no_null (no_head, distinct)
              (λ e. h'.0 (sym e)) unused l.chain;
        at_tail =
            removed_tail s x
            ∙ cut_tail s.tail (s.prev x) x ys (l.at_tail ∙ last-append 0 xs (x ∷ ys))
                (Fresh-append x xs ys unused).1
            ∙ ap (λ d. last d ys) (Chain-prev s head 0 x xs ys l.chain)
            ∙ sym (last-append 0 xs ys);
      }

  -- On a store whose links are those of the list `xs ++ x ∷ ys`, `llist_to_tail` leaves those of
  -- `xs ++ ys` with `x` behind it.
  pub to_tail_lem :
      (s : Store) (xs ys : List ℕ) (x : ℕ)
      → Linked s (xs ++ x ∷ ys)
      → Linked (to_tail head s x) ((xs ++ ys) ++ x ∷ [])
  unfolding to_tail
  to_tail_lem s xs ys x l =
      append_lem (remove head s x) (xs ++ ys) x (remove_lem s xs ys x l) record {
        some = λ e. (Fresh-append 0 xs (x ∷ ys) l.no_null).1.0 (sym e);
        no_head = λ e. (Fresh-append head xs (x ∷ ys) l.no_head).1.0 (sym e);
        unused = (Distinct-take x xs ys l.distinct).1;
      }
