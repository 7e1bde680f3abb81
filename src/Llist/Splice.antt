-- ===== src/Llist/Splice.antt =====
-- A node put into a chain and taken out of it, and the links that the operations change.
use bklib.Base.{ℕ, ◌≡◌, ◌≢◌, sym, ◌∙◌, List, [], ◌∷◌, ◌++◌, arith, ◌==◌, if◌then◌else◌}
use bklib.Llist.{Store, add_behind, remove}
use bklib.Llist.Chain.{
  Fresh, Distinct, first, last, Chain, Fresh-last, Fresh-first, Fresh-append, Same, Chain-Same,
}

-- A node put between two parts of a chain.
module _ (s s' : Store) (x : ℕ) where
  pub Chain-put :
      (a b : ℕ) (xs ys : List ℕ)
      → Same s s' (last a xs) x (first ys)
      → s'.next (last a xs) ≡ x
      → s'.next x ≡ first ys
      → s'.prev x ≡ last b xs
      → (first ys ≢ 0 → s'.prev (first ys) ≡ x)
      → Fresh 0 (xs ++ ys)
      → Distinct (a ∷ (xs ++ ys))
      → x ≢ a
      → Fresh x (xs ++ ys)
      → Chain s a b (xs ++ ys)
      → Chain s' a b (xs ++ x ∷ ys)
  Chain-put a b [] [] same to on back link z d n f c = (to, back, on)
  Chain-put a b [] (y ∷ ys) same to on back link z d n f c =
      (to, back, (on, link (λ e. z.0 (sym e)), Chain-Same s s' a x y same y y ys d.0 f d.1.0 c.2))
  Chain-put a b (w ∷ xs) ys same to on back link z d n f c = (
    same.next_same a (Fresh-last a w xs d.0.0 (Fresh-append a xs ys d.0.1).0) (λ e. n (sym e))
        ∙ c.0,
    same.prev_same w (λ e. f.0 (sym e))
          (Fresh-first w ys (λ e. z.0 (sym e)) (Fresh-append w xs ys d.1.0).1)
        ∙ c.1,
    Chain-put w w xs ys same to on back link z.1 d.1 f.0 f.1 c.2,
  )

  -- A node taken from between them.
  pub Chain-take :
      (a b : ℕ) (xs ys : List ℕ)
      → Same s s' (last a xs) x (first ys)
      → s'.next (last a xs) ≡ first ys
      → (first ys ≢ 0 → s'.prev (first ys) ≡ last b xs)
      → Fresh 0 (xs ++ ys)
      → Distinct (a ∷ (xs ++ ys))
      → x ≢ a
      → Fresh x (xs ++ ys)
      → Chain s a b (xs ++ x ∷ ys)
      → Chain s' a b (xs ++ ys)
  Chain-take a b [] [] same to back z d n f c = to
  Chain-take a b [] (y ∷ ys) same to back z d n f c =
      (to, back (λ e. z.0 (sym e)), Chain-Same s s' a x y same y y ys d.0 f d.1.0 c.2.2)
  Chain-take a b (w ∷ xs) ys same to back z d n f c = (
    same.next_same a (Fresh-last a w xs d.0.0 (Fresh-append a xs ys d.0.1).0) (λ e. n (sym e))
        ∙ c.0,
    same.prev_same w (λ e. f.0 (sym e))
          (Fresh-first w ys (λ e. z.0 (sym e)) (Fresh-append w xs ys d.1.0).1)
        ∙ c.1,
    Chain-take w w xs ys same to back z.1 d.1 f.0 f.1 c.2,
  )

module _ (head : ℕ) where
  -- The links that `llist_add_after` changes.
  pub add_facts :
      (s : Store) (c x : ℕ)
      → c ≢ 0
      → x ≢ c
      → x ≢ head
      → s.next c ≢ x
      → Same s (add_behind head s c x) c x (s.next c)
        × ((add_behind head s c x).next c ≡ x)
        × ((add_behind head s c x).next x ≡ s.next c)
        × (s.next c ≢ 0 → (add_behind head s c x).prev (s.next c) ≡ x)
  unfolding add_behind
  add_facts s c x nz xc xh nx = (
    record { next_same = λ q e f. ground arith; prev_same = λ q e f. ground arith },
    ground arith,
    ground arith,
    λ e. ground arith,
  )

  pub add_prev :
      (s : Store) (c x : ℕ)
      → c ≢ 0
      → x ≢ c
      → s.next c ≢ x
      → (add_behind head s c x).prev x ≡ (if c == head then 0 else c)
  unfolding add_behind
  add_prev s c x nz xc nx = ground arith

  -- The links that `llist_remove` changes: of the first node, and of one behind it.
  pub remove_first :
      (s : Store) (x : ℕ)
      → head ≢ 0
      → x ≢ head
      → s.next head ≡ x
      → s.next x ≢ x
      → Same s (remove head s x) head x (s.next x)
        × ((remove head s x).next head ≡ s.next x)
        × (s.next x ≢ 0 → (remove head s x).prev (s.next x) ≡ 0)
  unfolding remove
  remove_first s x hz xh on nx = (
    record { next_same = λ q e f. ground arith; prev_same = λ q e f. ground arith },
    ground arith,
    λ e. ground arith,
  )

  pub remove_behind :
      (s : Store) (c x : ℕ)
      → s.prev x ≡ c
      → c ≢ 0
      → c ≢ head
      → c ≢ x
      → s.next head ≢ x
      → s.next head ≢ 0
      → s.next head ≢ s.next x
      → s.prev (s.next head) ≡ 0
      → Same s (remove head s x) c x (s.next x)
        × ((remove head s x).next c ≡ s.next x)
        × (s.next x ≢ 0 → (remove head s x).prev (s.next x) ≡ c)
  unfolding remove
  remove_behind s c x back nz ch cx hx hz hn top = (
    record { next_same = λ q e f. ground arith; prev_same = λ q e f. ground arith },
    ground arith,
    λ e. ground arith,
  )

  -- The node in front of a place, as the code names it, and as the links do.
  pub last-head :
      (xs : List ℕ)
      → head ≢ 0
      → Fresh head xs
      → Fresh 0 xs
      → ((if last head xs == head then 0 else last head xs) ≡ last 0 xs)
        × ((if last 0 xs == 0 then head else last 0 xs) ≡ last head xs)
        × (last head xs ≢ 0)
  last-head [] h f z = (ground arith, ground arith, h)
  last-head (w ∷ xs) h f z =
      let n = Fresh-last head w xs f.0 f.1 in
      let m = Fresh-last 0 w xs z.0 z.1 in (ground arith, ground arith, λ e. m (sym e))
