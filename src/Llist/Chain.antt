-- ===== src/Llist/Chain.antt =====
-- Chains of links in the store, and what a store keeps of them when a few links change.
use bklib.Base.{ℕ, ◌≡◌, ◌≢◌, refl, sym, ◌∙◌, List, [], ◌∷◌, ◌++◌}
use bklib.Llist.{Store}

-- An address that is none of those in a list, and lists without repetition.
abbrev pub Fresh : ℕ → List ℕ → Type 0
Fresh q [] = Unit {0}
Fresh q (x ∷ xs) = (q ≢ x) × Fresh q xs

abbrev pub Distinct : List ℕ → Type 0
Distinct [] = Unit {0}
Distinct (x ∷ xs) = Fresh x xs × Distinct xs

abbrev pub first : List ℕ → ℕ
first [] = 0
first (x ∷ xs) = x

abbrev pub last : ℕ → List ℕ → ℕ
last a [] = a
last a (x ∷ xs) = last x xs

-- The nodes `xs` are linked forward from `a` to the end, and back to `b`.
abbrev pub Chain : Store → ℕ → ℕ → List ℕ → Type 0
Chain s a b [] = s.next a ≡ 0
Chain s a b (x ∷ xs) = (s.next a ≡ x) × (s.prev x ≡ b) × Chain s x x xs

pub last-append : (a : ℕ) (xs ys : List ℕ) → last a (xs ++ ys) ≡ last (last a xs) ys
last-append a [] ys = refl
last-append a (x ∷ xs) ys = last-append x xs ys

pub Fresh-last : (q a : ℕ) (xs : List ℕ) → q ≢ a → Fresh q xs → q ≢ last a xs
Fresh-last q a [] n f = n
Fresh-last q a (x ∷ xs) n f = Fresh-last q x xs f.0 f.1

pub Fresh-first : (q : ℕ) (ys : List ℕ) → q ≢ 0 → Fresh q ys → q ≢ first ys
Fresh-first q [] n f = n
Fresh-first q (y ∷ ys) n f = f.0

pub Fresh-append : (q : ℕ) (xs ys : List ℕ) → Fresh q (xs ++ ys) → Fresh q xs × Fresh q ys
Fresh-append q [] ys f = (_, f)
Fresh-append q (x ∷ xs) ys f = let (g, h) = Fresh-append q xs ys f.1 in ((f.0, g), h)

pub append-Fresh : (q : ℕ) (xs ys : List ℕ) → Fresh q xs → Fresh q ys → Fresh q (xs ++ ys)
append-Fresh q [] ys f g = g
append-Fresh q (x ∷ xs) ys f g = (f.0, append-Fresh q xs ys f.1 g)

-- The last node of a part is none of those behind it.
pub last-Fresh : (a : ℕ) (xs ys : List ℕ) → Distinct (a ∷ (xs ++ ys)) → Fresh (last a xs) ys
last-Fresh a [] ys d = d.0
last-Fresh a (x ∷ xs) ys d = last-Fresh x xs ys d.1

-- A node put between two parts, and taken out.
pub Distinct-put :
    (x : ℕ) (xs ys : List ℕ) → Distinct (xs ++ ys) → Fresh x (xs ++ ys) → Distinct (xs ++ x ∷ ys)
Distinct-put x [] ys d f = (f, d)
Distinct-put x (w ∷ xs) ys d f =
    let (g, h) = Fresh-append w xs ys d.0 in
    (append-Fresh w xs (x ∷ ys) g ((λ e. f.0 (sym e)), h), Distinct-put x xs ys d.1 f.1)

pub Distinct-take :
    (x : ℕ) (xs ys : List ℕ) → Distinct (xs ++ x ∷ ys) → Distinct (xs ++ ys) × Fresh x (xs ++ ys)
Distinct-take x [] ys d = (d.1, d.0)
Distinct-take x (w ∷ xs) ys d =
    let (g, h) = Fresh-append w xs (x ∷ ys) d.0 in
    let (e, f) = Distinct-take x xs ys d.1 in
    ((append-Fresh w xs ys g h.1, e), ((λ p. h.0 (sym p)), f))

-- The links that lead from the last node of a part to the next, and back.
pub Chain-next :
    (s : Store) (a b : ℕ) (xs ys : List ℕ) → Chain s a b (xs ++ ys) → s.next (last a xs) ≡ first ys
Chain-next s a b [] [] c = c
Chain-next s a b [] (y ∷ ys) c = c.0
Chain-next s a b (x ∷ xs) ys c = Chain-next s x x xs ys c.2

pub Chain-prev :
    (s : Store) (a b x : ℕ) (xs ys : List ℕ) → Chain s a b (xs ++ x ∷ ys) → s.prev x ≡ last b xs
Chain-prev s a b x [] ys c = c.1
Chain-prev s a b x (w ∷ xs) ys c = Chain-prev s w w x xs ys c.2

pub Chain-past :
    (s : Store) (a b x : ℕ) (xs ys : List ℕ) → Chain s a b (xs ++ x ∷ ys) → s.next x ≡ first ys
Chain-past s a b x [] ys c = Chain-next s x x [] ys c.2
Chain-past s a b x (w ∷ xs) ys c = Chain-past s w w x xs ys c.2

-- Stores that agree but for the link forward of `c`, the link back of `n`, and the links of `x`.
module _ (s s' : Store) (c x n : ℕ) where
  pub record Same : Type 0 where
    pub next_same : (q : ℕ) → q ≢ c → q ≢ x → s'.next q ≡ s.next q
    pub prev_same : (q : ℕ) → q ≢ x → q ≢ n → s'.prev q ≡ s.prev q

  pub Chain-Same :
      Same
      → (a b : ℕ) (xs : List ℕ) → Fresh c (a ∷ xs)
      → Fresh x (a ∷ xs)
      → Fresh n xs
      → Chain s a b xs
      → Chain s' a b xs
  Chain-Same same a b [] f g h k = same.next_same a (λ e. f.0 (sym e)) (λ e. g.0 (sym e)) ∙ k
  Chain-Same same a b (y ∷ ys) f g h k = (
    same.next_same a (λ e. f.0 (sym e)) (λ e. g.0 (sym e)) ∙ k.0,
    same.prev_same y (λ e. g.1.0 (sym e)) (λ e. h.0 (sym e)) ∙ k.1,
    Chain-Same same y y ys f.1 g.1 h.1 k.2,
  )
