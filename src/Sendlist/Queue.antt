-- ===== src/Sendlist/Queue.antt =====
-- The queue as the list of its sendbufs: `sendlist_peek`, `sendlist_shift` and the write through the
-- pointer to the first one.
use bklib.Base.{
  ltb, ℕ, zero, suc, ◌+◌, ◌<◌, ◌≡◌, refl, sym, ap, ◌∙◌, true, false, none, some, List, [], ◌∷◌,
  ◌++◌, ok, Returns, arith, length, take, drop, get_elem?, set, length-set,
}
use bklib.Base.Int.{pos}
use bklib.Array.{Array, load, remove_idx}
use bklib.Array.Contents.{block, contents, IsValid, cells_some, load_lem, get_lem, get-past}
use mathlib.Core.Option.{some-injective}
use bklib.Array.Remove.{removed, remove_idx_lem}
use bklib.Sendlist.{Sendbuf, Sendlist, peek, poke, shift, release}

-- The sendbufs in the queue.
abbrev pub queue : Sendlist → List Sendbuf
queue s = contents s.sendbufs

pub peek-nil : (s : Sendlist) → s.sendbufs.count ≡ 0 → peek s ≡ none
unfolding peek
peek-nil s e = get-past s.sendbufs 0 (omega arith)

pub peek-cons : (s : Sendlist) → IsValid s.sendbufs → 0 < s.sendbufs.count → peek s ≡ some 0
unfolding peek
peek-cons s v h = get_lem s.sendbufs 0 v h

uncons : {A : Type 0} (xs : List A) (x : A) → get_elem? xs 0 ≡ some x → xs ≡ x ∷ drop 1 xs
uncons [] x e = absurd cc
uncons (y ∷ ys) x e = ap (λ z. z ∷ ys) (some-injective _ _ e)

-- The first sendbuf of a queue that is not empty.
pub head :
    (s : Sendlist)
    → IsValid s.sendbufs
    → 0 < s.sendbufs.count
    → (b : Sendbuf) × (load s.sendbufs (pos 0) ≡ ok b) × (queue s ≡ b ∷ drop 1 (queue s))
head s v h = let (b, run, at) = load_lem s.sendbufs 0 v h in (b, run, uncons (queue s) b at)

set_head :
    {A : Type 0} (n : ℕ) (xs : List A) (x : A)
    → 0 < n
    → 0 < length xs
    → take n (set xs 0 x) ≡ x ∷ drop 1 (take n xs)
set_head zero xs x h l = absurd (omega arith)
set_head (suc n) [] x h l = absurd (omega arith)
set_head (suc n) (y ∷ ys) x h l = refl

-- The write changes the first sendbuf and nothing else.
pub poke_lem :
    (s : Sendlist) (b : Sendbuf)
    → IsValid s.sendbufs
    → 0 < s.sendbufs.count
    → let xs = set (block s.sendbufs) 0 b in
      let r = record s { sendbufs = record s.sendbufs { cells = some xs } } in
      (poke b s ≡ ok r) × IsValid r.sendbufs × (queue r ≡ b ∷ drop 1 (queue s))
unfolding poke
poke_lem s b v h = (
  rw (cells_some s.sendbufs v (omega arith)) refl,
  record {
    sized = v.sized;
    stepped = v.stepped;
    allocated = length-set (block s.sendbufs) 0 b ∙ v.allocated;
    fits = v.fits;
  },
  set_head s.sendbufs.count (block s.sendbufs) b h (omega arith),
)

shift_run :
    (s : Sendlist) (b : Sendbuf) (a : Array Sendbuf)
    → peek s ≡ some 0
    → load s.sendbufs (pos 0) ≡ ok b
    → remove_idx (pos 0) (pos 1) s.sendbufs ≡ ok a
    → shift s ≡ ok (true, record s { sendbufs = a; freed = s.freed ++ release b })
unfolding shift
shift_run s b a e f g = rw (shift, e, f, g) refl

-- `sendlist_shift` releases the first sendbuf and leaves the others.
pub shift_lem :
    (s : Sendlist) (b : Sendbuf)
    → IsValid s.sendbufs
    → 0 < s.sendbufs.count
    → load s.sendbufs (pos 0) ≡ ok b
    → Returns (shift s) λ r.
      (r.0 ≡ true)
      × IsValid r.1.sendbufs
      × (queue r.1 ≡ drop 1 (queue s))
      × (r.1.sendbufs.count + 1 ≡ s.sendbufs.count)
      × (r.1.freed ≡ s.freed ++ release b)
      × (r.1.send_fd ≡ s.send_fd)
      × (r.1.flushed_func ≡ s.flushed_func)
      × (r.1.flushed ≡ s.flushed)
shift_lem s b v h run =
    let (a, run', (v', n, c)) = remove_idx_lem s.sendbufs v (pos 1) 0 h in
    let one = removed_one s.sendbufs.count h in
    (
      (true, record s { sendbufs = a; freed = s.freed ++ release b }),
      shift_run s b a (peek-cons s v h) run run',
      (
        refl,
        v',
        c ∙ ap (λ n. drop (0 + n) (queue s)) one,
        omega (arith, n, one),
        refl,
        refl,
        refl,
        refl,
      ),
    )
  where
    removed_one : (n : ℕ) → 0 < n → removed n 0 (pos 1) ≡ 1
    removed_one n h = ground arith

-- The callbacks of the sendbufs of a queue, and of those that were freed.
unfoldable pub callbacks : List Sendbuf → List ℕ
callbacks [] = []
callbacks (b ∷ q) = elim b.free_func [ none ↦ callbacks q | some f ↦ f ∷ callbacks q ]

unfoldable pub callers : List (ℕ × Sendbuf) → List ℕ
callers [] = []
callers (c ∷ cs) = c.0 ∷ callers cs

pub callers-release :
    (cs : List (ℕ × Sendbuf)) (b : Sendbuf) (q : List Sendbuf)
    → callers (cs ++ release b) ++ callbacks q ≡ callers cs ++ callbacks (b ∷ q)
unfolding callers callbacks
callers-release [] b q = ground arith
callers-release (c ∷ cs) b q = ap (λ l. c.0 ∷ l) (callers-release cs b q)

pub count_zero : (s : Sendlist) → s.sendbufs.count ≡ 0 → queue s ≡ []
count_zero s e = ap (λ n. take n (block s.sendbufs)) e

pub ltb-false-zero : (n : ℕ) → ltb 0 n ≡ false → n ≡ 0
ltb-false-zero n h = ground arith

first : {A : Type 0} → A → List A → A
first d [] = d
first d (x ∷ xs) = x

load_first :
    (s : Sendlist) (b : Sendbuf) (q : List Sendbuf)
    → IsValid s.sendbufs
    → 0 < s.sendbufs.count
    → queue s ≡ b ∷ q
    → load s.sendbufs (pos 0) ≡ ok b
unfolding first
load_first s b q v h at =
    let (c, l, at') = head s v h in l ∙ ap (λ z. ok (first b z)) (sym at' ∙ at)

-- A sendbuf that is sent leaves the queue.
pub shifted :
    (s : Sendlist) (b : Sendbuf) (q : List Sendbuf)
    → IsValid s.sendbufs
    → 0 < s.sendbufs.count
    → queue s ≡ b ∷ q
    → Returns (shift s) λ r.
      (r.0 ≡ true)
      × IsValid r.1.sendbufs
      × (queue r.1 ≡ q)
      × (r.1.sendbufs.count + 1 ≡ s.sendbufs.count)
      × (callers r.1.freed ++ callbacks (queue r.1) ≡ callers s.freed ++ callbacks (queue s))
      × (r.1.send_fd ≡ s.send_fd)
      × (r.1.flushed_func ≡ s.flushed_func)
      × (r.1.flushed ≡ s.flushed)
shifted s b q v h at =
    let (r, run, (more, v', rest, n, fr, g, g', quiet)) =
      shift_lem s b v h (load_first s b q v h at) in
    let left : queue r.1 ≡ q = rest ∙ ap (drop 1) at in
    (
      r,
      run,
      (
        more,
        v',
        left,
        n,
        ap (λ c. callers c ++ callbacks (queue r.1)) fr
            ∙ ap (λ c. callers (s.freed ++ release b) ++ callbacks c) left
            ∙ callers-release s.freed b q
            ∙ ap (λ c. callers s.freed ++ callbacks c) (sym at),
        g,
        g',
        quiet,
      ),
    )
