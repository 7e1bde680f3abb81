-- ===== src/Hash/Functions.antt =====
-- hash.c: the hash and comparison functions that the library gives for integer keys and for strings,
-- with and without regard to case. A string is its bytes, without the zero at the end; of the results
-- of `strcmp` and `strcasecmp` only the sign is kept, which is all that C says of them.
use bklib.Base.{
  ℕ, ◌+◌, ◌-◌, ◌*◌, ◌/◌, ◌%◌, ◌^◌, ◌<◌, ◌≡◌, refl, ap, Bool, true, false, ◌&&◌, List, [], ◌∷◌, map,
  arith, sym, ◌∙◌, ◌↔◌, leb, ltb, ◌==◌, ==_iff, if◌then◌else◌,
}
use bklib.Base.Int.{ℤ, pos, negsuc, is_zero}
use bklib.Hash.{Keys}
use bklib.Hash.Chains.{IsKeys, same}
use Prim.Native.Nat.{bit_and, bit_xor}

-- The values of an `int` and an `unsigned long`.
abbrev to_int : ℕ → ℤ
to_int n = let w = n % 2 ^ 32 in if ltb w (2 ^ 31) then pos w else negsuc (2 ^ 32 - w - 1)

-- `hash_hash_int` and `hash_cmp_int`: the keys are 64-bit pointers, their difference is cut to an
-- `int`.
unfoldable pub hash_int : ℕ → ℕ
hash_int key = key % 2 ^ 64

unfoldable pub cmp_int : ℕ → ℕ → ℤ
cmp_int key1 key2 = to_int ((key1 % 2 ^ 64 + 2 ^ 64 - key2 % 2 ^ 64) % 2 ^ 64)

unfoldable pub int_keys : Keys ℕ
unfolding hash_int cmp_int
int_keys = record { hash = hash_int; cmp = cmp_int }

-- `tolower` in the C locale.
unfoldable pub tolower : ℕ → ℕ
tolower c = if leb b'A' c && leb c b'Z' then c + 32 else c

-- One round of `hash_str_elf_nocase`, over 64-bit words.
abbrev elf_round : ℕ → ℕ → ℕ
elf_round h c =
    let h = (h * 16 + c) % 2 ^ 64 in
    let g = bit_and h 0xF0000000 in
    let h = if g == 0 then h else bit_xor h (g / 2 ^ 24) in bit_and h (2 ^ 64 - 1 - g)

unfoldable pub hash_str_elf_nocase : List ℕ → ℕ → Bool → ℕ
unfolding tolower
hash_str_elf_nocase [] h nocase = h
hash_str_elf_nocase (c ∷ s) h nocase =
    hash_str_elf_nocase s (elf_round h (if nocase then tolower c else c)) nocase

-- `hash_str_elf`
unfoldable pub hash_str_elf : List ℕ → ℕ → ℕ
unfolding hash_str_elf_nocase
hash_str_elf s h = hash_str_elf_nocase s h false

-- `strcmp` of the two strings as `f` shows their bytes.
compare_by : (ℕ → ℕ) → List ℕ → List ℕ → ℤ
compare_by f [] [] = pos 0
compare_by f [] (y ∷ t) = negsuc 0
compare_by f (x ∷ s) [] = pos 1
compare_by f (x ∷ s) (y ∷ t) =
    if f x == f y then compare_by f s t else if ltb (f x) (f y) then negsuc 0 else pos 1

-- `hash_hash_str`, `hash_cmp_str`, and the two that ignore case.
unfoldable pub str_keys : Keys (List ℕ)
unfolding hash_str_elf compare_by
str_keys = record { hash = λ s. hash_str_elf s 0; cmp = compare_by (λ c. c) }

unfoldable pub str_keys_nocase : Keys (List ℕ)
unfolding hash_str_elf_nocase compare_by tolower
str_keys_nocase = record { hash = λ s. hash_str_elf_nocase s 0 true; cmp = compare_by tolower }

-- The difference of a word and itself is 0.
sub_self-is_zero : (x : ℕ) → is_zero (to_int ((x + 2 ^ 64 - x) % 2 ^ 64)) ≡ true
sub_self-is_zero x = cong (sub_self x)
  where
    sub_self : (x : ℕ) → x + 2 ^ 64 - x ≡ 2 ^ 64
    sub_self x = omega arith

    cong : x + 2 ^ 64 - x ≡ 2 ^ 64 → is_zero (to_int ((x + 2 ^ 64 - x) % 2 ^ 64)) ≡ true
    cong e = ap (λ d. is_zero (to_int (d % 2 ^ 64))) e

-- Two integer keys have equal results of `hash_hash_int` and a result 0 of `hash_cmp_int`, which
-- cuts their difference to 32 bits, exactly if they are the same 64-bit word.
same-int_keys : (a b : ℕ) → same int_keys a b ≡ (a % 2 ^ 64 == b % 2 ^ 64)
unfolding int_keys
same-int_keys a b =
    and_left (a % 2 ^ 64 == b % 2 ^ 64) (is_zero (cmp_int a b))
      (λ h. zero (a % 2 ^ 64) (b % 2 ^ 64) ((==_iff (a % 2 ^ 64) (b % 2 ^ 64)).0 h))
  where
    and_left : (p q : Bool) → (p ≡ true → q ≡ true) → (p && q) ≡ p
    and_left true q h = h refl
    and_left false q h = refl

    zero : (x y : ℕ) → x ≡ y → is_zero (to_int ((x + 2 ^ 64 - y) % 2 ^ 64)) ≡ true
    zero x y e = ap (λ z. is_zero (to_int ((x + 2 ^ 64 - z) % 2 ^ 64))) (sym e) ∙ sub_self-is_zero x

-- The cut difference is 0 for keys whose low 32 bits are the same.
cmp_int-zero : (a b : ℕ) → is_zero (cmp_int a b) ≡ (a % 2 ^ 32 == b % 2 ^ 32)
unfolding cmp_int
cmp_int-zero a b = ground arith

cmp_int_above : (b d : ℕ) → d < 2 ^ 31 → cmp_int ((b + d) % 2 ^ 64) b ≡ pos d
unfolding cmp_int
cmp_int_above b d h = ground arith

cmp_int_below : (b d : ℕ) → d < 2 ^ 31 → cmp_int b ((b + d + 1) % 2 ^ 64) ≡ negsuc d
unfolding cmp_int
cmp_int_below b d h = ground arith

-- Two integer keys have equal results of `hash_hash_int` and a result 0 of `hash_cmp_int` exactly
-- if they are the same 64-bit word; the comparison alone, which cuts the difference to an `int`,
-- gives 0 exactly if their low 32 bits are the same; and for a distance below 2 ^ 31, the
-- comparison with the key that far above, across the wrap-around, gives the distance, and in the
-- other order, with the key one further, one less than minus the distance.
pub int_keys_lem :
    (a b d : ℕ)
    → d < 2 ^ 31
    → (same int_keys a b ≡ (a % 2 ^ 64 == b % 2 ^ 64))
      × (is_zero (cmp_int a b) ≡ (a % 2 ^ 32 == b % 2 ^ 32))
      × (cmp_int ((b + d) % 2 ^ 64) b ≡ pos d)
      × (cmp_int b ((b + d + 1) % 2 ^ 64) ≡ negsuc d)
int_keys_lem a b d h =
    (same-int_keys a b, cmp_int-zero a b, cmp_int_above b d h, cmp_int_below b d h)

-- The hash function and the comparison tell two keys apart exactly when `f` does.
separated {ℓ} :
    {K : Type 0} {A : Type ℓ} (keys : Keys K) (f : K → A)
    → ((a b : K) → same keys a b ≡ true ↔ f a ≡ f b)
    → IsKeys keys
separated keys f iff = record {
  same_refl = λ a. (iff a a).1 refl;
  same_symm = λ a b.
      flip (same keys a b) (same keys b a) (λ h. (iff b a).1 (sym ((iff a b).0 h)))
        (λ h. (iff a b).1 (sym ((iff b a).0 h)));
  same_trans = λ a b c h k. (iff a c).1 ((iff a b).0 h ∙ (iff b c).0 k);
}
  where
    flip : (p q : Bool) → (p ≡ true → q ≡ true) → (q ≡ true → p ≡ true) → p ≡ q
    flip true q h k = sym (h refl)
    flip false true h k = k refl
    flip false false h k = refl

pub int_keys-IsKeys : IsKeys int_keys
int_keys-IsKeys =
    separated int_keys (λ a. a % 2 ^ 64)
      (λ a b. (
        λ h. (==_iff (a % 2 ^ 64) (b % 2 ^ 64)).0 (sym (same-int_keys a b) ∙ h),
        λ e. same-int_keys a b ∙ (==_iff (a % 2 ^ 64) (b % 2 ^ 64)).1 e,
      ))

compare_by-zero : (f : ℕ → ℕ) (s t : List ℕ) → is_zero (compare_by f s t) ≡ true → map f s ≡ map f t
unfolding compare_by
compare_by-zero f [] [] h = refl
compare_by-zero f [] (y ∷ t) h = absurd cc
compare_by-zero f (x ∷ s) [] h = absurd cc
compare_by-zero f (x ∷ s) (y ∷ t) h = ground (arith, compare_by-zero f s t)

zero-compare_by : (f : ℕ → ℕ) (s t : List ℕ) → map f s ≡ map f t → is_zero (compare_by f s t) ≡ true
unfolding compare_by
zero-compare_by f [] [] h = refl
zero-compare_by f [] (y ∷ t) h = absurd (ground arith)
zero-compare_by f (x ∷ s) [] h = absurd (ground arith)
zero-compare_by f (x ∷ s) (y ∷ t) h = ground (arith, zero-compare_by f s t)

-- Two strings are the same to `hash_cmp_str_nocase` exactly when they are equal in lower case.
same-map : (f : ℕ → ℕ) (s t : List ℕ) → is_zero (compare_by f s t) ≡ true ↔ map f s ≡ map f t
same-map f s t = (compare_by-zero f s t, zero-compare_by f s t)

hash_nocase-map :
    (s : List ℕ) (h : ℕ)
    → hash_str_elf_nocase s h true ≡ hash_str_elf_nocase (map tolower s) h false
unfolding hash_str_elf_nocase
hash_nocase-map [] h = refl
hash_nocase-map (c ∷ s) h = hash_nocase-map s (elf_round h (tolower c))

and_split : (p q : Bool) → (p && q) ≡ true → q ≡ true
and_split true q h = h
and_split false q h = absurd cc

hash-same : {h h' : ℕ} {q : Bool} → h ≡ h' → q ≡ true → (h == h' && q) ≡ true
hash-same {h} {h'} {q} e z = ground arith

-- Two strings have equal results of `hash_hash_str_nocase` and compare equal with
-- `hash_cmp_str_nocase` exactly if they are equal in lower case.
pub same-str_keys_nocase :
    (s t : List ℕ) → same str_keys_nocase s t ≡ true ↔ map tolower s ≡ map tolower t
unfolding str_keys_nocase
same-str_keys_nocase s t = (
  λ h. (same-map tolower s t).0 (and_split _ _ h),
  λ e.
      hash-same
        (hash_nocase-map s 0
          ∙ ap (λ u. hash_str_elf_nocase u 0 false) e
          ∙ sym (hash_nocase-map t 0))
        ((same-map tolower s t).1 e),
)

map_id : (s : List ℕ) → map (λ c. c) s ≡ s
map_id [] = refl
map_id (x ∷ s) = ap (λ t. x ∷ t) (map_id s)

-- Two strings have equal results of `hash_hash_str` and compare equal with `hash_cmp_str` exactly
-- if they are the same.
pub same-str_keys : (s t : List ℕ) → same str_keys s t ≡ true ↔ s ≡ t
unfolding str_keys
same-str_keys s t = (
  λ h. sym (map_id s) ∙ (same-map (λ c. c) s t).0 (and_split _ _ h) ∙ map_id t,
  λ e. hash-same (ap (λ u. hash_str_elf u 0) e) ((same-map (λ c. c) s t).1 (ap (map (λ c. c)) e)),
)

pub str_keys-IsKeys : IsKeys str_keys
str_keys-IsKeys = separated str_keys (λ s. s) same-str_keys

pub str_keys_nocase-IsKeys : IsKeys str_keys_nocase
str_keys_nocase-IsKeys = separated str_keys_nocase (map tolower) same-str_keys_nocase
