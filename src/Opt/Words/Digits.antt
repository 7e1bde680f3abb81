-- ===== src/Opt/Words/Digits.antt =====
-- What `%d` prints is a word that needs no quotes.
use bklib.Base.{
  ℕ, zero, suc, ◌+◌, ◌/◌, ◌%◌, ◌≤◌, ◌<◌, ◌≡◌, ◌≢◌, refl, ap, false, List, [], ◌∷◌, ◌++◌, arith, ltb,
  length, length-append, Bool-cases, inl, inr,
}
use bklib.Base.Int.{ℤ, pos, negsuc}
use bklib.Opt.Quote.RoundTrip.{NulFree}
use bklib.Opt.Words.{needs_quote, digits, print_int}

-- Characters between `-` and `9`.
abbrev AllPrinted : List ℕ → Type 0
AllPrinted [] = Unit {0}
AllPrinted (x ∷ s) = (b'-' ≤ x) × (x ≤ b'9') × AllPrinted s

AllPrinted-NulFree : (s : List ℕ) → AllPrinted s → NulFree s
AllPrinted-NulFree [] a = tt
AllPrinted-NulFree (x ∷ s) a = (λ e. absurd (omega (arith, a.0, e)), AllPrinted-NulFree s a.2)

needs_quote-AllPrinted : (s : List ℕ) → AllPrinted s → needs_quote s ≡ false
unfolding needs_quote
needs_quote-AllPrinted [] a = refl
needs_quote-AllPrinted (x ∷ s) a = ground (arith, a.0, a.1, needs_quote-AllPrinted s a.2)

AllPrinted-append : (s t : List ℕ) → AllPrinted s → AllPrinted t → AllPrinted (s ++ t)
AllPrinted-append [] t a b = b
AllPrinted-append (x ∷ s) t a b = (a.0, a.1, AllPrinted-append s t a.2 b)

digits-AllPrinted : (fuel n : ℕ) → AllPrinted (digits fuel n)
unfolding digits
digits-AllPrinted zero n = tt
digits-AllPrinted (suc fuel) n = elim (Bool-cases (ltb n 10)) [
  | inl e ↦ rw e (ground arith, ground arith, tt)
  | inr e ↦ rw e (
      AllPrinted-append (digits fuel (n / 10)) ((b'0' + n % 10) ∷ [])
        (digits-AllPrinted fuel (n / 10)) (omega arith, omega arith, tt))
]

digits-ne-nil : (fuel n : ℕ) → 0 < length (digits (suc fuel) n)
unfolding digits
digits-ne-nil fuel n = elim (Bool-cases (ltb n 10)) [
  | inl e ↦ rw e (omega arith)
  | inr e ↦ rw e (omega (arith, length-append (digits fuel (n / 10)) ((b'0' + n % 10) ∷ [])))
]

print_int-AllPrinted : (i : ℤ) → AllPrinted (print_int i)
print_int-AllPrinted (pos n) = digits-AllPrinted (suc n) n
print_int-AllPrinted (negsuc n) =
    (omega arith, omega arith, digits-AllPrinted (suc (suc n)) (suc n))

print_int-ne-nil : (i : ℤ) → 0 < length (print_int i)
print_int-ne-nil (pos n) = digits-ne-nil n n
print_int-ne-nil (negsuc n) = omega arith

pub print_int_plain : (i : ℤ) → needs_quote (print_int i) ≡ false
print_int_plain i = needs_quote-AllPrinted (print_int i) (print_int-AllPrinted i)

pub print_int_word : (i : ℤ) → NulFree (print_int i) × (print_int i ≢ [])
print_int_word i = (AllPrinted-NulFree (print_int i) (print_int-AllPrinted i), nonempty)
  where
    nonempty : print_int i ≢ []
    nonempty e =
        absurd
          (let z : length (print_int i) ≡ 0 = ap length e in omega (arith, print_int-ne-nil i, z))
