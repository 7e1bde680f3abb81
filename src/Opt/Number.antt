-- ===== src/Opt/Number.antt =====
-- The C library's `strtol` and `strtoul` in base 0, on 64 bits, as opt.c calls them.
use bklib.Base.{
  ℕ, ◌+◌, ◌-◌, ◌*◌, ◌%◌, ◌^◌, Bool, true, false, ◌&&◌, ◌||◌, not, Option, none, some, List, [], ◌∷◌,
  leb, ltb, ◌==◌, if◌then◌else◌,
}
use bklib.Base.Int.{ℤ, pos, negsuc}

-- The value of a digit or letter, or 99.
abbrev pub digit : ℕ → ℕ
digit x =
    if leb b'0' x && leb x b'9'
    then x - b'0'
    else if leb b'a' x && leb x b'z'
    then x - b'a' + 10
    else if leb b'A' x && leb x b'Z'
    then x - b'A' + 10
    else 99

-- `isspace`
abbrev pub is_blank : ℕ → Bool
is_blank x = x == b' ' || (leb 9 x && leb x 13)

pub skip_blank : List ℕ → List ℕ
skip_blank [] = []
skip_blank (x ∷ s) = let rest = skip_blank s in if is_blank x then rest else x ∷ s

-- The digits of a base from `acc` on.
pub digits_from : ℕ → ℕ → List ℕ → ℕ
digits_from base acc [] = acc
digits_from base acc (x ∷ s) =
    let more = digits_from base (acc * base + digit x) s in if ltb (digit x) base then more else acc

abbrev pub one_digit : ℕ → List ℕ → Option ℕ
unfolding digits_from
one_digit base [] = none
one_digit base (x ∷ s) = if ltb (digit x) base then some (digits_from base 0 (x ∷ s)) else none

-- The number behind the sign: hexadecimal after `0x`, octal after `0`, else decimal; `none` if there
-- is no digit.
pub magnitude : List ℕ → Option ℕ
magnitude [] = none
magnitude (x ∷ []) = one_digit 10 (x ∷ [])
magnitude (x ∷ y ∷ s) =
    if not (x == b'0')
    then one_digit 10 (x ∷ y ∷ s)
    else if y == b'x' || y == b'X'
    then elim (one_digit 16 s) [ some n ↦ some n | none ↦ some 0 ]
    else some (digits_from 8 0 (y ∷ s))

-- The sign and the number of a text.
unfoldable pub scan : List ℕ → Option (Bool × ℕ)
unfolding magnitude skip_blank
scan text = elim (skip_blank text) [
  | [] ↦ none
  | x ∷ s ↦
      if x == b'-'
      then elim (magnitude s) [ some n ↦ some (true, n) | none ↦ none ]
      else if x == b'+'
      then elim (magnitude s) [ some n ↦ some (false, n) | none ↦ none ]
      else elim (magnitude (x ∷ s)) [ some n ↦ some (false, n) | none ↦ none ]
]

-- `strtoul`: the value, and whether any of the text was read.
unfoldable pub strtoul : List ℕ → ℕ × Bool
unfolding scan
strtoul text = elim (scan text) [
  | none ↦ (0, false)
  | some r ↦
      (if leb (2 ^ 64) r.1 then 2 ^ 64 - 1 else if r.0 then (2 ^ 64 - r.1) % 2 ^ 64 else r.1, true)
]

-- `strtol`
unfoldable pub strtol : List ℕ → ℤ × Bool
unfolding scan
strtol text = elim (scan text) [
  | none ↦ (pos 0, false)
  | some r ↦ (
    if r.0
        then if r.1 == 0
          then pos 0
          else if leb (2 ^ 63) r.1
          then negsuc (2 ^ 63 - 1)
          else negsuc (r.1 - 1)
        else if leb (2 ^ 63) r.1
        then pos (2 ^ 63 - 1)
        else pos r.1,
    true,
  )
]

-- The conversion of an `unsigned long` to a `long`.
abbrev pub to_long : ℕ → ℤ
to_long w = if ltb w (2 ^ 63) then pos w else negsuc (2 ^ 64 - 1 - w)

-- The conversion of a `long` to an `int` of 32 bits.
abbrev pub wrap_int : ℕ → ℤ
wrap_int w = if ltb w (2 ^ 31) then pos w else negsuc (2 ^ 32 - 1 - w)

unfoldable pub to_int : ℤ → ℤ
to_int (pos n) = wrap_int (n % 2 ^ 32)
to_int (negsuc n) = wrap_int (2 ^ 32 - 1 - n % 2 ^ 32)
