-- ===== src/Opt/Quote.antt =====
-- opt.c: `opt_quoted_enc_style` writes a text between quotes, `opt_quoted_dec` reads one word back.
-- A C string is the list of its bytes, without the zero at its end; to read on behind the zero is a
-- fault.
pub mod Bounds
pub mod RoundTrip
pub mod Decode
pub mod Total
pub mod Left
use bklib.Base.{
  ℕ, zero, suc, ◌+◌, ◌-◌, Bool, true, false, ◌&&◌, ◌||◌, not, Option, none, some, List, [], ◌∷◌,
  ◌++◌, Run, ok, fault, ◌>>=◌, leb, ltb, ◌==◌, if◌then◌else◌, length, ◌⊎◌, inl, inr,
}
use bklib.Base.Int.{ℤ, negsuc}

-- `opt_quoted_enc_style_t`
pub data Style : Type 0 where
  c perl : Style

abbrev pub style_of : ℕ → Option Style
style_of n = if n == 0 then some c else if n == 1 then some perl else none

abbrev pub quote_of : Style → ℕ
quote_of c = b'"'
quote_of perl = b'\''

-- The escape for a byte, as the two `switch`es choose it.
abbrev escape_all : ℕ → Option (List ℕ)
escape_all x =
    if x == b'\n'
    then some (b'\\' ∷ b'n' ∷ [])
    else if x == b'\r'
    then some (b'\\' ∷ b'r' ∷ [])
    else if x == b'\t'
    then some (b'\\' ∷ b't' ∷ [])
    else if x == b'\\'
    then some (b'\\' ∷ b'\\' ∷ [])
    else if x == 0
    then some (b'\\' ∷ b'0' ∷ [])
    else none

-- What is written for a byte.
unfoldable pub escape : Style → ℕ → List ℕ
escape style x = elim (escape_all x) [
  | some esc ↦ esc
  | none ↦ if x == quote_of style then b'\\' ∷ x ∷ [] else x ∷ []
]

-- The loop of `opt_quoted_enc_style`: `n` is the place after what was written, `end` three before
-- the end of `dst`. An escape that `snprintf` cuts short counts whole, and then `n` is not below
-- `end`.
pub enc_loop : Style → ℕ → List ℕ → List ℕ → List ℕ
unfolding escape
enc_loop style end [] out = out
enc_loop style end (x ∷ src) out = elim (ltb (length out) end) [
  | true ↦ enc_loop style end src (out ++ escape style x)
  | false ↦ out
]

-- What `opt_quoted_enc_style` writes to a buffer of a byte at least; `none` for its -1.
unfoldable pub enc_into : Style → List ℕ → ℕ → Option (List ℕ)
unfolding enc_loop
enc_into style src dstlen =
    let out = enc_loop style (dstlen - 3) src (quote_of style ∷ []) in
    if ltb (length out) (dstlen - 3) then some (out ++ quote_of style ∷ []) else none

-- The same for a buffer of any size: the first quote is written without a look at it.
unfoldable pub enc_as : Style → List ℕ → ℕ → Run (Option (List ℕ))
unfolding enc_into
enc_as style src zero = fault
enc_as style src (suc n) = ok (enc_into style src (suc n))

-- The text written, or -1.
abbrev pub result : Option (List ℕ) → List ℕ ⊎ ℤ
result none = inr (negsuc 0)
result (some t) = inl t

-- `opt_quoted_enc_style`, with the number of a style: the text written, or an error code.
unfoldable pub enc_style : ℕ → List ℕ → ℕ → Run (List ℕ ⊎ ℤ)
unfolding enc_as
enc_style style src dstlen = elim (style_of style) [
  | none ↦ ok (inr (negsuc 1))
  | some style ↦ enc_as style src dstlen >>= λ r. ok (result r)
]

abbrev pub text_of : List ℕ ⊎ ℤ → Option (List ℕ)
text_of (inl t) = some t
text_of (inr code) = none

-- `opt_quoted_enc`; `none` for a negative result.
unfoldable pub enc : List ℕ → ℕ → Run (Option (List ℕ))
unfolding enc_style
enc src dstlen = enc_style 0 src dstlen >>= λ r. ok (text_of r)

abbrev pub is_space : ℕ → Bool
is_space x = x == b' ' || (x == b'\t' || (x == b'\r' || x == b'\n'))

-- `src += strspn(src, WHITESPACE)`
unfoldable pub skip_space : List ℕ → List ℕ
skip_space [] = []
skip_space (x ∷ src) = let rest = skip_space src in if is_space x then rest else x ∷ src

abbrev pub unescape : ℕ → ℕ
unescape x =
    if x == b'n' then b'\n' else if x == b'r' then b'\r' else if x == b't' then b'\t' else x

-- The loop inside quotes, with `room` bytes for the word: what is left of the text, and the word.
pub dec_string : Bool → ℕ → List ℕ → List ℕ → Run (List ℕ × List ℕ)
dec_string noslash room [] out = ok ([], out)
dec_string noslash room (x ∷ []) out =
    if not (ltb (length out) room)
    then ok (x ∷ [], out)
    else if x == b'"'
    then ok ([], out)
    else if x == b'\\' && not noslash
    then fault
    else ok ([], out ++ x ∷ [])
dec_string noslash room (x ∷ y ∷ src) out =
    let escaped = dec_string noslash room src (out ++ unescape y ∷ []) in
    let plain = dec_string noslash room (y ∷ src) (out ++ x ∷ []) in
    if not (ltb (length out) room)
    then ok (x ∷ y ∷ src, out)
    else if x == b'"'
    then ok (y ∷ src, out)
    else if x == b'\\' && not noslash
    then escaped
    else plain

-- The loop of `opt_quoted_dec`, on fuel.
pub dec_loop : ℕ → Bool → ℕ → List ℕ → List ℕ → Run (List ℕ × List ℕ)
unfolding dec_string
dec_loop zero noslash room src out = fault
dec_loop (suc fuel) noslash room [] out = ok ([], out)
dec_loop (suc fuel) noslash room (x ∷ src) out =
    let quoted = dec_string noslash room src out >>= λ r. dec_loop fuel noslash room r.0 r.1 in
    let plain = dec_loop fuel noslash room src (out ++ x ∷ []) in
    if not (ltb (length out) room)
    then ok (x ∷ src, out)
    else if is_space x
    then ok (skip_space (x ∷ src), out)
    else if x == b'"'
    then quoted
    else plain

-- `opt_quoted_dec`: what is left of the text, and the word or `none` for -1. A turn of the loop
-- reads a byte at least.
unfoldable pub dec : List ℕ → ℕ → Bool → Run (List ℕ × Option (List ℕ))
unfolding dec_loop
dec src zero noslash = ok (skip_space src, none)
dec src (suc room) noslash =
    let text = skip_space src in
    dec_loop (suc (length text)) noslash room text [] >>= λ r. ok (r.0, some r.1)
