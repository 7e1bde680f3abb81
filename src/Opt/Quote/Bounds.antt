-- ===== src/Opt/Quote/Bounds.antt =====
-- How much `opt_quoted_enc_style` and `opt_quoted_dec` write.
use bklib.Base.{
  ℕ, suc, ◌+◌, ◌-◌, ◌≤◌, ◌<◌, ◌≡◌, refl, sym, ap, ◌∙◌, true, false, Option, none, some, List, [],
  ◌∷◌, ◌++◌, ok, fault, zero, arith, ltb, if◌then◌else◌, length, length-append, append_assoc,
  append-nil, lt→ltb, le→ltb_false, Bool-cases, inl, inr,
}
use mathlib.Core.Option.{some-injective}
use bklib.Opt.Quote.{
  Style, c, enc, quote_of, escape, enc_loop, enc_into, enc_as, enc_style, result, text_of,
}

-- A text with its escapes.
abbrev pub escaped : Style → List ℕ → List ℕ
escaped style [] = []
escaped style (x ∷ src) = escape style x ++ escaped style src

ltb-false-le : (a b : ℕ) → ltb a b ≡ false → b ≤ a
ltb-false-le a b h = ground arith

enc_loop_step :
    (style : Style) (end x : ℕ) (src out : List ℕ)
    → ltb (length out) end ≡ true
    → enc_loop style end (x ∷ src) out ≡ enc_loop style end src (out ++ escape style x)
unfolding enc_loop
enc_loop_step style end x src out h = rw (enc_loop, h) refl

enc_loop_stop :
    (style : Style) (end x : ℕ) (src out : List ℕ)
    → ltb (length out) end ≡ false
    → enc_loop style end (x ∷ src) out ≡ out
unfolding enc_loop
enc_loop_stop style end x src out h = rw (enc_loop, h) refl

-- With room for all, the loop writes every escape.
enc_loop_room :
    (style : Style) (end : ℕ) (src out : List ℕ)
    → length out + length (escaped style src) < end
    → enc_loop style end src out ≡ out ++ escaped style src
unfolding enc_loop
enc_loop_room style end [] out h = sym (append-nil out)
enc_loop_room style end (x ∷ src) out h =
    enc_loop_step style end x src out (lt→ltb (length out) end (omega arith))
    ∙ (enc_loop_room style end src (out ++ escape style x) (
          omega (
            arith,
            length-append out (escape style x),
            length-append (escape style x) (escaped style src),
          ))
        ∙ append_assoc out (escape style x) (escaped style src))

-- Without, it stops at `end` or behind.
enc_loop_full :
    (style : Style) (end : ℕ) (src out : List ℕ)
    → end ≤ length out + length (escaped style src)
    → end ≤ length (enc_loop style end src out)
unfolding enc_loop
enc_loop_full style end [] out h = omega arith
enc_loop_full style end (x ∷ src) out h = elim (Bool-cases (ltb (length out) end)) [
  | inr e ↦ rw (enc_loop_stop style end x src out e) (ltb-false-le (length out) end e)
  | inl e ↦ rw (enc_loop_step style end x src out e) (
      enc_loop_full style end src (out ++ escape style x) (
        omega (
          arith,
          length-append out (escape style x),
          length-append (escape style x) (escaped style src),
        )))
]

-- A buffer of a byte at least gets the text with its escapes between quotes if it has more than four
-- bytes besides those of the escaped text; otherwise the result is -1.
pub enc_into_lem :
    (style : Style) (src : List ℕ) (dstlen : ℕ)
    → enc_into style src dstlen ≡ (
        if ltb (length (escaped style src) + 4) dstlen
        then some (quote_of style ∷ (escaped style src ++ quote_of style ∷ []))
        else none)
unfolding enc_into
enc_into_lem style src dstlen = elim (Bool-cases (ltb (length (escaped style src) + 4) dstlen)) [
  | inl e ↦
      ap found (enc_loop_room style (dstlen - 3) src (quote_of style ∷ []) (ground arith))
      ∙ rw (e, lt→ltb (suc (length (escaped style src))) (dstlen - 3) (ground arith)) refl
  | inr e ↦
      rw
        (
          e,
          le→ltb_false (length (enc_loop style (dstlen - 3) src (quote_of style ∷ []))) (dstlen - 3)
              (enc_loop_full style (dstlen - 3) src (quote_of style ∷ []) (ground arith)),
        )
        refl
]
  where
    found : List ℕ → Option (List ℕ)
    found out = if ltb (length out) (dstlen - 3) then some (out ++ quote_of style ∷ []) else none

pub enc_into-some :
    (style : Style) (src t : List ℕ) (dstlen : ℕ)
    → enc_into style src dstlen ≡ some t
    → t ≡ quote_of style ∷ (escaped style src ++ quote_of style ∷ [])
enc_into-some style src t dstlen e =
    elim (Bool-cases (ltb (length (escaped style src) + 4) dstlen)) [
      | inl r ↦ some-injective _ _ (found r)
      | inr r ↦ absurd (let k : some t ≡ none = failed r in cc)
    ]
  where
    found :
        ltb (length (escaped style src) + 4) dstlen ≡ true
        → some t ≡ some (quote_of style ∷ (escaped style src ++ quote_of style ∷ []))
    found r = sym e ∙ enc_into_lem style src dstlen ∙ rw r refl

    failed : ltb (length (escaped style src) + 4) dstlen ≡ false → some t ≡ none
    failed r = sym e ∙ enc_into_lem style src dstlen ∙ rw r refl

length-le-escape : (style : Style) (x : ℕ) → 1 ≤ length (escape style x)
unfolding escape
length-le-escape style x = ground arith

pub length-le-escaped : (style : Style) (s : List ℕ) → length s ≤ length (escaped style s)
length-le-escaped style [] = omega arith
length-le-escaped style (x ∷ s) = omega (
  arith,
  length-le-escaped style s,
  length-append (escape style x) (escaped style s),
  length-le-escape style x,
)

pub enc-enc_as : (s : List ℕ) (dstlen : ℕ) → enc s dstlen ≡ enc_as c s dstlen
unfolding enc enc_style enc_as
enc-enc_as s zero = refl
enc-enc_as s (suc n) = ap ok (text_of-result (enc_into c s (suc n)))
  where
    text_of-result : (r : Option (List ℕ)) → text_of (result r) ≡ r
    text_of-result none = refl
    text_of-result (some t) = refl

pub enc-some :
    (s t : List ℕ) (dstlen : ℕ) → enc s dstlen ≡ ok (some t) → t ≡ b'"' ∷ (escaped c s ++ b'"' ∷ [])
unfolding enc_as
enc-some s t zero e = absurd (let q : fault ≡ ok (some t) = sym (enc-enc_as s zero) ∙ e in cc)
enc-some s t (suc n) e = enc_into-some c s t (suc n) (ok-injective (sym (enc-enc_as s (suc n)) ∙ e))
  where
    ok-injective : {x y : Option (List ℕ)} → ok x ≡ ok y → x ≡ y
    ok-injective q = cc
