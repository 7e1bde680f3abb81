-- ===== src/Opt/Quote/Decode.antt =====
-- A word, quoted or not, and the space behind it, as `opt_quoted_dec` reads them.
use bklib.Base.{
  ℕ, suc, ◌+◌, ◌≤◌, ◌<◌, ◌≡◌, ◌≢◌, refl, sym, ap, ◌∙◌, Bool, true, false, Option, some, List, [],
  ◌∷◌, ◌++◌, Run, ok, ◌>>=◌, arith, ◌==◌, length, length-append, append_assoc, append-nil, lt→ltb,
}
use bklib.Opt.Quote.{enc, c, is_space, skip_space, dec_loop, dec}
use bklib.Opt.Quote.Bounds.{escaped, enc-some}
use bklib.Opt.Quote.RoundTrip.{NulFree, dec_string-escaped}

-- A byte that neither ends a word nor begins a string.
abbrev pub Plain : List ℕ → Type 0
Plain [] = Unit {0}
Plain (x ∷ s) = (is_space x ≡ false) × ((x == b'"') ≡ false) × Plain s

module _ (noslash : Bool) (room : ℕ) where
  pub dec_loop-space :
      (fuel x : ℕ) (rest out : List ℕ)
      → length out < room
      → is_space x ≡ true
      → dec_loop (suc fuel) noslash room (x ∷ rest) out ≡ ok (skip_space rest, out)
  unfolding dec_loop skip_space
  dec_loop-space fuel x rest out h s = rw (dec_loop, lt→ltb (length out) room h, s) refl

  dec_loop_step :
      (fuel x : ℕ) (rest out : List ℕ)
      → length out < room
      → is_space x ≡ false
      → (x == b'"') ≡ false
      → dec_loop (suc fuel) noslash room (x ∷ rest) out
        ≡ dec_loop fuel noslash room rest (out ++ x ∷ [])
  unfolding dec_loop
  dec_loop_step fuel x rest out h s q = rw (dec_loop, lt→ltb (length out) room h, s, q) refl

  pub dec_loop-Plain :
      (fuel : ℕ) (s rest out : List ℕ)
      → Plain s
      → length out + length s ≤ room
      → dec_loop (length s + fuel) noslash room (s ++ rest) out
        ≡ dec_loop fuel noslash room rest (out ++ s)
  unfolding dec_loop
  dec_loop-Plain fuel [] rest out p h =
      ap (λ f. dec_loop f noslash room rest out) zero_fuel
      ∙ ap (λ o. dec_loop fuel noslash room rest o) (sym (append-nil out))
    where
      zero_fuel : 0 + fuel ≡ fuel
      zero_fuel = omega arith
  dec_loop-Plain fuel (x ∷ s) rest out p h =
      ap (λ f. dec_loop f noslash room (x ∷ (s ++ rest)) out) suc_fuel
      ∙ dec_loop_step (length s + fuel) x (s ++ rest) out (omega arith) p.0 p.1
      ∙ dec_loop-Plain fuel s rest (out ++ x ∷ []) p.2 (omega (arith, length-append out (x ∷ [])))
      ∙ ap (λ o. dec_loop fuel noslash room rest o) (append_assoc out (x ∷ []) s)
    where
      suc_fuel : suc (length s) + fuel ≡ suc (length s + fuel)
      suc_fuel = omega arith

pub dec_loop-string :
    (room fuel : ℕ) (s rest out : List ℕ)
    → NulFree s
    → length out + length s < room
    → dec_loop (suc fuel) false room (b'"' ∷ (escaped c s ++ (b'"' ∷ rest))) out
      ≡ dec_loop fuel false room rest (out ++ s)
unfolding dec_loop
dec_loop-string room fuel s rest out n h =
    rw (dec_loop, lt→ltb (length out) room (omega arith), dec_string-escaped room s rest out n h)
      refl

abbrev finish : List ℕ × List ℕ → Run (List ℕ × Option (List ℕ))
finish r = ok (r.0, some r.1)

-- A text that does not begin with a space is read from its first byte.
dec-dec_loop :
    (room fuel : ℕ) (line : List ℕ)
    → skip_space line ≡ line
    → suc (length line) ≡ fuel
    → dec line (suc room) false ≡ (dec_loop fuel false room line [] >>= finish)
unfolding dec
dec-dec_loop room fuel line e f =
    ap (λ l. dec_loop (suc (length l)) false room l [] >>= finish) e
    ∙ ap (λ n. dec_loop n false room line [] >>= finish) f

pub skip_space-Plain : (s rest : List ℕ) → Plain s → s ≢ [] → skip_space (s ++ rest) ≡ s ++ rest
unfolding skip_space
skip_space-Plain [] rest p ne = absurd (ne refl)
skip_space-Plain (x ∷ s) rest p ne = rw p.0 refl

module _ (room x : ℕ) (s rest : List ℕ) (space : is_space x ≡ true) (fits : length s < room) where
  pub dec-Plain :
      Plain s → s ≢ [] → dec (s ++ x ∷ rest) (suc room) false ≡ ok (skip_space rest, some s)
  dec-Plain p ne =
      dec-dec_loop room (length s + suc (suc (length rest))) (s ++ x ∷ rest)
        (skip_space-Plain s (x ∷ rest) p ne) (omega (arith, length-append s (x ∷ rest)))
      ∙ ap (◌>>= finish) (
          dec_loop-Plain false room (suc (suc (length rest))) s (x ∷ rest) [] p (omega arith)
          ∙ dec_loop-space false room (suc (length rest)) x rest s fits space)

  pub dec-string :
      NulFree s
      → dec (b'"' ∷ (escaped c s ++ (b'"' ∷ (x ∷ rest)))) (suc room) false
        ≡ ok (skip_space rest, some s)
  unfolding skip_space
  dec-string n =
      dec-dec_loop room _ (b'"' ∷ (escaped c s ++ (b'"' ∷ (x ∷ rest)))) refl
        (omega (arith, length-append (escaped c s) (b'"' ∷ (x ∷ rest))))
      ∙ ap (◌>>= finish) (
          dec_loop-string room (suc (suc (suc (length (escaped c s) + length rest)))) s (x ∷ rest)
            [] n (omega arith)
          ∙ dec_loop-space false room (suc (suc (length (escaped c s) + length rest))) x rest s fits
              space)

pub skip_space-nil : skip_space [] ≡ []
unfolding skip_space
skip_space-nil = refl

pub skip_space-quote : (rest : List ℕ) → skip_space (b'"' ∷ rest) ≡ b'"' ∷ rest
unfolding skip_space
skip_space-quote rest = refl

-- A text without zero bytes that `opt_quoted_enc` wrote, with white space behind it, is read back
-- by `opt_quoted_dec` as the same text if there is room for one byte more, and what is left is the
-- text behind the white space.
pub dec-enc :
    (room dstlen x : ℕ) (s t rest : List ℕ)
    → NulFree s
    → length s < room
    → is_space x ≡ true
    → enc s dstlen ≡ ok (some t)
    → dec (t ++ x ∷ rest) (suc room) false ≡ ok (skip_space rest, some s)
dec-enc room dstlen x s t rest n fits space e =
    ap (λ l. dec (l ++ x ∷ rest) (suc room) false) (enc-some s t dstlen e)
    ∙ ap (λ l. dec (b'"' ∷ l) (suc room) false) (append_assoc (escaped c s) (b'"' ∷ []) (x ∷ rest))
    ∙ dec-string room x s rest space fits n

dec_loop_end : (fuel room : ℕ) (out : List ℕ) → dec_loop (suc fuel) false room [] out ≡ ok ([], out)
unfolding dec_loop
dec_loop_end fuel room out = refl

-- A word at the end of the text.
pub dec-Plain_end :
    (room : ℕ) (s : List ℕ)
    → length s ≤ room
    → Plain s
    → s ≢ []
    → dec s (suc room) false ≡ ok ([], some s)
dec-Plain_end room s fits p ne =
    dec-dec_loop room (length s + 1) s
      (ap skip_space (sym (append-nil s)) ∙ skip_space-Plain s [] p ne ∙ append-nil s) (omega arith)
    ∙ ap (◌>>= finish) (
        ap (λ l. dec_loop (length s + 1) false room l []) (sym (append-nil s))
        ∙ dec_loop-Plain false room 1 s [] [] p (omega arith)
        ∙ dec_loop_end 0 room s)
