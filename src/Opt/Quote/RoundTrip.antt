-- ===== src/Opt/Quote/RoundTrip.antt =====
-- `opt_quoted_dec` reads back what `opt_quoted_enc` wrote, and a word that needs no quotes.
use bklib.Base.{
  ℕ, ◌+◌, ◌<◌, ◌≡◌, ◌≢◌, refl, sym, ap, ◌∙◌, Bool, true, false, List, [], ◌∷◌, ◌++◌, ok, arith, ltb,
  ◌==◌, length, length-append, append_assoc, append-nil, lt→ltb, Bool-cases, ◌⊎◌, inl, inr,
}
use bklib.Opt.Quote.{c, escape, unescape, dec_string}
use bklib.Opt.Quote.Bounds.{escaped}

-- No byte of a C string is 0.
abbrev pub NulFree : List ℕ → Type 0
NulFree [] = Unit {0}
NulFree (x ∷ s) = (x ≢ 0) × NulFree s

-- A byte is written as a backslash and what stands for it, or as it is.
abbrev Escaped : ℕ → List ℕ → Type 0
Escaped x t =
    ((e : ℕ) × (t ≡ b'\\' ∷ e ∷ []) × (unescape e ≡ x))
    ⊎ ((t ≡ x ∷ []) × ((x == b'"') ≡ false) × ((x == b'\\') ≡ false))

escape-Escaped : (x : ℕ) → x ≢ 0 → Escaped x (escape c x)
unfolding escape
escape-Escaped x h = elim (Bool-cases (x == b'\n')) [
  | inl e ↦ inl (b'n', ground arith, ground arith)
  | inr e1 ↦ elim (Bool-cases (x == b'\r')) [
    | inl e ↦ inl (b'r', ground arith, ground arith)
    | inr e2 ↦ elim (Bool-cases (x == b'\t')) [
      | inl e ↦ inl (b't', ground arith, ground arith)
      | inr e3 ↦ elim (Bool-cases (x == b'\\')) [
        | inl e ↦ inl (b'\\', ground arith, ground arith)
        | inr e4 ↦ elim (Bool-cases (x == b'"')) [
          | inl e ↦ inl (b'"', ground arith, ground arith)
          | inr e5 ↦ inr (ground arith, e5, e4)
        ]
      ]
    ]
  ]
]

module _ (room : ℕ) where
  dec_string-quote :
      (noslash : Bool) (rest out : List ℕ)
      → ltb (length out) room ≡ true
      → dec_string noslash room (b'"' ∷ rest) out ≡ ok (rest, out)
  unfolding dec_string
  dec_string-quote noslash [] out h = rw (dec_string, h) refl
  dec_string-quote noslash (y ∷ rest) out h = rw (dec_string, h) refl

  dec_string-plain :
      (noslash : Bool) (x : ℕ) (rest out : List ℕ)
      → ltb (length out) room ≡ true
      → (x == b'"') ≡ false
      → (x == b'\\') ≡ false
      → dec_string noslash room (x ∷ rest) out ≡ dec_string noslash room rest (out ++ x ∷ [])
  unfolding dec_string
  dec_string-plain noslash x [] out h q s = rw (dec_string, h, q, s) refl
  dec_string-plain noslash x (y ∷ rest) out h q s = ground (arith, h, q, s)

  dec_string-escape :
      (e : ℕ) (rest out : List ℕ)
      → ltb (length out) room ≡ true
      → dec_string false room (b'\\' ∷ e ∷ rest) out
        ≡ dec_string false room rest (out ++ unescape e ∷ [])
  unfolding dec_string
  dec_string-escape e rest out h = rw (dec_string, h) refl

  pub dec_string-escaped :
      (s rest out : List ℕ)
      → NulFree s
      → length out + length s < room
      → dec_string false room (escaped c s ++ (b'"' ∷ rest)) out ≡ ok (rest, out ++ s)
  dec_string-escaped [] rest out n h =
      dec_string-quote false rest out (lt→ltb (length out) room (omega arith))
      ∙ ap (λ o. ok (rest, o)) (sym (append-nil out))
  dec_string-escaped (x ∷ s) rest out n h =
      step (escape-Escaped x n.0)
        (dec_string-escaped s rest (out ++ x ∷ []) n.1 (omega (arith, length-append out (x ∷ []))))
    where
      has_room : ltb (length out) room ≡ true
      has_room = lt→ltb (length out) room (omega arith)

      tail : List ℕ
      tail = escaped c s ++ (b'"' ∷ rest)

      begin :
          {t : List ℕ} → escape c x ≡ t → (escape c x ++ escaped c s) ++ (b'"' ∷ rest) ≡ t ++ tail
      begin e = append_assoc (escape c x) (escaped c s) (b'"' ∷ rest) ∙ ap (λ t. t ++ tail) e

      step :
          Escaped x (escape c x)
          → dec_string false room tail (out ++ x ∷ []) ≡ ok (rest, (out ++ x ∷ []) ++ s)
          → dec_string false room ((escape c x ++ escaped c s) ++ (b'"' ∷ rest)) out
            ≡ ok (rest, out ++ x ∷ s)
      step (inl (e, t, u)) ih =
          ap (λ l. dec_string false room l out) (begin t)
          ∙ dec_string-escape e tail out has_room
          ∙ ap (λ y. dec_string false room tail (out ++ y ∷ [])) u
          ∙ ih
          ∙ ap (λ o. ok (rest, o)) (append_assoc out (x ∷ []) s)
      step (inr (t, q, b)) ih =
          ap (λ l. dec_string false room l out) (begin t)
          ∙ dec_string-plain false x tail out has_room q b
          ∙ ih
          ∙ ap (λ o. ok (rest, o)) (append_assoc out (x ∷ []) s)
