-- ===== src/Sendlist/Stream.antt =====
-- What `sendlist_flush` writes: the bytes on the wire and those still queued are one stream.
use bklib.Base.{
  ℕ, zero, suc, ◌+◌, ◌-◌, ◌≤◌, ◌≡◌, refl, sym, ap, ◌∙◌, true, false, Option, none, some, List, [],
  ◌∷◌, ◌++◌, ok, Returns, arith, length, take, drop, if◌then◌else◌, Bool-cases, inl, inr,
  append_assoc, length-take, take-nil, drop_all, Option-cases, Bool, le→leb, subst,
}
use bklib.Base.Int.{ℤ, pos, negsuc, is_neg, is_zero}
use bklib.Sendlist.{Sendbuf, System, advance, settle, transfer}

take_split :
    {A : Type 0} (n len : ℕ) (ys : List A)
    → n ≤ len
    → take n (take len ys) ++ take (len - n) (drop n ys) ≡ take len ys
take_split zero len ys h = ap (λ k. take k ys) (omega arith)
take_split (suc n) zero ys h = absurd (omega arith)
take_split (suc n) (suc len) [] h = take-nil (suc len - suc n)
take_split (suc n) (suc len) (y ∷ ys) h =
    ap (λ t. y ∷ t)
      (ap (λ k. take n (take len ys) ++ take k (drop n ys)) (omega arith)
        ∙ take_split n len ys (omega arith))

drop-drop : {A : Type 0} (n i : ℕ) (ys : List A) → drop n (drop i ys) ≡ drop (i + n) ys
drop-drop n zero ys = ap (λ k. drop k ys) (omega arith)
drop-drop n (suc i) [] = drop_all n [] (omega arith) ∙ sym (drop_all (suc i + n) [] (omega arith))
drop-drop n (suc i) (y ∷ ys) = drop-drop n i ys ∙ ap (λ k. drop k (y ∷ ys)) succ
  where
    succ : suc (i + n) ≡ suc i + n
    succ = omega arith

-- The bytes of the files that `sendfile` reads.
module _ (file : ℤ → List ℕ) where
  -- What a sendbuf has still to send.
  unfoldable pub bytes : Sendbuf → List ℕ
  bytes b = elim b.buf [
    | some xs ↦ take b.len (drop b.off xs)
    | none ↦ if is_neg b.fd then [] else take b.len (drop b.off (file b.fd))
  ]

  bytes-buf : (b : Sendbuf) (xs : List ℕ) → b.buf ≡ some xs → bytes b ≡ take b.len (drop b.off xs)
  unfolding bytes
  bytes-buf b xs e = rw (bytes, e) refl

  bytes-file :
      (b : Sendbuf)
      → b.buf ≡ none
      → is_neg b.fd ≡ false
      → bytes b ≡ take b.len (drop b.off (file b.fd))
  unfolding bytes
  bytes-file b e h = rw (bytes, e, h) refl

  bytes-none : (b : Sendbuf) → b.buf ≡ none → is_neg b.fd ≡ true → bytes b ≡ []
  unfolding bytes
  bytes-none b e h = rw (bytes, e, h) refl

  pub bytes-len_zero : (b : Sendbuf) → b.len ≡ 0 → bytes b ≡ []
  bytes-len_zero b e = elim (Option-cases b.buf) [
    | inr (xs, h) ↦ bytes-buf b xs h ∙ ap (λ m. take m (drop b.off xs)) e
    | inl h ↦ elim (Bool-cases (is_neg b.fd)) [
      | inl n ↦ bytes-none b h n
      | inr n ↦ bytes-file b h n ∙ ap (λ m. take m (drop b.off (file b.fd))) e
    ]
  ]

  unfoldable pub pending : List Sendbuf → List ℕ
  pending [] = []
  pending (b ∷ q) = bytes b ++ pending q

-- The bytes that a sendbuf promises lie in its buffer.
abbrev pub Holds : Option (List ℕ) → ℕ → Type 0
Holds none n = Unit {0}
Holds (some xs) n = n ≤ length xs

abbrev pub Backed : Sendbuf → Type 0
Backed b = Holds b.buf (b.off + b.len)

abbrev pub AllBacked : List Sendbuf → Type 0
AllBacked [] = Unit {0}
AllBacked (b ∷ q) = Backed b × AllBacked q

module _ {W : Type 0} (sys : System W) (wire : W → List ℕ) (file : ℤ → List ℕ) where
  -- What `write` and `sendfile` say of the bytes that they were given.
  abbrev pub Accepts : List ℕ → W → ℤ × W → Type 0
  Accepts xs w (pos n, w') = (n ≤ length xs) × (wire w' ≡ wire w ++ take n xs)
  Accepts xs w (negsuc e, w') = wire w' ≡ wire w

  -- The documented behaviour of the socket `fd`, whose bytes sent so far are `wire`: a call sends as
  -- many bytes as it returns, the first ones, and none if it fails.
  pub record IsSocket (fd : ℕ) : Type 0 where
    pub writes : (xs : List ℕ) (w : W) → Accepts xs w (sys.write fd xs w)
    pub sends :
        (f : ℤ) (off len : ℕ) (w : W)
        → Accepts (take len (drop off (file f))) w (sys.sendfile fd f off len w)
    pub shuts : (w : W) → wire (sys.shutdown fd w).1 ≡ wire w
    pub selects : (w : W) → wire (sys.select fd w).1 ≡ wire w
    pub unselects : (w : W) → wire (sys.unselect fd w).1 ≡ wire w

  -- One system call moves the first `n` bytes of a sendbuf.
  abbrev pub Moves : Sendbuf → W → Option ℕ × W → Type 0
  Moves b w (none, w') = wire w' ≡ wire w
  Moves b w (some n, w') =
      (n ≤ b.len)
      × (wire w' ++ bytes file (advance n b) ≡ wire w ++ bytes file b)
      × Backed (advance n b)

  settle_lem :
      (xs : List ℕ) (b : Sendbuf) (w : W) (r : ℤ × W)
      → bytes file b ≡ take b.len (drop b.off xs)
      → ((n : ℕ) → n ≤ b.len → bytes file (advance n b) ≡ take (b.len - n) (drop (b.off + n) xs))
      → ((n : ℕ) → n ≤ b.len → Backed (advance n b))
      → Accepts (take b.len (drop b.off xs)) w r
      → Moves b w (settle sys r)
  settle_lem xs b w (pos n, w') e f k (le, a) =
      let fit : n ≤ b.len = omega (arith, length-take b.len (drop b.off xs)) in
      (
        fit,
        ap (λ l. l ++ bytes file (advance n b)) a
            ∙ append_assoc (wire w) (take n (take b.len (drop b.off xs))) (bytes file (advance n b))
            ∙ ap (λ l. wire w ++ l)
                (ap (λ l. take n (take b.len (drop b.off xs)) ++ l)
                    (f n fit ∙ ap (take (b.len - n)) (sym (drop-drop n b.off xs)))
                  ∙ take_split n b.len (drop b.off xs) fit
                  ∙ sym e),
        k n fit,
      )
  settle_lem xs b w (negsuc n, w') e f k a = elim (Bool-cases (sys.would_block w')) [
    | inl h ↦ rw h (
      omega arith,
      ap (λ l. wire w' ++ l) (f 0 (omega arith) ∙ same ∙ sym e) ∙ ap (λ l. l ++ bytes file b) a,
      k 0 (omega arith),
    )
    | inr h ↦ rw h a
  ]
    where
      same : take (b.len - 0) (drop (b.off + 0) xs) ≡ take b.len (drop b.off xs)
      same =
          ap (λ m. take m (drop (b.off + 0) xs)) (omega arith)
          ∙ ap (λ m. take b.len (drop m xs)) (omega arith)

  less : (n : ℕ) (b : Sendbuf) → n ≤ b.len → (advance n b).len ≡ b.len - n
  less n b h = ground arith

  module _ (fd : ℕ) (socket : IsSocket fd) where
    write_run :
        (b : Sendbuf) (w : W) (xs : List ℕ)
        → b.buf ≡ some xs
        → b.off + b.len ≤ length xs
        → transfer sys fd b w ≡ ok (settle sys (sys.write fd (take b.len (drop b.off xs)) w))
    unfolding transfer
    write_run b w xs e h = rw (transfer, e, le→leb _ _ h) refl

    sendfile_run :
        (b : Sendbuf) (w : W)
        → b.buf ≡ none
        → is_neg b.fd ≡ false
        → transfer sys fd b w ≡ ok (settle sys (sys.sendfile fd b.fd b.off b.len w))
    unfolding transfer
    sendfile_run b w e h = rw (transfer, e, h) refl

    shutdown_run :
        (b : Sendbuf) (w : W) (z : Bool)
        → b.buf ≡ none
        → is_neg b.fd ≡ true
        → is_zero (sys.shutdown fd w).0 ≡ z
        → transfer sys fd b w ≡ ok (if z then some b.len else none, (sys.shutdown fd w).1)
    unfolding transfer
    shutdown_run b w true e h z = rw (transfer, e, h, z) refl
    shutdown_run b w false e h z = rw (transfer, e, h, z) refl

    pub transfer_lem : (b : Sendbuf) (w : W) → Backed b → Returns (transfer sys fd b w) (Moves b w)
    transfer_lem b w k = elim (Option-cases b.buf) [
      | inl e ↦ elim (Bool-cases (is_neg b.fd)) [
        | inl h ↦
            let same = bytes-none file b e h in
            let none_left = bytes-none file (advance b.len b) e h in
            elim (Bool-cases (is_zero (sys.shutdown fd w).0)) [
              | inl z ↦ (
                (some b.len, (sys.shutdown fd w).1),
                shutdown_run b w true e h z,
                (
                  omega arith,
                  ap (λ l. wire (sys.shutdown fd w).1 ++ l) none_left
                      ∙ ap (λ l. l ++ []) (socket.shuts w)
                      ∙ ap (λ l. wire w ++ l) (sym same),
                  subst (λ o. Holds o (b.off + b.len + (advance b.len b).len)) (sym e) tt,
                ),
              )
              | inr z ↦
                  ((none, (sys.shutdown fd w).1), shutdown_run b w false e h z, socket.shuts w)
            ]
        | inr h ↦ (
          settle sys (sys.sendfile fd b.fd b.off b.len w),
          sendfile_run b w e h,
          settle_lem (file b.fd) b w _ (bytes-file file b e h)
              (λ n l.
                bytes-file file (advance n b) e h
                ∙ ap (λ m. take m (drop (b.off + n) (file b.fd))) (less n b l))
              (λ n l. subst (λ o. Holds o (b.off + n + (advance n b).len)) (sym e) tt)
              (socket.sends b.fd b.off b.len w),
        )
      ]
      | inr (xs, e) ↦
          let fit = subst (λ o. Holds o (b.off + b.len)) e k in
          (
            settle sys (sys.write fd (take b.len (drop b.off xs)) w),
            write_run b w xs e fit,
            settle_lem xs b w _ (bytes-buf file b xs e)
                (λ n l.
                  bytes-buf file (advance n b) xs e
                  ∙ ap (λ m. take m (drop (b.off + n) xs)) (less n b l))
                (λ n l.
                  subst (λ o. Holds o (b.off + n + (advance n b).len)) (sym e)
                    (omega (arith, less n b l)))
                (socket.writes (take b.len (drop b.off xs)) w),
          )
    ]
