-- ===== src/State/Rows.antt =====
-- `state_set`, and what stays true of the current row.
use bklib.Base.{
  ◌≡◌, refl, ◌∙◌, true, false, Option, none, some, List, [], ◌∷◌, ok, Returns, arith, Bool-cases,
  inl, inr, ◌⊎◌,
}
use bklib.Base.Int.{ℤ, is_zero}
use bklib.State.{Row, same_state, find_row}

module _ {T : Type 0} where
  -- The table has an end: a row with `retry_max` 0.
  abbrev pub Ends : List (Row T) → Type 0
  Ends [] = ⊥
  Ends (p ∷ ps) = (is_zero p.retry_max ≡ true) ⊎ Ends ps

  -- `p` is the first row with the state, before the end.
  abbrev pub FirstRow : ℤ → Row T → List (Row T) → Type 0
  FirstRow s p [] = ⊥
  FirstRow s p (q ∷ qs) =
      (is_zero q.retry_max ≡ false)
      × ((same_state q.state s ≡ true) × (q ≡ p) ⊎ (same_state q.state s ≡ false) × FirstRow s p qs)

  -- No row before the end has the state.
  abbrev pub NoRow : ℤ → List (Row T) → Type 0
  NoRow s [] = ⊥
  NoRow s (q ∷ qs) =
      (is_zero q.retry_max ≡ true)
      ⊎ (is_zero q.retry_max ≡ false) × (same_state q.state s ≡ false) × NoRow s qs

  abbrev pub Found : ℤ → List (Row T) → Option (Row T) → Type 0
  Found s table none = NoRow s table
  Found s table (some p) = FirstRow s p table

  end_run :
      (s : ℤ) (p : Row T) (ps : List (Row T))
      → is_zero p.retry_max ≡ true
      → find_row s (p ∷ ps) ≡ ok none
  unfolding find_row
  end_run s p ps e = rw (find_row, e) refl

  hit_run :
      (s : ℤ) (p : Row T) (ps : List (Row T))
      → is_zero p.retry_max ≡ false
      → same_state p.state s ≡ true
      → find_row s (p ∷ ps) ≡ ok (some p)
  unfolding find_row
  hit_run s p ps e h = rw (find_row, e, h) refl

  miss_run :
      (s : ℤ) (p : Row T) (ps : List (Row T))
      → is_zero p.retry_max ≡ false
      → same_state p.state s ≡ false
      → find_row s (p ∷ ps) ≡ find_row s ps
  unfolding find_row
  miss_run s p ps e h = ground (arith, e, h)

  pub find_row_lem :
      (s : ℤ) (table : List (Row T)) → Ends table → Returns (find_row s table) (Found s table)
  find_row_lem s [] e = absurd e
  find_row_lem s (p ∷ ps) e = elim (Bool-cases (is_zero p.retry_max)) [
    | inl z ↦ (none, end_run s p ps z, inl z)
    | inr z ↦ elim (Bool-cases (same_state p.state s)) [
      | inl h ↦ (some p, hit_run s p ps z h, (z, inl (h, refl)))
      | inr h ↦ miss s p ps z h (find_row_lem s ps (later e z))
    ]
  ]
    where
      later : Ends (p ∷ ps) → is_zero p.retry_max ≡ false → Ends ps
      later (inl y) z = absurd cc
      later (inr l) z = l

      miss :
          (s : ℤ) (p : Row T) (ps : List (Row T))
          → is_zero p.retry_max ≡ false
          → same_state p.state s ≡ false
          → Returns (find_row s ps) (Found s ps)
          → Returns (find_row s (p ∷ ps)) (Found s (p ∷ ps))
      miss s p ps z h (none, run, f) = (none, miss_run s p ps z h ∙ run, inr (z, h, f))
      miss s p ps z h (some q, run, f) = (some q, miss_run s p ps z h ∙ run, (z, inr (h, f)))
