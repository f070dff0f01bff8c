-- ===== src/Sheets/Rows/Found.antt =====
-- The row that a search finds.
use mathlib.Core.Bool.{true≢false}
use mathlib.Core.Option.{some-injective}
use ieum_agent.Base.{
  ◌↔◌, test_self, ℕ, ◌≡◌, ◌⊎◌, refl, sym, ◌∙◌, ap, String, true, Option, none, some, List, [], ◌∷◌,
  ◌++◌, ◌==◌, string_eq, eqb, reverse, map, All, Bool-cases, inl, inr, get_elem?, eq_of_test,
  and_left, and_right, arith,
}
use ieum_agent.Value.{Value, text, bool}
use ieum_agent.Value.Text.{codes, lower_code, eq_codes}
use ieum_agent.Notion.Values.{Python, to_text}
use ieum_agent.Sheets.Rows.{
  shown_cell, cell_text, row_matches, numbered, first_match, flag, find_row,
}

-- The search is told to start at the bottom.
abbrev pub FromBottom : Value → Type 0
FromBottom (bool b) = b ≡ true
FromBottom (text s) = map lower_code (codes s) ≡ codes "true"
FromBottom v = ⊥

eq_codes_iff : (a b : List ℕ) → (eq_codes a b ≡ true) ↔ (a ≡ b)
eq_codes_iff [] [] = (λ h. refl, λ e. refl)
eq_codes_iff (c ∷ a) (d ∷ b) =
    let (to, from) = eq_codes_iff a b in
    (
      λ h.
          let head : c ≡ d = ground (arith, and_left (eqb c d) _ h) in
          let tail : a ≡ b = to (and_right (eqb c d) _ h) in cc,
      λ e. let head : c ≡ d = cc in let tail : a ≡ b = cc in ground (arith, from tail, head),
    )
eq_codes_iff [] (d ∷ b) = (λ h. cc, λ e. cc)
eq_codes_iff (c ∷ a) [] = (λ h. cc, λ e. cc)

flag_iff : (v : Value) → (flag v ≡ true) ↔ FromBottom v
unfolding flag
flag_iff (bool b) = (λ h. h, λ h. h)
flag_iff (text s) = eq_codes_iff _ _
flag_iff v = (λ h. true≢false (sym h), λ e. absurd e)

module _ (py : Python) where
  -- The text of a cell, which is empty where the row has no such cell.
  abbrev pub HasText : List Value → ℕ × String → Type 0
  HasText row (i, s) =
      ((get_elem? row i ≡ none) × (s ≡ ""))
      ⊎ ((v : Value) × (get_elem? row i ≡ some v) × (to_text py v ≡ s))

  text_of_iff :
      (o : Option Value) (s : String)
      → (shown_cell py o ≡ s)
        ↔ (((o ≡ none) × (s ≡ "")) ⊎ ((v : Value) × (o ≡ some v) × (to_text py v ≡ s)))
  text_of_iff none s =
      (λ h. inl (refl, sym h), λ t. elim t [ inl (n, e) ↦ sym e | inr (v, n, e) ↦ cc ])
  text_of_iff (some v) s = (
    λ h. inr (v, refl, h),
    λ t. elim t [ inl (n, e) ↦ cc | inr (w, n, e) ↦ ap (to_text py) (some-injective _ _ n) ∙ e ],
  )

  module _ (conditions : List (ℕ × String)) where
    -- The row has the text of each condition in its column.
    abbrev pub Meets : List Value → Type 0
    Meets row = All (HasText row) conditions

    abbrev pub Differs : ℕ × List Value → Type 0
    Differs (n, row) = ¬ Meets row

    -- The row with the number meets the conditions, and none before it in the list does; or there is
    -- none.
    abbrev pub FirstIn : List (ℕ × List Value) → Option ℕ → Type 0
    FirstIn rows none = All Differs rows
    FirstIn rows (some n) =
        (before : List (ℕ × List Value)) × (row : List Value) × (after : List (ℕ × List Value))
        × (rows ≡ before ++ (n, row) ∷ after)
        × Meets row
        × All Differs before

    FirstIn-cons :
        (r : ℕ × List Value) (rows : List (ℕ × List Value)) (o : Option ℕ)
        → Differs r
        → FirstIn rows o
        → FirstIn (r ∷ rows) o
    FirstIn-cons r rows none d h = (d, h)
    FirstIn-cons r rows (some n) d (before, row, after, e, found, all) =
        (r ∷ before, row, after, ap (λ t. r ∷ t) e, found, (d, all))

  row_matches_iff :
      (conditions : List (ℕ × String)) (row : List Value)
      → (row_matches py conditions row ≡ true) ↔ Meets conditions row
  row_matches_iff [] row = (λ h. tt, λ m. refl)
  row_matches_iff ((i, s) ∷ rest) row =
      let (to, from) = row_matches_iff rest row in
      let (here, back) = text_of_iff (get_elem? row i) s in
      (
        λ h. (
          here (eq_of_test _ s (and_left (cell_text py row i == s) _ h)),
          to (and_right (cell_text py row i == s) _ h),
        ),
        λ (t, m). rw (back t, test_self s, from m) refl,
      )

  first_match-FirstIn :
      (conditions : List (ℕ × String)) (rows : List (ℕ × List Value))
      → FirstIn conditions rows (first_match py conditions rows)
  first_match-FirstIn conditions [] = tt
  first_match-FirstIn conditions ((n, row) ∷ rows) =
      elim (Bool-cases (row_matches py conditions row)) [
        | inl found ↦ rw found ([], row, rows, refl, (row_matches_iff conditions row).0 found, tt)
        | inr other ↦ rw other (
            FirstIn-cons conditions (n, row) rows _
              (λ m. true≢false (sym ((row_matches_iff conditions row).1 m) ∙ other))
              (first_match-FirstIn conditions rows))
      ]

  -- The search goes through the rows below the headers, numbered from 2, from the bottom if it is told
  -- so by true or a text that reads "true" in lower case, else from the top: the row that it finds has
  -- the text of every condition in its column and no row before it does, and if it finds none, no row
  -- does.
  pub find_row-FirstIn :
      (conditions : List (ℕ × String)) (from_bottom : Value) (rows : List (List Value))
      → (FromBottom from_bottom
          × FirstIn conditions
              (reverse (numbered 2 rows))
              (find_row py conditions from_bottom rows))
        ⊎ ((¬ FromBottom from_bottom)
            × FirstIn conditions (numbered 2 rows) (find_row py conditions from_bottom rows))
  unfolding find_row
  find_row-FirstIn conditions from_bottom rows = elim (Bool-cases (flag from_bottom)) [
    | inl bottom ↦ inl (
      (flag_iff from_bottom).0 bottom,
      rw bottom (first_match-FirstIn conditions (reverse (numbered 2 rows))),
    )
    | inr top ↦ inr (
      (λ b. true≢false (sym ((flag_iff from_bottom).1 b) ∙ top)),
      rw top (first_match-FirstIn conditions (numbered 2 rows)),
    )
  ]
