-- ===== src/Sheets/Tests.antt =====
-- Worksheets at concrete inputs.
use ieum_agent.Base.{
  ◌≡◌, ◌⊎◌, refl, ℕ, String, false, none, some, List, [], ◌∷◌, string_eq, inl, inr, get_elem?,
  reverse,
}
use ieum_agent.Base.Dict.{Dict}
use ieum_agent.Base.Result.{ok, err}
use ieum_agent.Value.{Value, null, text, bool}
use ieum_agent.Value.Text.{codes, is_blank, drop_text, starts_with, starts_codes}
use ieum_agent.Notion.Values.{Python}
use ieum_agent.Sheets.Columns.{
  col, col_from, col_index, index_from, unescape, unescape_from, resolve, ambiguous, header_range,
  trim, given_twice,
}
use ieum_agent.Sheets.Columns.Letters.{col_index-col}
use ieum_agent.Sheets.Columns.Resolved.{Names, resolve-Names}
use ieum_agent.Sheets.Rows.{is_blank_cell, cells_of, fill, make_row, find_row, flag, numbered}
use ieum_agent.Sheets.Rows.Placed.{make_row_places}
use ieum_agent.Sheets.Rows.Found.{FromBottom, FirstIn, find_row-FirstIn}

abbrev py : Python
py = record {
  str = λ v. "7";
  read_int = λ s. none;
  read_finite = λ s. none;
  read_json = λ s. none;
  is_decimal = λ c. false;
}

abbrev headers : List String
headers = "Name" ∷ "Mail" ∷ "v1.2" ∷ "Mail" ∷ []

az : col 51 ≡ codes "AZ"
unfolding col col_from codes
az = refl

col_index-col_example : col_index (col 51) ≡ 51
col_index-col_example = col_index-col 51

no_titles : header_range py (text " " ∷ text "a" ∷ text "" ∷ []) 4 ≡ "" ∷ "a" ∷ []
unfolding header_range trim codes string_eq
no_titles = refl

escaped : resolve py (text "v1%2E2") headers ≡ ok 2
unfolding resolve is_blank codes col_index index_from unescape unescape_from starts_with
    starts_codes drop_text string_eq
escaped = refl

two_mails : resolve py (text "Mail") headers ≡ err ambiguous
unfolding resolve is_blank codes col_index index_from unescape unescape_from starts_with
    starts_codes drop_text string_eq
two_mails = refl

resolve-Names_example : Names "v1%2E2" headers 2
resolve-Names_example = resolve-Names py (text "v1%2E2") headers 2 escaped

abbrev columns : Dict Value
columns = ("D", text "x@y") ∷ ("Name", text "Kim") ∷ ("B", null) ∷ []

made : make_row py headers (text "") columns ≡ ok (text "Kim" ∷ text "" ∷ text "" ∷ text "x@y" ∷ [])
unfolding make_row cells_of is_blank_cell fill resolve is_blank codes col_index index_from unescape
    unescape_from starts_with starts_codes drop_text string_eq
made = refl

twice : make_row py headers (text "") (("A", text "x") ∷ ("Name", text "y") ∷ []) ≡ err given_twice
unfolding make_row cells_of is_blank_cell fill resolve is_blank codes col_index index_from unescape
    unescape_from starts_with starts_codes drop_text string_eq
twice = refl

kim_full : is_blank_cell (text "Kim") ≡ false
unfolding is_blank_cell is_blank
kim_full = refl

make_row_places_example :
    (i : ℕ) × (resolve py (text "Name") headers ≡ ok i)
    × (get_elem? (text "Kim" ∷ text "" ∷ text "" ∷ text "x@y" ∷ []) i ≡ some (text "Kim"))
make_row_places_example =
    make_row_places py headers (text "") columns (text "Kim" ∷ text "" ∷ text "" ∷ text "x@y" ∷ [])
      "Name" (text "Kim") made (inr (inl refl)) kim_full

abbrev rows : List (List Value)
rows = (text "a" ∷ []) ∷ (text "b" ∷ []) ∷ (text "a" ∷ text "z" ∷ []) ∷ []

last_a : find_row py ((0, "a") ∷ []) (text "TRUE") rows ≡ some 4
unfolding find_row flag codes string_eq
last_a = refl

find_row-FirstIn_example :
    (FromBottom (bool false)
      × FirstIn py
          ((0, "a") ∷ [])
          (reverse (numbered 2 rows))
          (find_row py ((0, "a") ∷ []) (bool false) rows))
    ⊎ ((¬ FromBottom (bool false))
        × FirstIn py
            ((0, "a") ∷ [])
            (numbered 2 rows)
            (find_row py ((0, "a") ∷ []) (bool false) rows))
find_row-FirstIn_example = find_row-FirstIn py ((0, "a") ∷ []) (bool false) rows
