-- ===== src/Sheets/Rows.antt =====
-- A row from values by column, and the row that has the values looked up.
pub mod Placed
pub mod Found
use ieum_agent.Base.{
  ℕ, zero, suc, ◌+◌, String, Bool, true, false, not, ◌&&◌, ◌||◌, Option, none, some, List, [], ◌∷◌,
  ◌==◌, string_eq, if◌then◌else◌, eqb, leb, ltb, any, all, length, map, select, get_elem?, reverse,
}
use ieum_agent.Base.Dict.{Dict}
use ieum_agent.Base.Result.{Result, ok, err, ◌>>=◌}
use ieum_agent.Value.{Value, null, text, bool}
use ieum_agent.Value.Text.{is_blank, codes, eq_codes, lower_code}
use ieum_agent.Notion.Values.{Python, to_text}
use ieum_agent.Sheets.Columns.{SheetError, given_twice, nothing, repeat, resolve}

-- `_blank`
unfoldable pub is_blank_cell : Value → Bool
unfolding is_blank
is_blank_cell null = true
is_blank_cell (text s) = is_blank s
is_blank_cell v = false

abbrev pub Cells : Type 0
Cells = List (ℕ × Value)

abbrev pub cell_at : ℕ → Cells → Option Value
cell_at i [] = none
cell_at i ((j, v) ∷ cells) = if eqb i j then some v else cell_at i cells

abbrev pub has_cell : ℕ → Cells → Bool
has_cell i [] = false
has_cell i ((j, v) ∷ cells) = eqb i j || has_cell i cells

-- the loop over the columns given
unfoldable pub cells_of : Python → List String → Cells → Dict Value → Result SheetError Cells
unfolding resolve
cells_of py headers cells [] = ok cells
cells_of py headers cells ((key, v) ∷ rest) = do
  i ← resolve py (text key) headers
  if has_cell i cells then err given_twice else cells_of py headers ((i, v) ∷ cells) rest

abbrev pub filled_of : Cells → Cells
filled_of cells = select (λ (i, v). not (is_blank_cell v)) cells

abbrev pub largest : Cells → ℕ
largest [] = 0
largest ((i, v) ∷ cells) = let m = largest cells in if ltb m i then i else m

-- `row[i] = v`
abbrev pub set_at : ℕ → Value → List Value → List Value
set_at i v [] = []
set_at zero v (x ∷ xs) = v ∷ xs
set_at (suc i) v (x ∷ xs) = x ∷ set_at i v xs

unfoldable pub fill : Cells → List Value → List Value
fill [] row = row
fill ((i, v) ∷ cells) row = set_at i v (fill cells row)

abbrev pub row_of : Value → Cells → Result SheetError (List Value)
row_of blank [] = err nothing
row_of blank (c ∷ cells) = ok (fill (c ∷ cells) (repeat (largest (c ∷ cells) + 1) blank))

-- `_row`
unfoldable pub make_row : Python → List String → Value → Dict Value → Result SheetError (List Value)
unfolding cells_of is_blank_cell fill
make_row py headers blank columns = do
  cells ← cells_of py headers [] columns
  row_of blank (filled_of cells)

abbrev pub shown_cell : Python → Option Value → String
shown_cell py none = ""
shown_cell py (some v) = to_text py v

abbrev pub cell_text : Python → List Value → ℕ → String
cell_text py row i = shown_cell py (get_elem? row i)

-- the values of a condition in their columns
abbrev pub row_matches : Python → List (ℕ × String) → List Value → Bool
row_matches py conditions row = all (λ (i, s). cell_text py row i == s) conditions

abbrev pub numbered : ℕ → List (List Value) → List (ℕ × List Value)
numbered n [] = []
numbered n (row ∷ rows) = (n, row) ∷ numbered (n + 1) rows

abbrev pub first_match : Python → List (ℕ × String) → List (ℕ × List Value) → Option ℕ
first_match py conditions [] = none
first_match py conditions ((n, row) ∷ rows) =
    if row_matches py conditions row then some n else first_match py conditions rows

-- `_flag`
unfoldable pub flag : Value → Bool
unfolding codes
flag (bool b) = b
flag (text s) = eq_codes (map lower_code (codes s)) (codes "true")
flag v = false

-- the search of `_lookup` in the rows below the headers, which are numbered from 2
unfoldable pub find_row : Python → List (ℕ × String) → Value → List (List Value) → Option ℕ
unfolding flag
find_row py conditions from_bottom rows =
    if flag from_bottom
    then first_match py conditions (reverse (numbered 2 rows))
    else first_match py conditions (numbered 2 rows)
