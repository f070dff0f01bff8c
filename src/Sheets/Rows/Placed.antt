-- ===== src/Sheets/Rows/Placed.antt =====
-- Each value of a row stands in its column.
use mathlib.Core.Path.{subst}
use mathlib.Core.Option.{some-injective}
use ieum_agent.Base.{
  ℕ, zero, suc, ◌+◌, ◌≡◌, ◌≤◌, ◌<◌, refl, sym, ap, ◌∙◌, String, Bool, true, false, Option, none,
  some, List, [], ◌∷◌, if◌then◌else◌, eqb, length, get_elem?, In, arith, Bool-cases, inl, inr,
  if_cases,
}
use ieum_agent.Base.Dict.{Dict}
use ieum_agent.Base.Result.{ok, bind-ok, if-ok, ok-injective}
use ieum_agent.Value.{Value, text}
use ieum_agent.Notion.Values.{Python}
use ieum_agent.Sheets.Columns.{repeat, resolve}
use ieum_agent.Sheets.Rows.{
  is_blank_cell, Cells, cell_at, has_cell, cells_of, filled_of, largest, set_at, fill, row_of,
  make_row,
}

get_elem?-set_at :
    (i j : ℕ) (v : Value) (row : List Value)
    → i < length row
    → get_elem? (set_at i v row) j ≡ (if eqb j i then some v else get_elem? row j)
get_elem?-set_at i j v [] h = absurd (omega arith)
get_elem?-set_at zero zero v (x ∷ xs) h = refl
get_elem?-set_at zero (suc j) v (x ∷ xs) h = ground arith
get_elem?-set_at (suc i) zero v (x ∷ xs) h = ground arith
get_elem?-set_at (suc i) (suc j) v (x ∷ xs) h = ground (arith, get_elem?-set_at i j v xs)

length-set_at : (i : ℕ) (v : Value) (row : List Value) → length (set_at i v row) ≡ length row
length-set_at i v [] = refl
length-set_at zero v (x ∷ xs) = refl
length-set_at (suc i) v (x ∷ xs) = omega (arith, length-set_at i v xs)

length-fill : (cells : Cells) (row : List Value) → length (fill cells row) ≡ length row
unfolding fill
length-fill [] row = refl
length-fill ((i, v) ∷ cells) row = length-set_at i v (fill cells row) ∙ length-fill cells row

length-repeat : (n : ℕ) (v : Value) → length (repeat n v) ≡ n
length-repeat zero v = refl
length-repeat (suc n) v = omega (arith, length-repeat n v)

get_elem?-repeat : (n i : ℕ) (v : Value) → i < n → get_elem? (repeat n v) i ≡ some v
get_elem?-repeat zero i v h = absurd (omega arith)
get_elem?-repeat (suc n) zero v h = refl
get_elem?-repeat (suc n) (suc i) v h = get_elem?-repeat n i v (omega arith)

abbrev or_blank : Value → Option Value → Value
or_blank blank none = blank
or_blank blank (some v) = v

get_elem?-fill :
    (cells : Cells) (n j : ℕ) (blank : Value)
    → largest cells < n
    → j < n
    → get_elem? (fill cells (repeat n blank)) j ≡ some (or_blank blank (cell_at j cells))
unfolding fill
get_elem?-fill [] n j blank h k = get_elem?-repeat n j blank k
get_elem?-fill ((i, v) ∷ cells) n j blank h k =
    let rest = get_elem?-fill cells n j blank (ground arith) k in
    let within : i < length (fill cells (repeat n blank)) =
      ground (arith, length-fill cells (repeat n blank), length-repeat n blank) in
    get_elem?-set_at i j v (fill cells (repeat n blank)) within
    ∙ placed (eqb j i) v (cell_at j cells) rest
  where
    placed :
        (b : Bool) (v : Value) (c : Option Value) {x : Option Value}
        → x ≡ some (or_blank blank c)
        → (if b then some v else x) ≡ some (or_blank blank (if b then some v else c))
    placed true v c e = refl
    placed false v c e = e

cell_at-le : (i : ℕ) (v : Value) (cells : Cells) → cell_at i cells ≡ some v → i ≤ largest cells
cell_at-le i v [] h = cc
cell_at-le i v ((j, w) ∷ cells) h = elim (if_cases (eqb i j) h) [
  | inl (same, e) ↦ ground arith
  | inr (other, rest) ↦ let le = cell_at-le i v cells rest in ground arith
]

cell_at-filled_of :
    (i : ℕ) (v : Value) (cells : Cells)
    → cell_at i cells ≡ some v
    → is_blank_cell v ≡ false
    → cell_at i (filled_of cells) ≡ some v
cell_at-filled_of i v [] h full = cc
cell_at-filled_of i v ((j, w) ∷ cells) h full = elim (if_cases (eqb i j) h) [
  | inl (same, e) ↦
      let filled = subst (λ x. is_blank_cell x ≡ false) (sym (some-injective _ _ e)) full in
      rw (filled, same) e
  | inr (other, rest) ↦
      let later = cell_at-filled_of i v cells rest full in
      elim (Bool-cases (is_blank_cell w)) [
        | inl empty ↦ rw empty later
        | inr filled ↦ rw (filled, other) later
      ]
]

has_cell-cell_at :
    (i : ℕ) (v : Value) (cells : Cells) → cell_at i cells ≡ some v → has_cell i cells ≡ true
has_cell-cell_at i v [] h = cc
has_cell-cell_at i v ((j, w) ∷ cells) h = ground (arith, has_cell-cell_at i v cells)

module _ (py : Python) (headers : List String) where
  -- One round: the key is resolved to a column that has no value yet.
  cells_of-cons :
      (cells final : Cells) (key : String) (v : Value) (given : Dict Value)
      → cells_of py headers cells ((key, v) ∷ given) ≡ ok final
      → (i : ℕ) × (resolve py (text key) headers ≡ ok i)
        × (has_cell i cells ≡ false)
        × (cells_of py headers ((i, v) ∷ cells) given ≡ ok final)
  unfolding cells_of
  cells_of-cons cells final key v given h =
      let (i, resolved, rest) = bind-ok (resolve py (text key) headers) _ h in
      let (free, more) = if-ok (has_cell i cells) _ _ rest in (i, resolved, free, more)

  cells_of-keeps :
      (given : Dict Value) (cells final : Cells) (i : ℕ) (v : Value)
      → cells_of py headers cells given ≡ ok final
      → cell_at i cells ≡ some v
      → cell_at i final ≡ some v
  cells_of-keeps [] cells final i v h c = unfold cells_of in rw (← ok-injective h) c
  cells_of-keeps ((key, w) ∷ given) cells final i v h c =
      let (j, resolved, free, rest) = cells_of-cons cells final key w given h in
      let other : eqb i j ≡ false = elim (Bool-cases (eqb i j)) [
        | inl same ↦
            let e : i ≡ j = ground arith in
            let taken = subst (λ k. has_cell k cells ≡ true) e (has_cell-cell_at i v cells c) in cc
        | inr different ↦ different
      ] in
      cells_of-keeps given ((j, w) ∷ cells) final i v rest (rw other c)

  cells_of-places :
      (given : Dict Value) (cells final : Cells) (key : String) (v : Value)
      → cells_of py headers cells given ≡ ok final
      → In (key, v) given
      → (i : ℕ) × (resolve py (text key) headers ≡ ok i) × (cell_at i final ≡ some v)
  cells_of-places [] cells final key v h m = elim m [ ]
  cells_of-places ((k, w) ∷ given) cells final key v h (inl e) =
      let (j, resolved, free, rest) = cells_of-cons cells final k w given h in
      let here : cell_at j ((j, w) ∷ cells) ≡ some w = ground arith in
      let stays = cells_of-keeps given ((j, w) ∷ cells) final j w rest here in
      (
        j,
        rw (ap (λ (p : String × Value). p.0) e) resolved,
        rw (ap (λ (p : String × Value). p.1) e) stays,
      )
  cells_of-places ((k, w) ∷ given) cells final key v h (inr m) =
      let (j, resolved, free, rest) = cells_of-cons cells final k w given h in
      cells_of-places given ((j, w) ∷ cells) final key v rest m

  row_of-places :
      (blank : Value) (cells : Cells) (row : List Value) (i : ℕ) (v : Value)
      → row_of blank cells ≡ ok row
      → cell_at i cells ≡ some v
      → get_elem? row i ≡ some v
  row_of-places blank [] row i v h c = cc
  row_of-places blank (x ∷ cells) row i v h c =
      let le = cell_at-le i v (x ∷ cells) c in
      rw (← ok-injective h) (
        get_elem?-fill (x ∷ cells) (largest (x ∷ cells) + 1) i blank (omega arith) (omega arith)
        ∙ ap (λ o. some (or_blank blank o)) c)

  -- If a row is made, each value given that is not blank stands in the column that its key is resolved
  -- to.
  pub make_row_places :
      (blank : Value) (columns : Dict Value) (row : List Value) (key : String) (v : Value)
      → make_row py headers blank columns ≡ ok row
      → In (key, v) columns
      → is_blank_cell v ≡ false
      → (i : ℕ) × (resolve py (text key) headers ≡ ok i) × (get_elem? row i ≡ some v)
  unfolding make_row
  make_row_places blank columns row key v h m full =
      let (cells, read, made) = bind-ok (cells_of py headers [] columns) _ h in
      let (i, resolved, there) = cells_of-places columns [] cells key v read m in
      (
        i,
        resolved,
        row_of-places blank (filled_of cells) row i v made (cell_at-filled_of i v cells there full),
      )
