-- ===== src/Sheets/Columns/Resolved.antt =====
-- The column that a key stands for.
use ieum_agent.Base.{
  ℕ, ◌≡◌, ◌<◌, refl, sym, String, true, ◌&&◌, ◌⊎◌, some, List, [], ◌∷◌, ◌==◌, string_eq, eqb, leb,
  ltb, ltb→lt, all, length, get_elem?, arith, Bool-cases, inl, inr, if_cases, and_left, and_right,
  eq_of_test,
}
use ieum_agent.Base.Result.{Result, ok, err, ok-injective}
use ieum_agent.Value.{Value, null, text}
use ieum_agent.Value.Text.{codes, is_blank}
use ieum_agent.Notion.Values.{Python, to_text}
use ieum_agent.Sheets.Columns.{
  col, col_index, is_letter, is_letters, SheetError, occurrences, position, unescape, by_name,
  resolve_text, resolve, unknown_column,
}
use ieum_agent.Sheets.Columns.Letters.{AreLetters, col-col_index}

-- The header of the column, and of no other.
abbrev pub Only : String → List String → ℕ → Type 0
Only name headers i = (get_elem? headers i ≡ some name) × (occurrences name headers ≡ 1)

abbrev pub Names : String → List String → ℕ → Type 0
Names key headers i =
    (i < length headers)
    × ((codes key ≡ col i) ⊎ (Only key headers i ⊎ Only (unescape key) headers i))

get_elem?-position :
    (s : String) (hs : List String)
    → 0 < occurrences s hs
    → (position s hs < length hs) × (get_elem? hs (position s hs) ≡ some s)
get_elem?-position s [] h = absurd (omega arith)
get_elem?-position s (x ∷ xs) h = elim (Bool-cases (s == x)) [
  | inl same ↦ rw (same, ← eq_of_test s x same) (omega arith, refl)
  | inr other ↦
      let (within, there) = get_elem?-position s xs (ground arith) in rw other (omega arith, there)
]

all_letters : (cs : List ℕ) → all is_letter cs ≡ true → AreLetters cs
all_letters [] h = tt
all_letters (c ∷ cs) h =
    (ground arith, ground arith, all_letters cs (and_right (is_letter c) (all is_letter cs) h))

letters-col : (cs : List ℕ) → is_letters cs ≡ true → cs ≡ col (col_index cs)
letters-col [] h = absurd (ground arith)
letters-col (c ∷ cs) h = sym (
    col-col_index c cs (
      all_letters (c ∷ cs) (
        and_left (all is_letter (c ∷ cs)) _ (
          and_left (all is_letter (c ∷ cs) && leb 1 (length (c ∷ cs))) (leb (length (c ∷ cs)) 3)
            h))))

by_name-Only :
    (name : String) (headers : List String) (next : Result SheetError ℕ) (i : ℕ)
    → by_name name headers next ≡ ok i
    → ((i < length headers) × Only name headers i) ⊎ (next ≡ ok i)
by_name-Only name headers next i h = elim (if_cases (eqb (occurrences name headers) 1) h) [
  | inl (once, e) ↦
      let one : occurrences name headers ≡ 1 = ground arith in
      let (within, there) = get_elem?-position name headers (omega arith) in
      inl (rw (← ok-injective e) (within, (there, one)))
  | inr (other, rest) ↦ elim (if_cases (eqb (occurrences name headers) 0) rest) [
    | inl (absent, e) ↦ inr e
    | inr (many, e) ↦ cc
  ]
]

resolve_text-Names :
    (key : String) (headers : List String) (i : ℕ)
    → resolve_text key headers ≡ ok i
    → Names key headers i
resolve_text-Names key headers i h = elim (if_cases (is_blank key) h) [
  | inl (empty, e) ↦ cc
  | inr (full, rest) ↦
      elim (if_cases (is_letters (codes key) && ltb (col_index (codes key)) (length headers))
        rest) [
          | inl (letters, e) ↦
              let is_col = letters-col (codes key) (and_left (is_letters (codes key)) _ letters) in
              let within = ltb→lt _ _ (and_right (is_letters (codes key)) _ letters) in
              rw (← ok-injective e) (within, inl is_col)
          | inr (no_letters, names) ↦ elim (by_name-Only key headers _ i names) [
            | inl (within, only) ↦ (within, inr (inl only))
            | inr next ↦ elim (by_name-Only (unescape key) headers (err unknown_column) i next) [
              | inl (within, only) ↦ (within, inr (inr only))
              | inr e ↦ cc
            ]
          ]
        ]
]

-- A key that is resolved stands for a column within the headers: it is the letters of the column, or
-- the header of this column and of no other, as it is or with `%2E` read as a dot.
pub resolve-Names :
    (py : Python) (key : Value) (headers : List String) (i : ℕ)
    → resolve py key headers ≡ ok i
    → Names (to_text py key) headers i
unfolding resolve
resolve-Names py null headers i h = cc
resolve-Names py (text s) headers i h = resolve_text-Names s headers i h
resolve-Names py key headers i h = resolve_text-Names (to_text py key) headers i h
