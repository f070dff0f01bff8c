-- ===== src/Sheets/Columns.antt =====
-- Columns by their letters and by their headers.
pub mod Letters
pub mod Resolved
use Prim.Native.Char.{code}
use Prim.Native.String
use Prim.Native.String.{[], ◌∷◌}
use ieum_agent.Base.{
  ℕ, zero, suc, ◌+◌, ◌-◌, ◌*◌, ◌/◌, ◌%◌, String, Bool, true, false, not, ◌&&◌, ◌||◌, Option, none,
  some, List, ◌==◌, string_eq, if◌then◌else◌, eqb, leb, ltb, all, any, length, map, get_elem?,
}
use ieum_agent.Base.Result.{Result, ok, err, ◌>>=◌}
use ieum_agent.Value.{Value, null}
use ieum_agent.Value.Text.{◌<>◌, codes, drop_text, is_blank, is_space, starts_with}
use ieum_agent.Notion.Values.{Python, to_text}

-- Each round takes at least one off `i`, so `i` rounds are enough. Letters are given by their codes.
unfoldable pub col_from : ℕ → ℕ → List ℕ → List ℕ
col_from zero i letters = letters
col_from (suc fuel) i letters =
    let longer = col_from fuel ((i - 1) / 26) (List.◌∷◌ (65 + (i - 1) % 26) letters) in
    if eqb i 0 then letters else longer

-- `_col`
unfoldable pub col : ℕ → List ℕ
unfolding col_from
col i = col_from (i + 1) (i + 1) List.[]

unfoldable pub index_from : ℕ → List ℕ → ℕ
index_from n List.[] = n
index_from n (List.◌∷◌ c cs) = index_from (n * 26 + c - 64) cs

-- `_col_index` of at least one letter
unfoldable pub col_index : List ℕ → ℕ
unfolding index_from
col_index letters = index_from 0 letters - 1

abbrev pub is_letter : ℕ → Bool
is_letter c = leb b'A' c && leb c b'Z'

abbrev pub is_letters : List ℕ → Bool
is_letters cs = all is_letter cs && leb 1 (length cs) && leb (length cs) 3

abbrev is_header_blank : ℕ → Bool
is_header_blank c = is_space c && not (eqb c 133 || eqb c 160 || eqb c 8199 || eqb c 8239)

-- `""` for a header that is blank
abbrev header_of : String.String → String.String
header_of s = if all is_header_blank (codes s) then "" else s

abbrev is_nil : List String.String → Bool
is_nil List.[] = true
is_nil (List.◌∷◌ s ss) = false

-- `while headers and headers[-1] == "": headers.pop()`
unfoldable pub trim : List String.String → List String.String
trim List.[] = List.[]
trim (List.◌∷◌ h hs) =
    let rest = trim hs in if h == "" && is_nil rest then List.[] else List.◌∷◌ h rest

abbrev pub repeat {ℓ} : {A : Type ℓ} → ℕ → A → List A
repeat zero a = List.[]
repeat (suc n) a = List.◌∷◌ a (repeat n a)

abbrev or_blank : ℕ → List String.String → List String.String
or_blank column_count List.[] = repeat (if ltb column_count 26 then column_count else 26) ""
or_blank column_count (List.◌∷◌ h hs) = List.◌∷◌ h hs

-- `_header_range`
unfoldable pub header_range : Python → List Value → ℕ → List String.String
unfolding codes trim
header_range py first_row column_count =
    or_blank column_count (trim (map (λ v. header_of (to_text py v)) first_row))

pub data SheetError : Type 0 where
  no_column ambiguous unknown_column given_twice nothing : SheetError

abbrev pub occurrences : String.String → List String.String → ℕ
occurrences s List.[] = 0
occurrences s (List.◌∷◌ h hs) = (if s == h then 1 else 0) + occurrences s hs

abbrev pub position : String.String → List String.String → ℕ
position s List.[] = 0
position s (List.◌∷◌ h hs) = if s == h then 0 else suc (position s hs)

-- `key.replace("%2E", ".")`; each round takes at least one character
unfoldable pub unescape_from : ℕ → String.String → String.String
unescape_from zero s = s
unescape_from (suc fuel) [] = ""
unescape_from (suc fuel) (c ∷ s) = elim (starts_with (c ∷ s) "%2E") [
  | true ↦ "." <> unescape_from fuel (drop_text 2 s)
  | false ↦ c ∷ unescape_from fuel s
]

unfoldable pub unescape : String.String → String.String
unfolding unescape_from codes starts_with
unescape s = unescape_from (length (codes s)) s

-- the column of a header that stands once, and else what comes next
abbrev pub by_name : String.String → List String.String → Result SheetError ℕ → Result SheetError ℕ
by_name name headers next =
    if eqb (occurrences name headers) 1
    then ok (position name headers)
    else if eqb (occurrences name headers) 0
    then next
    else err ambiguous

abbrev pub resolve_text : String.String → List String.String → Result SheetError ℕ
resolve_text key headers =
    if is_blank key
    then err no_column
    else if is_letters (codes key) && ltb (col_index (codes key)) (length headers)
    then ok (col_index (codes key))
    else by_name key headers (by_name (unescape key) headers (err unknown_column))

-- `_resolve`
unfoldable pub resolve : Python → Value → List String.String → Result SheetError ℕ
unfolding is_blank codes col_index unescape
resolve py null headers = err no_column
resolve py v headers = resolve_text (to_text py v) headers
