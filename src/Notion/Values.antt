-- ===== src/Notion/Values.antt =====
-- The values that a row's properties are given, read as the people who fill them in write them.
use Prim.Native.Char.{code}
use Prim.Native.String
use Prim.Native.String.{[], ◌∷◌}
use ieum_agent.Base.{
  ℕ, String, Bool, true, false, not, ◌&&◌, ◌||◌, Option, none, some, List, map, select, ◌==◌,
  string_eq, if◌then◌else◌, eqb, leb, all, length, reverse,
}
use ieum_agent.Base.Int.{ℤ}
use ieum_agent.Value.{
  Value, null, text, list, dict, Values, nil, cons, Entries, end, entry, Float, values,
}
use ieum_agent.Value.Text.{◌<>◌, codes, is_blank, lower_code, eq_codes, split, starts_with, strip}

-- What Python's str, int, float and json.loads read, and the digits of `re`. A text that
-- they refuse is `none`, as is one that float reads as no finite number.
pub record Python : Type 0 where
  pub str : Value → String
  pub read_int : String → Option ℤ
  pub read_finite : String → Option Float
  pub read_json : String → Option Value
  pub is_decimal : ℕ → Bool

abbrev pub dates_only : Entries → Bool
dates_only end = true
dates_only (entry k v es) = (k == "start" || k == "end") && dates_only es

-- `_blank`
unfoldable mutual
  pub blank : Value → Bool
  blank null = true
  blank (text s) = is_blank s
  blank (list vs) = all_blank vs
  blank (dict es) = dates_only es && blank_start es
  blank v = false

  pub all_blank : Values → Bool
  all_blank nil = true
  all_blank (cons v vs) = blank v && all_blank vs

  -- `_blank(value.get("start"))`
  pub blank_start : Entries → Bool
  blank_start end = true
  blank_start (entry k v es) = if k == "start" then blank v else blank_start es

abbrev pub is_hex_dash : ℕ → Bool
is_hex_dash c =
    leb b'0' c && leb c b'9' || leb b'a' c && leb c b'f' || leb b'A' c && leb c b'F' || eqb c b'-'

-- `_notion_id`; the text of a text is itself
abbrev pub to_text : Python → Value → String.String
to_text py (text s) = s
to_text py v = py.str v

abbrev id_of_text : String.String → Option String.String
id_of_text s =
    if all is_hex_dash (codes s) && leb 32 (length (codes s)) && leb (length (codes s)) 36
    then some s
    else none

unfoldable pub notion_id : Python → Value → Option String.String
unfolding codes
notion_id py null = none
notion_id py v = id_of_text (strip (to_text py v))

-- `_key`
unfoldable pub stored_key : String.String → String.String
stored_key [] = ""
stored_key (c ∷ s) =
    let rest = stored_key s in if eqb (code c) b'.' then "%2E" <> rest else c ∷ rest

abbrev parts_of : String.String → List Value
parts_of s = map (λ t. text t) (select (λ t. not (t == "")) (map strip (split b',' s)))

abbrev list_or_parts : String.String → Option Value → List Value
list_or_parts s (some (list vs)) = values vs
list_or_parts s _ = parts_of s

-- `_items`
unfoldable pub items : Python → Value → List Value
unfolding split strip starts_with
items py (list vs) = values vs
items py (text s) =
    let t = strip s in if starts_with t "[" then list_or_parts t (py.read_json t) else parts_of t
items py v = List.◌∷◌ v List.[]

abbrev pub is_word : String.String → String.String → Bool
is_word word s = eq_codes (map lower_code (codes (strip s))) (codes word)

abbrev after_t : List ℕ → Option (List ℕ)
after_t List.[] = none
after_t (List.◌∷◌ c cs) = if eqb c b'T' then some cs else after_t cs

abbrev is_sign : ℕ → Bool
is_sign c = eqb c b'+' || eqb c b'-'

-- `_OFFSET_RE`, read from the end
unfoldable pub ends_with_offset : (ℕ → Bool) → List ℕ → Bool
ends_with_offset d
      (List.◌∷◌ m (List.◌∷◌ n (List.◌∷◌ k (List.◌∷◌ h (List.◌∷◌ i (List.◌∷◌ s rest)))))) =
    eqb m b'Z'
    || eqb m b'z'
    || d m && d n && eqb k b':' && d h && d i && is_sign s
    || d m && d n && d k && d h && is_sign i
ends_with_offset d (List.◌∷◌ m (List.◌∷◌ n (List.◌∷◌ k (List.◌∷◌ h (List.◌∷◌ i List.[]))))) =
    eqb m b'Z' || eqb m b'z' || d m && d n && d k && d h && is_sign i
ends_with_offset d (List.◌∷◌ m rest) = eqb m b'Z' || eqb m b'z'
ends_with_offset d List.[] = false

abbrev needs_of : (ℕ → Bool) → Option (List ℕ) → Bool
needs_of d none = false
needs_of d (some cs) = not (ends_with_offset d (reverse cs))

-- a time of day without an offset
unfoldable pub needs_zone : Python → String.String → Bool
unfolding codes ends_with_offset
needs_zone py s = needs_of py.is_decimal (after_t (codes s))
