-- ===== src/OutputFields.antt =====
-- core/output_fields.py: the output fields an AI node declares, and the answers checked against them.
pub mod Shape
pub mod Answer
mod Tests
use Prim.Native.String.{count}
use ieum_agent.Base.{
  ℕ, zero, suc, ◌+◌, ◌-◌, ◌^◌, String, Bool, true, false, not, ◌&&◌, ◌||◌, Option, none, some, List,
  [], ◌∷◌, ◌==◌, string_eq, if◌then◌else◌, map, contains, any, all, leb, ltb, length, eqb,
}
use ieum_agent.Base.Result.{Result, ok, err, ◌>>=◌, ◌>>◌, raise_if}
use ieum_agent.Base.Dict.{Dict, insert}
use ieum_agent.Base.Int.{ℤ, pos, negsuc, leb_ℤ}
use ieum_agent.Value.{
  Value, Float, nan, infinite, dyadic, null, bool, int, float, text, list, dict, Entries, end,
  entry, get, entries, values, float_to_int, nil, cons,
}
use ieum_agent.Value.Text.{codes, lower_code, has_codes, is_digit}

-- Why `InvalidOutputFieldsError` is raised; the number is the place of the field, from 1.
pub data Invalid : Type 0 where
  not_a_list has_tools is_react : Invalid
  too_many not_an_object unknown_attribute bad_key : ℕ → Invalid
  duplicate_key reserved_key sensitive_key bad_type bad_description : String → Invalid

abbrev pub Checked : Type 0 → Type 0
Checked = Result Invalid

pub data FieldType : Type 0 where
  text_type number_type boolean_type : FieldType

pub record OutputField : Type 0 where
  pub key : String
  pub ftype : FieldType
  pub description : Option String

abbrev pub max_fields : ℕ
max_fields = 20

abbrev pub max_description : ℕ
max_description = 500

abbrev key_start : ℕ → Bool
key_start c = leb b'A' c && leb c b'Z' || leb b'a' c && leb c b'z' || eqb c b'_'

abbrev key_part : ℕ → Bool
key_part c = key_start c || is_digit c

-- `_KEY_RE.fullmatch`: [A-Za-z_][A-Za-z0-9_]{0,63}
key_codes : List ℕ → Bool
key_codes [] = false
key_codes (c ∷ cs) = key_start c && all key_part cs && leb (length cs) 63

unfoldable pub is_key : String → Bool
unfolding key_codes codes
is_key s = key_codes (codes s)

abbrev pub reserved_keys : List String
reserved_keys = "success" ∷ "error" ∷ []

abbrev pub sensitive_parts : List String
sensitive_parts = "apikey" ∷ "api_key" ∷ "token" ∷ "secret" ∷ "password" ∷ "authorization" ∷ []

-- `any(part in key.lower() for part in _SENSITIVE_PARTS)`
unfoldable pub is_sensitive : String → Bool
unfolding codes has_codes
is_sensitive key = any (λ part. has_codes (map lower_code (codes key)) (codes part)) sensitive_parts

abbrev attrs : List String
attrs = "key" ∷ "type" ∷ "description" ∷ []

-- `_SCHEMA_TYPES` as a test on the text of a type
unfoldable pub field_type : String → Option FieldType
field_type s =
    if s == "text"
    then some text_type
    else if s == "number"
    then some number_type
    else if s == "boolean"
    then some boolean_type
    else none

-- `f.get("key")` as a text of the right form
unfoldable pub read_key : ℕ → Value → Checked String
read_key i (text s) = if is_key s then ok s else err (bad_key i)
read_key i _ = err (bad_key i)

unfoldable pub read_type : String → Value → Checked FieldType
read_type key (text s) = elim (field_type s) [ none ↦ err (bad_type key) | some t ↦ ok t ]
read_type key _ = err (bad_type key)

-- An empty description is dropped.
unfoldable pub read_description : String → Value → Checked (Option String)
read_description key null = ok none
read_description key (text s) =
    if leb (count s) max_description
    then ok (if s == "" then none else some s)
    else err (bad_description key)
read_description key _ = err (bad_description key)

-- The tests on a key of the right form.
unfoldable pub vet_key : List String → String → Checked (Unit {0})
vet_key seen key = do
  raise_if (contains seen key) (duplicate_key key)
  raise_if (contains reserved_keys key) (reserved_key key)
  raise_if (is_sensitive key) (sensitive_key key)

-- The body of the loop, up to the appends.
unfoldable pub read_field : ℕ → List String → Value → Checked OutputField
unfolding read_key read_type read_description vet_key
read_field i seen (dict f) = do
  raise_if (any (λ (k, _). not (contains attrs k)) (entries f)) (unknown_attribute i)
  key ← read_key i (get "key" f)
  vet_key seen key
  ftype ← read_type key (get "type" f)
  description ← read_description key (get "description" f)
  ok (record { key = key; ftype = ftype; description = description })
read_field i seen _ = err (not_an_object i)

unfoldable pub read_fields : ℕ → List String → List Value → Checked (List OutputField)
unfolding read_field
read_fields i seen [] = ok []
read_fields i seen (v ∷ vs) = do
  f ← read_field i seen v
  fs ← read_fields (i + 1) (f.key ∷ seen) vs
  ok (f ∷ fs)

abbrev is_react_type : Option String → Bool
is_react_type none = false
is_react_type (some s) = s == "react"

-- The default field (None or []) is `none`. `tools` is the truth of the argument.
unfoldable pub validate_output_fields :
    Value → (tools : Bool) → (agent_type : Option String) → Checked (Option (List OutputField))
unfolding read_fields
validate_output_fields null tools agent_type = ok none
validate_output_fields (list nil) tools agent_type = ok none
validate_output_fields (list (cons v vs)) tools agent_type = do
  raise_if (ltb max_fields (length (v ∷ values vs))) (too_many (length (v ∷ values vs)))
  raise_if tools has_tools
  raise_if (is_react_type agent_type) is_react
  fields ← read_fields 1 [] (v ∷ values vs)
  ok (some fields)
validate_output_fields _ tools agent_type = err not_a_list
