-- ===== src/Validator/Fields.antt =====
-- The fields of a node in core/validators/static_validator.py: `_check`, `_type_ok`, `_unused_field`
-- and `field_errors`. `int`, `float` and `json.loads` of a text are Python's: a parser says which
-- texts they read.
use ieum_agent.Base.{
  ℕ, ◌+◌, String, Bool, true, false, not, ◌&&◌, ◌||◌, Option, none, some, List, [], ◌∷◌, ◌++◌, ◌==◌,
  string_eq, contains, if◌then◌else◌, any, take, map,
}
use ieum_agent.Base.Dict.{insert}
use ieum_agent.Value.{
  Value, bool, int, float, text, list, dict, Entries, get, is_empty, is_true, values, of_values,
  entries, of_entries,
}
use ieum_agent.Value.Text.{◌<>◌, show, starts_with, has_ref, is_blank}
use ieum_agent.Value.Equal.{equal}
use ieum_agent.Paths.{get_by_path}
use ieum_agent.Catalog.{
  Catalog, Entry, Field, field, Fields, none_left, child, Info, info, match_entry,
}
use ieum_agent.Validator.Problem.{
  Error, error_at, sid, required, type, choice, ref_not_allowed, missing, wrong_form, no_choice,
  no_reference,
}
use ieum_agent.Validator.Branches.{is_branched, clip_value}
use ieum_agent.Validator.Conditions.{condition_errors, max_branches, max_rules, right_unused}

pub record Parser : Type 0 where
  pub reads_int : String → Bool
  pub reads_float : String → Bool
  pub reads_json : String → Bool

abbrev has_any : List Value → Bool
has_any [] = false
has_any (_ ∷ _) = true

abbrev is_container : Value → Bool
is_container (list vs) = true
is_container (dict es) = true
is_container v = false

abbrev is_int : Parser → Value → Bool
is_int p (int n) = true
is_int p (text s) = p.reads_int s
is_int p v = false

abbrev is_number : Parser → Value → Bool
is_number p (int n) = true
is_number p (float x) = true
is_number p (text s) = p.reads_float s
is_number p v = false

abbrev is_bool : Value → Bool
is_bool (bool b) = true
is_bool v = false

abbrev is_dict : Value → Bool
is_dict (dict es) = true
is_dict v = false

abbrev is_json : Parser → Value → Bool
is_json p (text s) = p.reads_json s
is_json p v = is_container v

-- `_type_ok`
unfoldable pub value_type_ok : Parser → String → Value → Bool
value_type_ok p ftype v =
    if ftype == "integer"
    then is_int p v
    else if ftype == "number"
    then is_number p v
    else if ftype == "boolean"
    then is_bool v
    else if ftype == "dict" || ftype == "object"
    then is_dict v
    else if ftype == "json"
    then is_json p v
    else true

module _ (p : Parser) (nid : Option String) where
  abbrev typed_errors : Info → Value → String → List Error
  typed_errors i v path =
      if not (value_type_ok p i.ftype v)
      then error_at type (wrong_form i.title i.ftype) nid path ∷ []
      else if has_any i.choices && (is_container v || not (any (equal v) i.choices))
      then error_at choice (no_choice i.title (clip_value v)) nid path ∷ []
      else []

  abbrev ref_check : Info → String → List Error
  ref_check i path =
      if i.no_ref then error_at ref_not_allowed (no_reference i.title) nid path ∷ [] else []

  abbrev scalar_errors : Info → Value → String → List Error
  scalar_errors i (text s) path =
      if has_ref s then ref_check i path else typed_errors i (text s) path
  scalar_errors i v path = typed_errors i v path

  -- `inside` checks the children of one element.
  unfoldable pub items_errors :
      (Entries → String → List Error) → String → ℕ → List Value → List Error
  items_errors inside path n [] = []
  items_errors inside path n (dict es ∷ rest) =
      inside es (path <> "." <> show n) ++ items_errors inside path (n + 1) rest
  items_errors inside path n (_ ∷ rest) = items_errors inside path (n + 1) rest

  abbrev list_errors : Info → (Entries → String → List Error) → Value → String → List Error
  list_errors i inside (list vs) path = items_errors inside path 0 (values vs)
  list_errors i inside v path = error_at type (wrong_form i.title "list") nid path ∷ []

  abbrev value_errors : Info → (Entries → String → List Error) → Value → String → List Error
  value_errors i inside v path =
      if is_empty v
      then (if i.required && not i.has_default
          then error_at required (missing i.title) nid path ∷ []
          else [])
      else if i.is_list
      then list_errors i inside v path
      else scalar_errors i v path

  -- `_check`
  unfoldable mutual
    pub check : Field → Value → String → List Error
    check (field i children) v path = value_errors i (check_children children) v path

    pub check_children : Fields → Entries → String → List Error
    check_children none_left es loc = []
    check_children (child f fs) es loc =
        check f (get (info f).key es) (loc <> "." <> (info f).key) ++ check_children fs es loc

abbrev pub is_legacy : String → Bool
is_legacy path = contains ("config.operator" ∷ "config.left" ∷ "config.right" ∷ []) path

-- `_CONDITION_ALIASES`
abbrev pub alias : String → Option String
alias path =
    if path == "config.left"
    then some "config.leftValue"
    else if path == "config.right"
    then some "config.rightValue"
    else none

-- `bool(str(v or "").strip())`
abbrev pub is_filled : Value → Bool
is_filled (text s) = not (is_blank s)
is_filled v = is_true v

-- `_unused_field`
unfoldable pub unused_field : Entry → Entries → String → Bool
unused_field entry node path =
    let is_condition = entry.node_type == "CONDITION" in
    if is_condition && is_legacy path && is_branched node
    then true
    else if path == "config.right" && is_condition
    then right_unused (get_by_path (dict node) "config.operator")
    else if path == "config.url" && entry.node_type == "HTTP"
    then is_filled (get_by_path (dict node) "config.webhookCredentialId")
    else false

abbrev limit_rules : Value → Entries → Value
limit_rules (list vs) br =
    dict (of_entries (insert "rules" (list (of_values (take max_rules (values vs)))) (entries br)))
limit_rules v br = dict br

abbrev limit_branch : Value → Value
limit_branch (dict br) = limit_rules (get "rules" br) br
limit_branch v = v

abbrev limit_branches : Value → Value
limit_branches (list vs) = list (of_values (map limit_branch (take max_branches (values vs))))
limit_branches v = v

-- The two `continue`s for an AI node's empty value, and that for its output fields.
abbrev skips : Entry → String → Value → Bool
skips entry path v =
    entry.node_type == "AI"
    && (path == "config.outputFields"
        || is_empty v
          && (not (entry.tool_key == "") && starts_with path "config.tools.0.config."
              || path == "config.model"))

abbrev read_alias : Entries → Option String → Value → Value
read_alias node none v = v
read_alias node (some other) v = get_by_path (dict node) other

abbrev condition_value : Entries → String → Value → Value
condition_value node path v = if is_empty v then read_alias node (alias path) v else v

abbrev require : Field → Field
require (field i children) = field (record i { required = true }) children

abbrev one_field : Parser → Option String → Entry → Entries → Field → List Error
one_field p nid entry node f =
    let path = (info f).path in
    let v = get_by_path (dict node) path in
    let is_condition = entry.node_type == "CONDITION" in
    let w = if is_condition then condition_value node path v else v in
    if skips entry path v
    then []
    else if unused_field entry node path
    then []
    else check p nid (if is_condition && is_legacy path then require f else f)
        (if is_condition && path == "config.branches" then limit_branches w else w) path

unfoldable pub input_errors : Parser → Option String → Entry → Entries → List Field → List Error
input_errors p nid entry node [] = []
input_errors p nid entry node (f ∷ fs) =
    one_field p nid entry node f ++ input_errors p nid entry node fs

abbrev entry_errors : Parser → Entries → Option Entry → List Error
entry_errors p node none = []
entry_errors p node (some entry) =
    input_errors p (sid (get "id" node)) entry node entry.input_fields
    ++ (if entry.node_type == "CONDITION" then condition_errors (sid (get "id" node)) node else [])

unfoldable pub field_errors : Catalog → Parser → Entries → List Error
field_errors catalog p node = entry_errors p node (match_entry catalog node)
