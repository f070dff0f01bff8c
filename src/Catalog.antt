-- ===== src/Catalog.antt =====
-- core/template_registry.py: which entry of the catalogue a node belongs to. The catalogue itself is
-- a JSON file outside the repository and enters as an argument, keyed by id.
use ieum_agent.Base.{
  ℕ, String, Bool, true, false, ◌&&◌, ◌||◌, Option, none, some, List, [], ◌∷◌, ◌==◌, string_eq,
  if◌then◌else◌, length, all, first, select, map, eqb, ltb,
}
use ieum_agent.Base.Dict.{Dict, lookup, insert}
use ieum_agent.Value.{Value, null, text, dict, Entries, get, as_text, is_empty, entries, of_entries}
use ieum_agent.Value.Text.{codes}
use ieum_agent.Value.Equal.{equal}
use ieum_agent.Paths.{get_by_path}

-- One field of a node in the catalogue, with the fields inside the elements of a list. A text that
-- is absent is empty.
pub record Info : Type 0 where
  pub key : String
  pub title : String
  pub path : String
  pub ftype : String
  pub required : Bool
  pub has_default : Bool
  pub is_list : Bool
  pub no_ref : Bool
  pub choices : List Value
  pub options_source : String
  pub options_inputs : List String
  pub fields_source : String
  pub fields_inputs : List String

mutual
  pub data Field : Type 0 where
    field : Info → Fields → Field

  pub data Fields : Type 0 where
    none_left : Fields
    child : Field → Fields → Fields

abbrev pub info : Field → Info
info (field i children) = i

-- An entry of the catalogue.
pub record Entry : Type 0 where
  pub id : String
  pub event : String
  pub title : String
  pub node_type : String
  pub app : String
  pub kind : String
  pub provider : Option String
  pub trigger_type : Option String
  pub tool_key : String
  pub is_builder : Bool
  pub is_preset : Bool
  pub rules : Dict Value
  pub fixed_config : Entries
  pub input_fields : List Field
  pub output_keys : List String
  pub outputs_from : String
  pub output_dynamic : Bool

abbrev pub Catalog : Type 0
Catalog = Dict Entry

abbrev rule_holds : Value → Value → Bool
rule_holds null actual = is_empty actual
rule_holds expected actual = equal actual expected

-- `_matches`
unfoldable pub matches : Dict Value → Entries → Bool
unfolding is_empty get_by_path equal
matches rules node =
    all (λ (path, expected). rule_holds expected (get_by_path (dict node) path)) rules

pub codes_before : List ℕ → List ℕ → Bool
codes_before xs [] = false
codes_before [] (y ∷ ys) = true
codes_before (x ∷ xs) (y ∷ ys) = ltb x y || eqb x y && codes_before xs ys

-- `(-len(t["match"]), t["id"])` in order
abbrev more_specific : Entry → Entry → Bool
more_specific p q =
    ltb (length q.rules) (length p.rules)
    || eqb (length q.rules) (length p.rules) && codes_before (codes p.id) (codes q.id)

insert_entry : Entry → List Entry → List Entry
insert_entry p [] = p ∷ []
insert_entry p (q ∷ rest) = if more_specific q p then q ∷ insert_entry p rest else p ∷ q ∷ rest

-- `_by_specificity`; ids differ, so the order is total
unfoldable pub by_specificity : List Entry → List Entry
unfolding insert_entry codes_before codes
by_specificity [] = []
by_specificity (p ∷ rest) = insert_entry p (by_specificity rest)

abbrev has_rules : Dict Value → Bool
has_rules [] = false
has_rules (_ ∷ _) = true

-- `_preset_matchers`
unfoldable pub preset_matchers : Catalog → List Entry
unfolding by_specificity
preset_matchers catalog =
    by_specificity (select (λ t. t.is_preset && has_rules t.rules) (map (λ (_, t). t) catalog))

abbrev unless_preset : Option Entry → Option Entry
unless_preset none = none
unless_preset (some entry) = if entry.is_preset then none else some entry

abbrev entry_of : Catalog → Option String → Option Entry
entry_of catalog none = none
entry_of catalog (some event) = unless_preset (lookup event catalog)

unfoldable pub event_entry : Catalog → Entries → Option Entry
unfolding get
event_entry catalog node = entry_of catalog (as_text (get "event" node))

abbrev trigger_type : Option Entry → Option String
trigger_type none = none
trigger_type (some entry) = entry.trigger_type

unfoldable pub trigger_type_of : Catalog → Entries → Option String
unfolding event_entry
trigger_type_of catalog node = trigger_type (event_entry catalog node)

abbrev or_else : Entry → Option Entry → Option Entry
or_else entry none = some entry
or_else entry (some preset) = some preset

abbrev as_ai : Entries → Entries
as_ai node = of_entries (insert "type" (text "AI") (entries node))

abbrev match_preset : Catalog → Entries → Option Entry → Option Entry
match_preset catalog node none = none
match_preset catalog node (some entry) =
    if entry.node_type == "AI"
    then or_else entry (first (λ p. matches p.rules (as_ai node)) (preset_matchers catalog))
    else some entry

unfoldable pub match_entry : Catalog → Entries → Option Entry
unfolding event_entry matches preset_matchers
match_entry catalog node = match_preset catalog node (event_entry catalog node)
