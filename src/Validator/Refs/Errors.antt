-- ===== src/Validator/Refs/Errors.antt =====
-- The errors of the references of one node, and `_declared_outputs`. The cache of the outputs is left
-- out: it holds what `declared_outputs` returns.
use ieum_agent.Base.{
  ◌+◌, String, not, ◌&&◌, ◌||◌, Option, none, some, List, [], ◌∷◌, ◌++◌, ◌==◌, string_eq, contains,
  if◌then◌else◌, any, map, first, select, ltb, length,
}
use ieum_agent.Value.{Value, text, list, dict, cons, Entries, entry, get, values, entries}
use ieum_agent.Value.Text.{◌<>◌, codes, drop_text, has_ref}
use ieum_agent.Paths.{get_by_path}
use ieum_agent.Search.{Edge, targets, extend, reached}
use ieum_agent.Catalog.{Catalog, Entry, info, match_entry}
use ieum_agent.Validator.Problem.{
  Error, error, ref_format, ref_unknown_node, ref_self, ref_not_upstream, ref_unknown_field,
  unclosed, ref_form, ref_missing, ref_own, ref_later, ref_output, clip,
}
use ieum_agent.Validator.Fields.{unused_field, alias}
use ieum_agent.Validator.Graph.{ends, id_of}
use ieum_agent.Validator.Strings.{iter_strings}
use ieum_agent.Validator.Refs.{bodies, parse_ref, last_index, head_part, is_under}

abbrev pub add_back : List String → Option String × Option String → List Edge → List Edge
add_back known (some source, some target) rest =
    if contains known source && contains known target then (target, source) ∷ rest else rest
add_back known _ rest = rest

-- `_predecessors`: from a node to those before it
unfoldable pub predecessors : List String → List Entries → List Edge
unfolding ends
predecessors known [] = []
predecessors known (edge ∷ edges) = add_back known (ends edge) (predecessors known edges)

-- `_ancestors`
unfoldable pub ancestors : List Edge → String → List String
unfolding targets extend reached
ancestors preds nid = reached preds (extend (targets preds nid) [])

abbrev keys_in : List Value → List String
keys_in [] = []
keys_in (dict f ∷ rest) = elim (get "key" f) [ text k ↦ k ∷ keys_in rest | _ ↦ keys_in rest ]
keys_in (_ ∷ rest) = keys_in rest

abbrev outputs_in : List String → Value → List String
outputs_in static (dict (entry k v es)) = map (λ (j, w). j) (entries (entry k v es))
outputs_in static (list (cons v vs)) = keys_in (values (cons v vs))
outputs_in static v = static

abbrev entry_outputs : Entries → Option Entry → Option (List String)
entry_outputs node none = none
entry_outputs node (some e) =
    if e.output_dynamic
    then none
    else if e.outputs_from == ""
    then some e.output_keys
    else some (outputs_in e.output_keys (get_by_path (dict node) e.outputs_from))

-- `_declared_outputs`; `none` where they are not known
unfoldable pub declared_outputs : Catalog → Entries → Option (List String)
unfolding match_entry get_by_path
declared_outputs catalog node = entry_outputs node (match_entry catalog node)

-- `by_id`: the last node with an id counts
unfoldable pub last_node : String → List Entries → Option Entries
last_node nid [] = none
last_node nid (node ∷ nodes) = elim (last_node nid nodes) [
  | some later ↦ some later
  | none ↦ elim (id_of node) [ none ↦ none | some other ↦ if other == nid then some node else none ]
]

-- What a reference is judged by: the nodes, the edges backwards, and the id of the node that it
-- stands in.
module _ (catalog : Catalog) (nodes : List Entries) (preds : List Edge) (nid : String) where
  abbrev pub output_errors : Option String → String → String → Option (List String) → List Error
  output_errors field target path none = []
  output_errors field target path (some declared) =
      if contains declared (head_part path)
      then []
      else error ref_unknown_field (ref_output (clip target) (clip (head_part path))) (some nid)
          field
        ∷ []

  abbrev pub target_errors : Option String → String → String → Option Entries → List Error
  target_errors field target path none =
      error ref_unknown_node (ref_missing (clip target)) (some nid) field ∷ []
  target_errors field target path (some node) =
      if target == nid
      then error ref_self ref_own (some nid) field ∷ []
      else if not (contains (ancestors preds nid) target)
      then error ref_not_upstream (ref_later (clip target)) (some nid) field ∷ []
      else output_errors field target path (declared_outputs catalog node)

  abbrev pub parsed_errors : Option String → String → Option (String × String) → List Error
  parsed_errors field body none = error ref_format (ref_form (clip body)) (some nid) field ∷ []
  parsed_errors field body (some (target, path)) =
      target_errors field target path (last_node target nodes)

  -- one reference
  unfoldable pub body_errors : Option String → String → List Error
  body_errors field body = parsed_errors field body (parse_ref body)

  unfoldable pub bodies_errors : Option String → List String → List Error
  bodies_errors field [] = []
  bodies_errors field (body ∷ rest) = body_errors field body ++ bodies_errors field rest

  abbrev pub field_of : List String → List String → String → Option String
  field_of paths dynamic loc = elim (first (is_under loc) paths) [
    | none ↦ none
    | some p ↦
        if contains dynamic p && not (loc == p)
        then some (p <> "." <> head_part (drop_text (length (codes p) + 1) loc))
        else some p
  ]

  -- one text of the config
  unfoldable pub text_errors :
      List String → List String → List String → String × String → List Error
  text_errors paths dynamic unused (loc, s) =
      if not (has_ref s) || any (is_under loc) unused
      then []
      else (if ltb (last_index s "}}") (last_index s "{{")
          then error ref_format unclosed (some nid) (field_of paths dynamic loc) ∷ []
          else [])
        ++ bodies_errors (field_of paths dynamic loc) (bodies s)

  unfoldable pub texts_errors :
      List String → List String → List String → List (String × String) → List Error
  texts_errors paths dynamic unused [] = []
  texts_errors paths dynamic unused (t ∷ rest) =
      text_errors paths dynamic unused t ++ texts_errors paths dynamic unused rest

abbrev pub paths_of : Option Entry → List String
paths_of none = []
paths_of (some e) = map (λ f. (info f).path) e.input_fields

abbrev pub dynamic_of : Option Entry → List String
dynamic_of none = []
dynamic_of (some e) =
    if e.node_type == "ACTION"
    then map (λ f. (info f).path) (select (λ f. not ((info f).fields_source == "")) e.input_fields)
    else []

abbrev pub with_aliases : List String → List String
with_aliases [] = []
with_aliases (p ∷ ps) = elim (alias p) [
  | none ↦ p ∷ with_aliases ps
  | some other ↦ p ∷ other ∷ with_aliases ps
]

abbrev pub unused_of : Entries → Option Entry → List String
unused_of node none = []
unused_of node (some e) =
    with_aliases (select (unused_field e node) (map (λ f. (info f).path) e.input_fields))

abbrev pub config_errors :
    Catalog → List Entries → List Edge → Entries → Option String → Value → List Error
config_errors catalog nodes preds node (some nid) (dict config) =
    let found = match_entry catalog node in
    texts_errors catalog nodes preds nid (paths_of found) (dynamic_of found) (unused_of node found)
      (iter_strings (dict config) "config")
config_errors catalog nodes preds node nid v = []

-- `_ref_errors`
unfoldable pub ref_errors : Catalog → List Entries → List Edge → Entries → List Error
ref_errors catalog nodes preds node =
    config_errors catalog nodes preds node (id_of node) (get "config" node)
