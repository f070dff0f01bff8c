-- ===== src/Builder/Edit/Fill/Tests.antt =====
-- rename_node and set_fields at concrete inputs: a condition that loses a branch.
use ieum_agent.Base.{◌≡◌, refl, String, true, false, none, some, List, [], ◌∷◌, string_eq}
use ieum_agent.Base.Dict.{lookup, insert}
use ieum_agent.Value.{Value, text, list, dict, nil, cons, Entries, end, entry, get, is_empty}
use ieum_agent.Value.Text.{codes, split, strip, is_digits, take_text}
use ieum_agent.Paths.{
  get_by_path, set_by_path, set_segments, put_last, put, child, segment, parse, get_segments,
}
use ieum_agent.Catalog.{Catalog, Field, field, none_left, match_entry, event_entry}
use ieum_agent.Validator.Branches.{condition_branches, branch_keys}
use ieum_agent.Validator.Problem.{sid}
use ieum_agent.Validator.Samples.{entry_with}
use ieum_agent.Builder.State.{Codec}
use ieum_agent.Builder.Clean.{clean}
use ieum_agent.Builder.Turn.{find_node}
use ieum_agent.Builder.Write.{Heard, write, write_all, apply_fields, writable_fields, names_path}
use ieum_agent.Builder.Write.Destinations.{Urls, is_url_field, is_email_field}
use ieum_agent.Builder.Write.Keys.{
  all_objects, existing_keys, keys_by_name, kept_keys, assign, with_keys, keyed_branches,
}
use ieum_agent.Builder.Edit.{new_edge}
use ieum_agent.Builder.Edit.Fill.{
  put_node, prune_branch_edges, filled, no_label, renamed, rename_node, set_fields,
}
use ieum_agent.Builder.Edit.Fill.Edges.{Refilled, set_fields_iff}
use ieum_agent.Builder.Edit.Fill.Kept.{SameHashes, rename_node-SameHashes}

abbrev codec : Codec
codec = record { str = λ v. ""; dumps = λ es. ""; dumps_workflow = λ ns es. ""; sha256 = λ s. s }

abbrev urls : Urls
urls url = some "a.io"

abbrev draw : List String → String
draw taken = "new"

abbrev heard : Heard
heard = record { user_text = ""; user_hosts = []; options_seen = [] }

abbrev branches_field : Field
branches_field =
    field
      (record {
        key = "branches";
        title = "Branches";
        path = "config.branches";
        ftype = "array";
        required = false;
        has_default = false;
        is_list = true;
        no_ref = true;
        choices = [];
        options_source = "";
        options_inputs = [];
        fields_source = "";
        fields_inputs = [];
      })
      none_left

abbrev catalog : Catalog
catalog = ("branch.if", entry_with "branch.if" "CONDITION" none (branches_field ∷ [])) ∷ []

abbrev branch : String → String → Value
branch name key = dict (entry "name" (text name) (entry "key" (text key) end))

abbrev condition : Value → Entries
condition branches =
    entry "id" (text "c")
      (entry "event" (text "branch.if") (entry "config" (dict (entry "branches" branches end)) end))

abbrev before : Entries
before = condition (list (cons (branch "A" "k1") (cons (branch "B" "k2") nil)))

abbrev after : Entries
after = condition (list (cons (branch "A" "k1") nil))

abbrev edges : List Entries
edges = new_edge "c" "a" "k1" ∷ new_edge "c" "b" "k2" ∷ new_edge "a" "b" "" ∷ []

abbrev edges_left : List Entries
edges_left = new_edge "c" "a" "k1" ∷ new_edge "a" "b" "" ∷ []

abbrev sent : Value
sent = dict (entry "config.branches" (list (cons (dict (entry "name" (text "A") end)) nil)) end)

dropped :
    set_fields catalog codec urls draw heard (before ∷ []) edges "c" sent
    ≡ filled (after ∷ []) edges_left ("config.branches" ∷ []) []
unfolding set_fields find_node apply_fields write_all write writable_fields match_entry event_entry
    names_path keyed_branches all_objects existing_keys keys_by_name kept_keys assign with_keys
    put_node prune_branch_edges condition_branches branch_keys sid get_by_path set_by_path
    set_segments get_segments put_last put child parse segment is_empty is_url_field is_email_field
    is_digits codes split strip get insert lookup string_eq
dropped = refl

set_fields_iff_example :
    Refilled (before ∷ []) edges "c" (new_edge "c" "b" "k2") (after ∷ []) edges_left
set_fields_iff_example =
    set_fields_iff catalog codec urls draw heard (before ∷ []) edges "c" sent
      (new_edge "c" "b" "k2") (after ∷ []) edges_left ("config.branches" ∷ []) [] dropped

blank : rename_node codec (before ∷ []) "c" (text " ") ≡ no_label
unfolding rename_node find_node clean strip codes take_text get string_eq
blank = refl

abbrev step : Entries
step = entry "id" (text "s") (entry "label" (text "Old") (entry "event" (text "http.request") end))

abbrev step_after : Entries
step_after =
    entry "id" (text "s") (entry "label" (text "New") (entry "event" (text "http.request") end))

named :
    rename_node codec (before ∷ step ∷ []) "s" (text " New ")
    ≡ renamed (before ∷ step_after ∷ []) "New"
unfolding rename_node find_node clean strip codes take_text put_node get insert string_eq
named = refl

rename_node-SameHashes_example :
    SameHashes codec (before ∷ step ∷ []) (before ∷ step_after ∷ []) (new_edge "c" "s" "k1" ∷ [])
rename_node-SameHashes_example =
    rename_node-SameHashes codec (before ∷ step ∷ []) (new_edge "c" "s" "k1" ∷ []) "s"
      (text " New ") (before ∷ step_after ∷ []) "New" named
