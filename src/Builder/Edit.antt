-- ===== src/Builder/Edit.antt =====
-- connect and remove_node of core/builder/tools.py. A refusal keeps the reason, not its wording.
pub mod Fill
pub mod Linked
mod Tests
use ieum_agent.Base.{
  String, Bool, true, false, not, ◌&&◌, ◌||◌, Option, none, some, List, [], ◌∷◌, ◌++◌, ◌==◌,
  string_eq, contains, any, select, if◌then◌else◌,
}
use ieum_agent.Value.{Value, text, is_true, Entries, entry, end, get}
use ieum_agent.Catalog.{Catalog, Entry, event_entry}
use ieum_agent.Validator.Branches.{is_text, condition_branches}
use ieum_agent.Validator.Graph.{is_trigger}
use ieum_agent.Builder.State.{key_of}
use ieum_agent.Builder.Turn.{find_node}

-- `_branch_error`: whether it has a reason
unfoldable pub branch_error : Entries → String → Bool
branch_error source branch =
    if is_text "branch.if" (get "event" source)
    then not (contains (condition_branches source) branch)
    else not (branch == "")

abbrev text_is_trigger : Value → Bool
text_is_trigger (text t) = is_trigger t
text_is_trigger v = false

abbrev kind_is_trigger : Entries → Option Entry → Bool
kind_is_trigger node (some e) = e.node_type == "TRIGGER"
kind_is_trigger node none = text_is_trigger (get "type" node)

-- `_is_trigger`
unfoldable pub node_is_trigger : Catalog → Entries → Bool
node_is_trigger catalog node = kind_is_trigger node (event_entry catalog node)

-- `_edge`
abbrev pub new_edge : String → String → String → Entries
new_edge source target branch = entry "source" (text source) (
    entry "target" (text target)
      (if branch == "" then end else entry "conditionType" (text branch) end))

abbrev or_empty : Value → Value
or_empty v = if is_true v then v else text ""

unfoldable pub is_connected : String → String → String → List Entries → Bool
is_connected source target branch edges =
    any
      (λ e.
        is_text source (get "source" e)
        && (is_text target (get "target" e) && is_text branch (or_empty (get "conditionType" e))))
      edges

pub data Reason : Type 0 where
  unknown_node self_edge into_trigger wrong_branch last_node : Reason

-- The nodes and the edges of a turn, if the tool does not refuse.
pub data Edited : Type 0 where
  refused : Reason → Edited
  edited : List Entries → List Entries → Edited

abbrev pub connect_found :
    Catalog
    → List Entries
    → List Entries
    → String
    → String
    → String
    → Option Entries
    → Option Entries
    → Edited
connect_found catalog nodes edges source target branch (some src) (some dst) =
    if source == target
    then refused self_edge
    else if node_is_trigger catalog dst
    then refused into_trigger
    else if branch_error src branch
    then refused wrong_branch
    else if is_connected source target branch edges
    then edited nodes edges
    else edited nodes (edges ++ (new_edge source target branch ∷ []))
connect_found catalog nodes edges source target branch _ _ = refused unknown_node

unfoldable pub connect : Catalog → List Entries → List Entries → String → String → String → Edited
unfolding find_node
connect catalog nodes edges source target branch =
    connect_found catalog nodes edges source target branch (find_node source nodes)
      (find_node target nodes)

abbrev pub without : String → List Entries → List Entries
without id nodes = select (λ n. not (key_of n == id)) nodes

abbrev pub touches : String → Entries → Bool
touches id e = is_text id (get "source" e) || is_text id (get "target" e)

abbrev pub remove_found : String → List Entries → List Entries → Option Entries → Edited
remove_found id nodes edges none = refused unknown_node
remove_found id (n ∷ []) edges (some found) = refused last_node
remove_found id nodes edges (some found) =
    edited (without id nodes) (select (λ e. not (touches id e)) edges)

unfoldable pub remove_node : String → List Entries → List Entries → Edited
unfolding find_node
remove_node id nodes edges = remove_found id nodes edges (find_node id nodes)
