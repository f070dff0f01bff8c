-- ===== src/Builder/Edit/Fill.antt =====
-- rename_node and set_fields of core/builder/tools.py. The answer of set_fields is kept without the list
-- of branches and the removed edges; its errors are those of errors_of_node.
pub mod Edges
pub mod Kept
mod Tests
use ieum_agent.Base.{
  String, Bool, true, false, not, ◌&&◌, ◌||◌, Option, none, some, List, [], ◌∷◌, ◌==◌, string_eq,
  if◌then◌else◌, select,
}
use ieum_agent.Base.Dict.{Dict, insert}
use ieum_agent.Value.{Value, text, dict, Entries, get, entries, of_entries}
use ieum_agent.Catalog.{Catalog}
use ieum_agent.Validator.Branches.{is_text, condition_branches, carries}
use ieum_agent.Builder.State.{Codec, key_of}
use ieum_agent.Builder.Clean.{clean}
use ieum_agent.Builder.Turn.{find_node}
use ieum_agent.Builder.Write.{Heard, apply_fields}
use ieum_agent.Builder.Write.Destinations.{Urls, Reason}

-- A change of the node with an id, in its place.
unfoldable pub put_node : String → Entries → List Entries → List Entries
put_node id after [] = []
put_node id after (n ∷ nodes) =
    let rest = put_node id after nodes in if key_of n == id then after ∷ nodes else n ∷ rest

pub data Renamed : Type 0 where
  no_node no_label : Renamed
  renamed : List Entries → String → Renamed

abbrev pub with_label : Entries → String → Entries
with_label node label = of_entries (insert "label" (text label) (entries node))

abbrev pub rename_found : List Entries → String → String → Option Entries → Renamed
rename_found nodes id label none = no_node
rename_found nodes id label (some node) =
    if label == "" then no_label else renamed (put_node id (with_label node label) nodes) label

-- `rename_node`
unfoldable pub rename_node : Codec → List Entries → String → Value → Renamed
unfolding find_node clean put_node insert
rename_node codec nodes id label = rename_found nodes id (clean codec 60 label) (find_node id nodes)

-- whether an edge leaves the node and carries no value of its branches
abbrev pub is_stale : Entries → Entries → Bool
is_stale node e =
    is_text (key_of node) (get "source" e)
    && not (carries (condition_branches node) (get "conditionType" e))

-- `_prune_branch_edges`: the edges that are left
unfoldable pub prune_branch_edges : Entries → List Entries → List Entries
unfolding get condition_branches
prune_branch_edges node edges = select (λ e. not (is_stale node e)) edges

-- The nodes and the edges afterwards, the paths that were written, and those refused.
pub data Filled : Type 0 where
  missing_node not_a_dict raised : Filled
  filled : List Entries → List Entries → List String → Dict Reason → Filled

abbrev pub fill_edges : Entries → List Entries → List Entries
fill_edges after edges =
    if is_text "branch.if" (get "event" after) then prune_branch_edges after edges else edges

abbrev pub fill_applied :
    List Entries → List Entries → String → Option (Value × List String × Dict Reason) → Filled
fill_applied nodes edges id (some (dict after, applied, rejected)) =
    filled (put_node id after nodes) (fill_edges after edges) applied rejected
fill_applied nodes edges id _ = raised

module _ (catalog : Catalog) (codec : Codec) (urls : Urls) (draw : List String → String)
    (heard : Heard) where
  abbrev pub fill_found : List Entries → List Entries → String → Value → Option Entries → Filled
  fill_found nodes edges id values none = missing_node
  fill_found nodes edges id (dict values) (some node) =
      fill_applied nodes edges id (apply_fields catalog codec urls draw heard node (entries values))
  fill_found nodes edges id values (some node) = not_a_dict

  -- `set_fields`
  unfoldable pub set_fields : List Entries → List Entries → String → Value → Filled
  unfolding find_node apply_fields put_node prune_branch_edges
  set_fields nodes edges id values = fill_found nodes edges id values (find_node id nodes)
