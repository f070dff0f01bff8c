-- ===== src/Validator/Graph.antt =====
-- `_graph_errors` of core/validators/static_validator.py: the trigger, the nodes, the edges, and what
-- the trigger reaches. `nodes` and `edges` are dicts here, as validate_workflow passes them.
pub mod Complete
pub mod Edges
pub mod Nodes
pub mod Sound
use ieum_agent.Base.{
  ℕ, ◌+◌, String, Bool, true, false, not, ◌&&◌, Option, none, some, List, [], ◌∷◌, ◌++◌, ◌==◌,
  string_eq, contains, if◌then◌else◌, length, eqb, any, leb, ◌-◌, map,
}
use ieum_agent.Value.{Value, Entries, get, as_text}
use ieum_agent.Value.Text.{codes}
use ieum_agent.Search.{Edge, reached}
use ieum_agent.Catalog.{Catalog}
use ieum_agent.Validator.Problem.{
  Listing, Error, error, trigger_count, edge_invalid, orphan_node, no_nodes, not_one_trigger, no_id,
  no_type, repeated_id, no_ends, unknown_node, into_trigger, unreached, clip, sid,
}
use ieum_agent.Validator.Cron.{cron_errors}
use ieum_agent.Validator.Branches.{branch_allowed, listing, branch_edge_errors}

-- `c.upper()`, where it is one of the letters A-Z: the dotless i and the long s have such a capital
abbrev upper_code : ℕ → ℕ
upper_code c =
    if leb b'a' c && leb c b'z'
    then c - 32
    else if eqb c 305
    then b'I'
    else if eqb c 383
    then b'S'
    else c

-- `ntype.upper() == "TRIGGER"`
unfoldable pub is_trigger : String → Bool
is_trigger t = go (map upper_code (codes t)) (codes "TRIGGER")
  where
    go : List ℕ → List ℕ → Bool
    go [] [] = true
    go (x ∷ xs) (y ∷ ys) = eqb x y && go xs ys
    go _ _ = false

abbrev pub id_of : Entries → Option String
id_of node = sid (get "id" node)

abbrev pub add_id : Option String → List String → List String
add_id none seen = seen
add_id (some nid) seen = nid ∷ seen

-- `seen` after the loop over the nodes
unfoldable pub ids : List Entries → List String
ids [] = []
ids (node ∷ nodes) = add_id (id_of node) (ids nodes)

abbrev pub type_of : Entries → Option String
type_of node = sid (get "type" node)

abbrev triggers_from : Option String → Option String → List String → List String
triggers_from (some nid) (some t) rest = if is_trigger t then nid ∷ rest else rest
triggers_from _ _ rest = rest

-- The ids of `triggers`.
unfoldable pub triggers : List Entries → List String
triggers [] = []
triggers (node ∷ nodes) = triggers_from (id_of node) (type_of node) (triggers nodes)

abbrev pub type_errors : Catalog → String → Entries → Option String → List Error
type_errors catalog nid node none = error edge_invalid (no_type (clip nid)) (some nid) none ∷ []
type_errors catalog nid node (some t) = if is_trigger t then cron_errors catalog nid node else []

-- One round of the loop over the nodes; `idx` counts from 0.
unfoldable pub node_problems : Catalog → ℕ → List String → Entries → Option String → List Error
node_problems catalog idx seen node none = error edge_invalid (no_id (idx + 1)) none none ∷ []
node_problems catalog idx seen node (some nid) =
    (if contains seen nid
      then error edge_invalid (repeated_id (clip nid)) (some nid) none ∷ []
      else [])
    ++ type_errors catalog nid node (type_of node)

unfoldable pub node_errors : Catalog → ℕ → List String → List Entries → List Error
node_errors catalog idx seen [] = []
node_errors catalog idx seen (node ∷ nodes) =
    node_problems catalog idx seen node (id_of node)
    ++ node_errors catalog (idx + 1) (add_id (id_of node) seen) nodes

-- `triggers[0].get("id") if len(triggers) == 1 else None`
abbrev pub only : List String → Option String
only (tid ∷ []) = some tid
only _ = none

abbrev pub count_errors : List String → List Error
count_errors (tid ∷ []) = []
count_errors found = error trigger_count (not_one_trigger (length found)) none none ∷ []

-- `first[nid]`
unfoldable pub first_node : String → List Entries → Option Entries
first_node nid [] = none
first_node nid (node ∷ nodes) = elim (id_of node) [
  | none ↦ first_node nid nodes
  | some other ↦ if nid == other then some node else first_node nid nodes
]

abbrev pub is_only : String → Option String → Bool
is_only target none = false
is_only target (some tid) = target == tid

-- The ends of an edge.
unfoldable pub ends : Entries → Option String × Option String
ends edge = (sid (get "source" edge), sid (get "target" edge))

unfoldable pub end_errors :
    List String → Option String → ℕ → Option String × Option String → List Error
end_errors seen tid idx (some source, some target) =
    if not (contains seen source && contains seen target)
    then error edge_invalid
        (unknown_node (clip source) (clip target)
          (clip (if contains seen source then target else source)))
        none none
      ∷ []
    else if is_only target tid
    then error edge_invalid into_trigger (some target) none ∷ []
    else []
end_errors seen tid idx _ = error edge_invalid (no_ends (idx + 1)) none none ∷ []

abbrev pub allowed_of : Catalog → Option Entries → Option (List String × Bool)
allowed_of catalog none = none
allowed_of catalog (some node) = branch_allowed catalog node

abbrev pub listing_of : Option Entries → Listing
listing_of none = ([], 0)
listing_of (some node) = listing node

abbrev pub branch_problems :
    String → String → Value → Listing → Option (List String × Bool) → List Error
branch_problems source target ct listed none = []
branch_problems source target ct listed (some (allowed, stop)) =
    branch_edge_errors source target ct listed allowed stop

unfoldable pub branch_errors :
    Catalog → List Entries → List String → Value → Option String × Option String → List Error
branch_errors catalog nodes seen ct (some source, some target) =
    if contains seen source && contains seen target
    then branch_problems source target ct (listing_of (first_node source nodes))
        (allowed_of catalog (first_node source nodes))
    else []
branch_errors catalog nodes seen ct _ = []

unfoldable pub edge_errors :
    Catalog → List Entries → List String → Option String → ℕ → List Entries → List Error
edge_errors catalog nodes seen tid idx [] = []
edge_errors catalog nodes seen tid idx (edge ∷ edges) =
    end_errors seen tid idx (ends edge)
    ++ branch_errors catalog nodes seen (get "conditionType" edge) (ends edge)
    ++ edge_errors catalog nodes seen tid (idx + 1) edges

abbrev pub add_edge : List String → Option String × Option String → List Edge → List Edge
add_edge seen (some source, some target) rest =
    if contains seen source && contains seen target then (source, target) ∷ rest else rest
add_edge seen _ rest = rest

-- `adj`: the edges between nodes
unfoldable pub inner : List String → List Entries → List Edge
inner seen [] = []
inner seen (edge ∷ edges) = add_edge seen (ends edge) (inner seen edges)

unfoldable pub orphan_errors : List String → List String → List Error
orphan_errors found [] = []
orphan_errors found (nid ∷ nids) =
    if contains found nid
    then orphan_errors found nids
    else error orphan_node unreached (some nid) none ∷ orphan_errors found nids

abbrev pub reach_errors : List String → List Entries → Option String → List Error
reach_errors seen edges none = []
reach_errors seen edges (some tid) = orphan_errors (reached (inner seen edges) (tid ∷ [])) seen

-- `_graph_errors`
unfoldable pub graph_errors : Catalog → List Entries → List Entries → List Error
graph_errors catalog [] edges = error trigger_count no_nodes none none ∷ []
graph_errors catalog (node ∷ rest) edges =
    let nodes = node ∷ rest in
    let tid = only (triggers nodes) in
    node_errors catalog 0 [] nodes
    ++ count_errors (triggers nodes)
    ++ edge_errors catalog nodes (ids nodes) tid 0 edges
    ++ reach_errors (ids nodes) edges tid
