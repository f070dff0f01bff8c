-- ===== src/Validator/Branches.antt =====
-- The branches of a condition node in core/validators/static_validator.py, and the edges that leave
-- it: each carries the value of a branch.
use ieum_agent.Base.{
  ℕ, ◌-◌, length, map, take, String, Bool, false, not, ◌&&◌, Option, none, some, List, [], ◌∷◌,
  ◌++◌, ◌==◌, string_eq, contains, if◌then◌else◌,
}
use ieum_agent.Value.{Value, text, list, dict, Entries, get, is_empty, is_true, values}
use ieum_agent.Paths.{get_by_path}
use ieum_agent.Catalog.{Catalog, Entry, match_entry}
use ieum_agent.Validator.Problem.{
  Listing, Error, error, edge_invalid, stopped_branch, wrong_branch, clip, sid,
}

abbrev pub is_text : String → Value → Bool
is_text s (text t) = t == s
is_text s _ = false

-- the keys of the branches that have one
unfoldable pub branch_keys : List Value → List String
unfolding sid get
branch_keys [] = []
branch_keys (dict br ∷ rest) = elim (sid (get "key" br)) [
  | none ↦ branch_keys rest
  | some k ↦ k ∷ branch_keys rest
]
branch_keys (_ ∷ rest) = branch_keys rest

abbrev keys_of_list : Value → List String
keys_of_list (list vs) = branch_keys (values vs)
keys_of_list _ = []

abbrev stops : Entries → Bool
stops node = is_text "stop" (get_by_path (dict node) "config.otherwise")

-- `_is_branched`
abbrev pub is_branched : Entries → Bool
is_branched node = not (is_empty (get_by_path (dict node) "config.branches"))

-- `condition_branches`, the values only
unfoldable pub condition_branches : Entries → List String
unfolding get_by_path is_empty branch_keys
condition_branches node =
    if is_branched node
    then keys_of_list (get_by_path (dict node) "config.branches")
      ++ (if stops node then [] else "else" ∷ [])
    else "true" ∷ "false" ∷ []

abbrev for_condition : Entries → Option Entry → Option (List String × Bool)
for_condition node none = none
for_condition node (some entry) =
    if entry.node_type == "CONDITION"
    then some (condition_branches node, is_branched node && stops node)
    else none

-- `_branch_allowed`: the values that an edge may carry, and whether the rest stops here; `none` for
-- a node that is no condition
unfoldable pub branch_allowed : Catalog → Entries → Option (List String × Bool)
unfolding match_entry condition_branches get_by_path is_empty
branch_allowed catalog node = for_condition node (match_entry catalog node)

abbrev pub carries : List String → Value → Bool
carries allowed (text s) = contains allowed s
carries allowed _ = false

abbrev pub clip_value : Value → Value
clip_value (text s) = text (clip s)
clip_value v = v

abbrev max_listed_branches : ℕ
max_listed_branches = 10

-- `br.get("name") or ""`
abbrev name_or_empty : Value → Value
name_or_empty v = if is_true v then v else text ""

-- the branches that have a key, with their names
unfoldable pub named_branches : List Value → List (String × Value)
unfolding sid get
named_branches [] = []
named_branches (dict br ∷ rest) = elim (sid (get "key" br)) [
  | none ↦ named_branches rest
  | some k ↦ (k, name_or_empty (get "name" br)) ∷ named_branches rest
]
named_branches (_ ∷ rest) = named_branches rest

abbrev named_of_list : Value → List (String × Value)
named_of_list (list vs) = named_branches (values vs)
named_of_list _ = []

-- `condition_branches` with the names
abbrev named_values : Entries → List (String × Value)
named_values node =
    if is_branched node
    then named_of_list (get_by_path (dict node) "config.branches")
      ++ (if stops node then [] else ("else", text "그 외") ∷ [])
    else ("true", text "참") ∷ ("false", text "그 외") ∷ []

-- what `_branch_allowed` lists for the message
unfoldable pub listing : Entries → Listing
unfolding named_branches get_by_path is_empty clip
listing node =
    let branches = named_values node in
    (
      map (λ (v, n). (clip v, clip_value n)) (take max_listed_branches branches),
      length branches - max_listed_branches,
    )

-- `_branch_edge_errors`; `ct` is the edge's conditionType
unfoldable pub branch_edge_errors :
    String → String → Value → Listing → List String → Bool → List Error
unfolding clip
branch_edge_errors source target ct listed allowed stop =
    if carries allowed ct
    then []
    else if stop && is_text "else" ct
    then error edge_invalid (stopped_branch (clip source) (clip target) listed) (some source) none
      ∷ []
    else error edge_invalid (wrong_branch (clip source) (clip target) (clip_value ct) listed)
        (some source) none
      ∷ []
