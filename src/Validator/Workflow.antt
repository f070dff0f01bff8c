-- ===== src/Validator/Workflow.antt =====
-- `validate_workflow` of core/validators/static_validator.py. `size_of e` stands for
-- `len(json.dumps(e))`.
pub mod Accepted
mod Tests
use ieum_agent.Base.{
  ℕ, Bool, true, false, ◌&&◌, ◌||◌, not, none, List, [], ◌∷◌, ◌++◌, if◌then◌else◌, length, leb,
}
use ieum_agent.Value.{Value, dict, Entries}
use ieum_agent.Catalog.{Catalog}
use ieum_agent.Validator.Problem.{Error, error, error_eq, too_large, too_many}
use ieum_agent.Validator.Fields.{Parser, field_errors}
use ieum_agent.Validator.Graph.{graph_errors, ids}
use ieum_agent.Validator.Refs.Errors.{ref_errors, predecessors}
use ieum_agent.Validator.Collect.{collect}
use ieum_agent.Search.{Edge}

abbrev pub max_nodes : ℕ
max_nodes = 500

abbrev pub max_edges : ℕ
max_edges = 2000

-- `[n for n in nodes if isinstance(n, dict)]`
abbrev pub dicts : List Value → List Entries
dicts [] = []
dicts (dict es ∷ rest) = es ∷ dicts rest
dicts (_ ∷ rest) = dicts rest

module _ (catalog : Catalog) (parser : Parser) where
  -- the loop of `found`
  unfoldable pub nodes_errors : List Entries → List Edge → List Entries → List Error
  nodes_errors all preds [] = []
  nodes_errors all preds (node ∷ rest) =
      field_errors catalog parser node
      ++ (ref_errors catalog all preds node ++ nodes_errors all preds rest)

  unfoldable pub found_errors : List Entries → List Entries → List Error
  found_errors nodes edges =
      graph_errors catalog nodes edges ++ nodes_errors nodes (predecessors (ids nodes) edges) nodes

  unfoldable pub validate_workflow : (Error → ℕ) → List Value → List Value → List Error
  validate_workflow size_of nodes edges =
      if leb (length nodes) max_nodes && leb (length edges) max_edges
      then collect size_of (found_errors (dicts nodes) (dicts edges))
      else error too_large (too_many (length nodes) (length edges)) none none ∷ []
