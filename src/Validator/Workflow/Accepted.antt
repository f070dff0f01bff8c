-- ===== src/Validator/Workflow/Accepted.antt =====
-- What a workflow is that the validator finds no error in.
use ieum_agent.Base.{
  ℕ, ◌≤◌, ◌≡◌, refl, String, true, ◌&&◌, some, any, List, [], ◌∷◌, ◌++◌, All, arith, length, leb,
  Bool-cases, inl, inr,
}
use ieum_agent.Value.{Value, dict, Entries, get}
use ieum_agent.Catalog.{Catalog, match_entry}
use ieum_agent.Validator.Problem.{Error, error_eq}
use ieum_agent.Validator.Fields.{Parser, field_errors}
use ieum_agent.Validator.Graph.{graph_errors, id_of, ids}
use ieum_agent.Validator.Graph.Nodes.{append-nil}
use ieum_agent.Validator.Graph.Sound.{WellFormed, graph_errors_sound}
use ieum_agent.Validator.Strings.Preorder.{strings}
use ieum_agent.Validator.Refs.Errors.{ref_errors, predecessors, unused_of}
use ieum_agent.Validator.Refs.Sound.{TextResolved, Resolved, ref_errors_sound}
use ieum_agent.Validator.Refs.{bodies, is_under}
use ieum_agent.Validator.Refs.Unread.{IsUnread, unused_of-IsUnread}
use ieum_agent.Value.Text.{has_ref}
use ieum_agent.Validator.Collect.{collect}
use ieum_agent.Validator.Collect.Answer.{collect_faithful}
use ieum_agent.Validator.Workflow.{
  max_nodes, max_edges, dicts, nodes_errors, found_errors, validate_workflow,
}

module _ (catalog : Catalog) (parser : Parser) where
  -- The references of one node: in each text of its config that is not of a field that the run does
  -- not read, they are resolved.
  abbrev pub ReadResolved :
      List Entries → List Entries → String → Entries → String × String → Type 0
  ReadResolved nodes edges nid node (loc, s) =
      has_ref s ≡ true
      → (¬ IsUnread catalog node loc)
      → All (Resolved catalog nodes edges nid) (bodies s)

  abbrev pub RefsResolved : List Entries → List Entries → Entries → Type 0
  RefsResolved nodes edges node =
      (nid : String) (config : Entries)
      → id_of node ≡ some nid
      → get "config" node ≡ dict config
      → All (ReadResolved nodes edges nid node) (strings "config" (dict config))

  abbrev pub FieldsPass : Entries → Type 0
  FieldsPass node = field_errors catalog parser node ≡ []

  pub record Accepted (nodes edges : List Value) : Type 0 where
    pub few_nodes : length nodes ≤ max_nodes
    pub few_edges : length edges ≤ max_edges
    pub graph : WellFormed catalog (dicts nodes) (dicts edges)
    pub fields : All FieldsPass (dicts nodes)
    pub refs : All (RefsResolved (dicts nodes) (dicts edges)) (dicts nodes)

  ReadResolved-text :
      (nodes edges : List Entries) (nid : String) (node : Entries) (loc s : String)
      → TextResolved catalog nodes edges nid (unused_of node (match_entry catalog node)) (loc, s)
      → ReadResolved nodes edges nid node (loc, s)
  ReadResolved-text nodes edges nid node loc s resolved some_ref used =
      elim (Bool-cases (any (is_under loc) (unused_of node (match_entry catalog node)))) [
        | inl unread ↦ absurd (used (unused_of-IsUnread catalog node loc unread))
        | inr checked ↦ resolved some_ref checked
      ]

  ReadResolved-texts :
      (nodes edges : List Entries) (nid : String) (node : Entries) (ts : List (String × String))
      → All (TextResolved catalog nodes edges nid (unused_of node (match_entry catalog node))) ts
      → All (ReadResolved nodes edges nid node) ts
  ReadResolved-texts nodes edges nid node [] h = tt
  ReadResolved-texts nodes edges nid node (t ∷ ts) (h, hs) = (
    ReadResolved-text nodes edges nid node t.0 t.1 h,
    ReadResolved-texts nodes edges nid node ts hs,
  )

  nodes-nil :
      (all edges nodes : List Entries)
      → nodes_errors catalog parser all (predecessors (ids all) edges) nodes ≡ []
      → All FieldsPass nodes × All (RefsResolved all edges) nodes
  unfolding nodes_errors
  nodes-nil all edges [] h = (tt, tt)
  nodes-nil all edges (node ∷ rest) h =
      let preds = predecessors (ids all) edges in
      let later = nodes_errors catalog parser all preds rest in
      let (a, bc) =
        append-nil (field_errors catalog parser node) (ref_errors catalog all preds node ++ later)
          h in
      let (b, c) = append-nil (ref_errors catalog all preds node) later bc in
      let (fields, refs) = nodes-nil all edges rest c in
      (
        (a, fields),
        (
          (λ nid config named configured.
              ReadResolved-texts all edges nid node (strings "config" (dict config))
                (ref_errors_sound catalog all edges node config nid named configured b)),
          refs,
        ),
      )

  -- Where `validate_workflow` returns no error: there are at most 500 nodes and 2000 edges, the graph
  -- is well-formed, no field of a node has an error, and each reference in a text of a config, unless
  -- the text belongs to a field that the run does not read, leads to a node before the one that it
  -- stands in, and to an output of that node, where its outputs are known.
  pub validate_workflow_sound :
      (size_of : Error → ℕ) (nodes edges : List Value)
      → validate_workflow catalog parser size_of nodes edges ≡ []
      → Accepted nodes edges
  unfolding validate_workflow found_errors
  validate_workflow_sound size_of nodes edges h =
      elim (Bool-cases (leb (length nodes) max_nodes && leb (length edges) max_edges)) [
        | inr large ↦ ground arith
        | inl fits ↦
            let graph = graph_errors catalog (dicts nodes) (dicts edges) in
            let rest =
              nodes_errors catalog parser (dicts nodes)
                (predecessors (ids (dicts nodes)) (dicts edges)) (dicts nodes) in
            let found = collected (graph ++ rest) (ground arith) in
            let (a, b) = append-nil graph rest found in
            let (fields, refs) = nodes-nil (dicts nodes) (dicts edges) (dicts nodes) b in
            record {
              few_nodes = ground arith;
              few_edges = ground arith;
              graph = graph_errors_sound catalog (dicts nodes) (dicts edges) a;
              fields = fields;
              refs = refs;
            }
      ]
    where
      collected : (found : List Error) → collect size_of found ≡ [] → found ≡ []
      collected [] k = refl
      collected (e ∷ rest) k = (collect_faithful size_of (e ∷ rest) e).2 k
