-- ===== src/Validator/Graph/Sound.antt =====
-- A workflow without graph errors has a well-formed graph.
use ieum_agent.Base.{◌≡◌, refl, ap, String, some, List, [], ◌∷◌, ◌++◌, string_eq, All, In, Distinct}
use mathlib.Core.Path.{subst}
use ieum_agent.Value.{Entries}
use ieum_agent.Search.{reached}
use ieum_agent.Search.Reaches.{Reaches}
use ieum_agent.Search.Sound.{reached_sound}
use ieum_agent.Catalog.{Catalog}
use ieum_agent.Validator.Graph.{
  ids, triggers, only, node_errors, count_errors, edge_errors, inner, reach_errors, graph_errors,
}
use ieum_agent.Validator.Graph.Nodes.{append-nil, Identified, node_errors-nil}
use ieum_agent.Validator.Graph.Edges.{Joined, edge_errors-nil, orphan-nil}

count-nil : (found : List String) → count_errors found ≡ [] → (tid : String) × (found ≡ tid ∷ [])
count-nil [] h = cc
count-nil (tid ∷ []) h = (tid, refl)
count-nil (tid ∷ other ∷ rest) h = cc

module _ (catalog : Catalog) where
  -- The graph of a workflow that may run.
  pub record WellFormed (nodes edges : List Entries) : Type 0 where
    pub trigger : String
    pub one_trigger : triggers nodes ≡ trigger ∷ []
    pub identified : All Identified nodes
    pub distinct : Distinct (ids nodes)
    pub joined : All (Joined catalog nodes trigger) edges
    pub connected :
        (nid : String) → In nid (ids nodes) → Reaches (inner (ids nodes) edges) trigger nid

  WellFormed-nil :
      (nodes edges : List Entries) (trigger : String)
      → triggers nodes ≡ trigger ∷ []
      → node_errors catalog 0 [] nodes ≡ []
      → edge_errors catalog nodes (ids nodes) (some trigger) 0 edges ≡ []
      → reach_errors (ids nodes) edges (some trigger) ≡ []
      → WellFormed nodes edges
  WellFormed-nil nodes edges trigger one h k r =
      let (identified, distinct, apart) = node_errors-nil catalog 0 [] nodes h in
      record {
        trigger = trigger;
        one_trigger = one;
        identified = identified;
        distinct = distinct;
        joined = edge_errors-nil catalog nodes trigger 0 edges k;
        connected = λ nid m.
            reached_sound (inner (ids nodes) edges) trigger nid
              (orphan-nil (reached (inner (ids nodes) edges) (trigger ∷ [])) (ids nodes) nid r m);
      }

  -- Where the graph check finds no error, the graph is well-formed: one node is the trigger, every
  -- node has an id of its own and a type, every edge joins two nodes, none leads to the trigger, an
  -- edge out of a condition carries the value of one of its branches, and a path leads from the
  -- trigger to every node.
  pub graph_errors_sound :
      (nodes edges : List Entries) → graph_errors catalog nodes edges ≡ [] → WellFormed nodes edges
  unfolding graph_errors
  graph_errors_sound [] edges h = cc
  graph_errors_sound (node ∷ rest) edges h =
      let nodes = node ∷ rest in
      let tid = only (triggers nodes) in
      let last = reach_errors (ids nodes) edges tid in
      let third = edge_errors catalog nodes (ids nodes) tid 0 edges in
      let first = node_errors catalog 0 [] nodes in
      let second = count_errors (triggers nodes) in
      let (abc, d) = append-nil (first ++ second ++ third) last h in
      let (ab, c) = append-nil (first ++ second) third abc in
      let (a, b) = append-nil first second ab in
      let (trigger, one) = count-nil (triggers nodes) b in
      let found = ap only one in
      WellFormed-nil nodes edges trigger one a
        (subst (λ t. edge_errors catalog nodes (ids nodes) t 0 edges ≡ []) found c)
        (subst (λ t. reach_errors (ids nodes) edges t ≡ []) found d)
