-- ===== src/Validator/Graph/Edges.antt =====
-- Edges without errors join two nodes, and a search without errors has found every node.
use ieum_agent.Base.{
  ℕ, ◌+◌, ◌≡◌, refl, String, Bool, true, false, Option, none, some, List, [], ◌∷◌, ◌++◌, ◌==◌,
  string_eq, contains, arith, All, In, inl, inr, Bool-cases,
}
use mathlib.Core.Path.{subst}
use ieum_agent.Value.{Value, Entries, get}
use ieum_agent.Catalog.{Catalog}
use ieum_agent.Validator.Problem.{Listing}
use ieum_agent.Validator.Branches.{carries, branch_edge_errors}
use ieum_agent.Validator.Graph.{
  ids, allowed_of, listing_of, ends, end_errors, branch_errors, branch_problems, edge_errors,
  first_node, orphan_errors,
}
use ieum_agent.Validator.Graph.Nodes.{append-nil}

pub orphan-nil :
    (found nids : List String) (nid : String)
    → orphan_errors found nids ≡ []
    → In nid nids
    → contains found nid ≡ true
unfolding orphan_errors
orphan-nil found [] nid h m = elim m [ ]
orphan-nil found (x ∷ nids) nid h (inl same) = ground arith
orphan-nil found (x ∷ nids) nid h (inr m) = elim (Bool-cases (contains found x)) [
  | inl here ↦ orphan-nil found nids nid (ground arith) m
  | inr missing ↦ ground arith
]

module _ (catalog : Catalog) where
  -- An edge joins two nodes and does not lead to the trigger; if it leaves a condition, it carries
  -- the value of one of its branches.
  pub record Joined (nodes : List Entries) (trigger : String) (edge : Entries) : Type 0 where
    pub source : String
    pub target : String
    pub reads : ends edge ≡ (some source, some target)
    pub from_node : contains (ids nodes) source ≡ true
    pub to_node : contains (ids nodes) target ≡ true
    pub not_trigger : (target == trigger) ≡ false
    pub branch :
        (allowed : List String) (stop : Bool)
        → allowed_of catalog (first_node source nodes) ≡ some (allowed, stop)
        → carries allowed (get "conditionType" edge) ≡ true

  branch_edge_errors-nil :
      (source target : String) (ct : Value) (listed : Listing) (allowed : List String) (stop : Bool)
      → branch_edge_errors source target ct listed allowed stop ≡ []
      → carries allowed ct ≡ true
  unfolding branch_edge_errors
  branch_edge_errors-nil source target ct listed allowed stop h = ground arith

  branch_problems-nil :
      (source target : String) (ct : Value) (listed : Listing) (found : Option (List String × Bool))
      → branch_problems source target ct listed found ≡ []
      → (allowed : List String) (stop : Bool) → found ≡ some (allowed, stop)
      → carries allowed ct ≡ true
  branch_problems-nil source target ct listed found h allowed stop e =
      branch_edge_errors-nil source target ct listed allowed stop
        (subst (λ x. branch_problems source target ct listed x ≡ []) e h)

  Joined-nil :
      (nodes : List Entries) (trigger : String) (idx : ℕ) (edge : Entries)
      (e : Option String × Option String)
      → ends edge ≡ e
      → end_errors (ids nodes) (some trigger) idx e ≡ []
      → branch_errors catalog nodes (ids nodes) (get "conditionType" edge) e ≡ []
      → Joined nodes trigger edge
  unfolding end_errors branch_errors
  Joined-nil nodes trigger idx edge (none, t) e h k = cc
  Joined-nil nodes trigger idx edge (some s, none) e h k = cc
  Joined-nil nodes trigger idx edge (some s, some t) e h k =
      elim (Bool-cases (contains (ids nodes) s)) [
        | inl from ↦ elim (Bool-cases (contains (ids nodes) t)) [
          | inl to ↦ elim (Bool-cases (t == trigger)) [
            | inl wrong ↦ ground arith
            | inr right ↦ record {
              source = s;
              target = t;
              reads = e;
              from_node = from;
              to_node = to;
              not_trigger = right;
              branch =
                  branch_problems-nil s t (get "conditionType" edge)
                    (listing_of (first_node s nodes)) (allowed_of catalog (first_node s nodes))
                    (ground arith);
            }
          ]
          | inr off ↦ ground arith
        ]
        | inr off ↦ ground arith
      ]

  pub edge_errors-nil :
      (nodes : List Entries) (trigger : String) (idx : ℕ) (edges : List Entries)
      → edge_errors catalog nodes (ids nodes) (some trigger) idx edges ≡ []
      → All (Joined nodes trigger) edges
  unfolding edge_errors
  edge_errors-nil nodes trigger idx [] h = tt
  edge_errors-nil nodes trigger idx (edge ∷ edges) h =
      let ct = get "conditionType" edge in
      let first = end_errors (ids nodes) (some trigger) idx (ends edge) in
      let second = branch_errors catalog nodes (ids nodes) ct (ends edge) in
      let third = edge_errors catalog nodes (ids nodes) (some trigger) (idx + 1) edges in
      let (ab, c) = append-nil (first ++ second) third h in
      let (a, b) = append-nil first second ab in
      (
        Joined-nil nodes trigger idx edge (ends edge) refl a b,
        edge_errors-nil nodes trigger (idx + 1) edges c,
      )
