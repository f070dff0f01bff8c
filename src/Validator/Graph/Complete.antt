-- ===== src/Validator/Graph/Complete.antt =====
-- A well-formed graph has no graph errors.
use ieum_agent.Base.{
  ℕ, ◌+◌, ◌≡◌, refl, sym, ap, ◌∙◌, String, Bool, true, false, Option, none, some, List, [], ◌∷◌,
  ◌++◌, ◌==◌, string_eq, contains, arith, All, In, Distinct, inl, inr, Bool-cases, is_some,
  eq_of_test, contains-of-In,
}
use mathlib.Core.Path.{subst}
use ieum_agent.Value.{Value, Entries, get}
use ieum_agent.Search.{reached}
use ieum_agent.Search.Complete.{reached_complete}
use ieum_agent.Catalog.{Catalog}
use ieum_agent.Validator.Cron.{cron_errors}
use ieum_agent.Validator.Problem.{Listing}
use ieum_agent.Validator.Branches.{carries, branch_edge_errors}
use ieum_agent.Validator.Graph.{
  id_of, type_of, ids, triggers, only, add_id, type_errors, node_problems, node_errors,
  count_errors, allowed_of, listing_of, ends, end_errors, branch_errors, branch_problems,
  edge_errors, first_node, inner, orphan_errors, reach_errors, graph_errors,
}
use ieum_agent.Validator.Graph.Nodes.{Nodes, ids-cons}
use ieum_agent.Validator.Graph.Edges.{Joined}
use ieum_agent.Validator.Graph.Sound.{WellFormed}

nil-append : {A : Type 0} (xs ys : List A) → xs ≡ [] → ys ≡ [] → xs ++ ys ≡ []
nil-append xs ys h k = ap (λ l. l ++ ys) h ∙ k

nil-orphan :
    (found nids : List String)
    → ((nid : String) → In nid nids → contains found nid ≡ true)
    → orphan_errors found nids ≡ []
unfolding orphan_errors
nil-orphan found [] h = refl
nil-orphan found (nid ∷ nids) h = rw (h nid (inl refl)) (nil-orphan found nids (λ k m. h k (inr m)))

-- The later nodes have other ids.
apart_later :
    (seen : List String) (nid : String) (found : List String)
    → contains found nid ≡ false
    → ((k : String) → In k found → contains seen k ≡ false)
    → (k : String) → In k found
    → contains (nid ∷ seen) k ≡ false
apart_later seen nid found other apart k m = elim (Bool-cases (k == nid)) [
  | inl same ↦ ground (arith, contains-of-In k found m, eq_of_test k nid same)
  | inr differs ↦ ground (arith, apart k m)
]

no_trigger : (trigger : String) → triggers [] ≡ trigger ∷ [] → ⊥
unfolding triggers
no_trigger trigger h = cc

id_there : (o : Option String) → is_some o ≡ true → (nid : String) × (o ≡ some nid)
id_there none h = cc
id_there (some nid) h = (nid, refl)

module _ (catalog : Catalog) where
  -- a cron expression that is there is well-formed
  abbrev pub Timed : Entries → Type 0
  Timed node = (nid : String) → cron_errors catalog nid node ≡ []

  nil-type_errors :
      (nid : String) (node : Entries) (t : Option String)
      → Timed node
      → is_some t ≡ true
      → type_errors catalog nid node t ≡ []
  nil-type_errors nid node none timed h = cc
  nil-type_errors nid node (some t) timed h = ground (arith, timed nid)

  nil-node_problems :
      (idx : ℕ) (seen : List String) (node : Entries) (nid : String)
      → contains seen nid ≡ false
      → Timed node
      → is_some (type_of node) ≡ true
      → node_problems catalog idx seen node (some nid) ≡ []
  unfolding node_problems
  nil-node_problems idx seen node nid fresh timed typed =
      rw fresh (nil-type_errors nid node (type_of node) timed typed)

  nil-node_errors :
      (idx : ℕ) (seen : List String) (nodes : List Entries)
      → All Timed nodes
      → Nodes catalog seen nodes
      → node_errors catalog idx seen nodes ≡ []
  unfolding node_errors
  nil-node_errors idx seen [] timed h = refl
  nil-node_errors idx seen (node ∷ nodes) (now, timed)
        (((named, typed), identified), distinct_all, apart_all) =
      let (nid, name) = id_there (id_of node) named in
      let ((other, distinct), apart) =
        subst (λ l. Distinct l × ((k : String) → In k l → contains seen k ≡ false))
          (ids-cons catalog node nodes nid name) (distinct_all, apart_all) in
      let later = apart_later seen nid (ids nodes) other (λ k m. apart k (inr m)) in
      subst
        (λ x.
          node_problems catalog idx seen node x
            ++ node_errors catalog (idx + 1) (add_id x seen) nodes
          ≡ [])
        (sym name)
        (nil-append (node_problems catalog idx seen node (some nid))
          (node_errors catalog (idx + 1) (nid ∷ seen) nodes)
          (nil-node_problems idx seen node nid (apart nid (inl refl)) now typed)
          (nil-node_errors (idx + 1) (nid ∷ seen) nodes timed (identified, distinct, later)))

  nil-branch_problems :
      (source target : String) (ct : Value) (listed : Listing) (found : Option (List String × Bool))
      → ((allowed : List String) (stop : Bool)
          → found ≡ some (allowed, stop)
          → carries allowed ct ≡ true)
      → branch_problems source target ct listed found ≡ []
  unfolding branch_edge_errors
  nil-branch_problems source target ct listed none h = refl
  nil-branch_problems source target ct listed (some (allowed, stop)) h =
      rw (h allowed stop refl) refl

  module _ (nodes : List Entries) (trigger : String) where
    nil-edge :
        (idx : ℕ) (edge : Entries)
        → Joined catalog nodes trigger edge
        → end_errors (ids nodes) (some trigger) idx (ends edge)
            ++ branch_errors catalog nodes (ids nodes) (get "conditionType" edge) (ends edge)
          ≡ []
    unfolding end_errors branch_errors
    nil-edge idx edge j =
        subst
          (λ e.
            end_errors (ids nodes) (some trigger) idx e
              ++ branch_errors catalog nodes (ids nodes) (get "conditionType" edge) e
            ≡ [])
          (sym j.reads)
          (rw (j.from_node, j.to_node, j.not_trigger)
            (nil-branch_problems j.source j.target (get "conditionType" edge)
              (listing_of (first_node j.source nodes))
              (allowed_of catalog (first_node j.source nodes)) j.branch))

    nil-edge_errors :
        (idx : ℕ) (edges : List Entries)
        → All (Joined catalog nodes trigger) edges
        → edge_errors catalog nodes (ids nodes) (some trigger) idx edges ≡ []
    unfolding edge_errors
    nil-edge_errors idx [] h = refl
    nil-edge_errors idx (edge ∷ edges) (j, h) =
        nil-append
          (end_errors (ids nodes) (some trigger) idx (ends edge)
            ++ branch_errors catalog nodes (ids nodes) (get "conditionType" edge) (ends edge))
          (edge_errors catalog nodes (ids nodes) (some trigger) (idx + 1) edges)
          (nil-edge idx edge j) (nil-edge_errors (idx + 1) edges h)

  -- Where the graph is well-formed and no node has a cron expression in a wrong form, the graph check
  -- finds no error.
  pub graph_errors_complete :
      (nodes edges : List Entries)
      → All Timed nodes
      → WellFormed catalog nodes edges
      → graph_errors catalog nodes edges ≡ []
  unfolding graph_errors
  graph_errors_complete [] edges timed w = elim (no_trigger w.trigger w.one_trigger) [ ]
  graph_errors_complete (node ∷ rest) edges timed w =
      let nodes = node ∷ rest in
      let one = w.one_trigger in
      nil-append _ _
        (nil-append _ _
          (nil-append _ _ (nil-node_errors 0 [] nodes timed (w.identified, w.distinct, λ k m. refl))
            (ap count_errors one))
          (subst (λ t. edge_errors catalog nodes (ids nodes) t 0 edges ≡ []) (ap only (sym one))
            (nil-edge_errors nodes w.trigger 0 edges w.joined)))
        (subst (λ t. reach_errors (ids nodes) edges t ≡ []) (ap only (sym one))
          (nil-orphan (reached (inner (ids nodes) edges) (w.trigger ∷ [])) (ids nodes) (λ nid m.
            reached_complete (inner (ids nodes) edges) (w.trigger ∷ []) w.trigger nid
              (contains-of-In w.trigger (w.trigger ∷ []) (inl refl)) (w.connected nid m))))
