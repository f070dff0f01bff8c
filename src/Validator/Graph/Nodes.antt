-- ===== src/Validator/Graph/Nodes.antt =====
-- Nodes without errors have an id of their own and a type.
use ieum_agent.Base.{
  ℕ, ◌+◌, ◌≡◌, refl, ap, String, Bool, true, false, Option, none, some, List, [], ◌∷◌, ◌++◌,
  string_eq, contains, if◌then◌else◌, arith, All, In, Distinct, inl, inr, Bool-cases, is_some,
  test_self, In-of-contains,
}
use mathlib.Core.Path.{subst}
use ieum_agent.Value.{Entries}
use ieum_agent.Catalog.{Catalog}
use ieum_agent.Validator.Graph.{
  id_of, type_of, ids, add_id, type_errors, node_problems, node_errors,
}

pub append-nil : {A : Type 0} (xs ys : List A) → xs ++ ys ≡ [] → (xs ≡ []) × (ys ≡ [])
append-nil [] ys h = (refl, h)
append-nil (x ∷ xs) ys h = cc

pub if-nil :
    {A : Type 0} (x : A) (xs : List A) (b : Bool) → (if b then x ∷ xs else []) ≡ [] → b ≡ false
if-nil x xs true h = cc
if-nil x xs false h = refl

abbrev pub Identified : Entries → Type 0
Identified node = (is_some (id_of node) ≡ true) × (is_some (type_of node) ≡ true)

module _ (catalog : Catalog) where
  type_errors-nil :
      (nid : String) (node : Entries) (t : Option String)
      → type_errors catalog nid node t ≡ []
      → is_some t ≡ true
  type_errors-nil nid node none h = cc
  type_errors-nil nid node (some t) h = refl

  node_problems-nil :
      (idx : ℕ) (seen : List String) (node : Entries) (nid : Option String)
      → node_problems catalog idx seen node nid ≡ []
      → (k : String) × (nid ≡ some k) × (contains seen k ≡ false) × (is_some (type_of node) ≡ true)
  unfolding node_problems
  node_problems-nil idx seen node none h = cc
  node_problems-nil idx seen node (some k) h =
      let parts =
        append-nil (if contains seen k then _ else []) (type_errors catalog k node (type_of node))
          h in
      (k, refl, if-nil _ _ (contains seen k) parts.0, type_errors-nil k node (type_of node) parts.1)

  -- what holds of the nodes after those with the ids `seen`
  abbrev pub Nodes : List String → List Entries → Type 0
  Nodes seen nodes =
      All Identified nodes
      × Distinct (ids nodes)
      × ((k : String) → In k (ids nodes) → contains seen k ≡ false)

  pub ids-cons :
      (node : Entries) (nodes : List Entries) (nid : String)
      → id_of node ≡ some nid
      → ids (node ∷ nodes) ≡ nid ∷ ids nodes
  unfolding ids
  ids-cons node nodes nid named = ap (λ x. add_id x (ids nodes)) named

  Nodes-cons :
      (seen : List String) (node : Entries) (nodes : List Entries) (nid : String)
      → id_of node ≡ some nid
      → contains seen nid ≡ false
      → is_some (type_of node) ≡ true
      → Nodes (nid ∷ seen) nodes
      → Nodes seen (node ∷ nodes)
  Nodes-cons seen node nodes nid named fresh typed (identified, distinct, apart) =
      rw (ids-cons node nodes nid named) (
        ((ap is_some named, typed), identified),
        (not_listed nid (ids nodes) (λ m. ground (arith, apart nid m, test_self nid)), distinct),
        listed,
      )
    where
      not_listed : (k : String) (xs : List String) → ¬ In k xs → contains xs k ≡ false
      not_listed k xs h = elim (Bool-cases (contains xs k)) [
        | inl there ↦ elim (h (In-of-contains k xs there)) [ ]
        | inr missing ↦ missing
      ]

      listed : (k : String) → In k (nid ∷ ids nodes) → contains seen k ≡ false
      listed k (inl same) = rw same fresh
      listed k (inr m) = ground (arith, apart k m)

  pub node_errors-nil :
      (idx : ℕ) (seen : List String) (nodes : List Entries)
      → node_errors catalog idx seen nodes ≡ []
      → Nodes seen nodes
  unfolding node_errors ids
  node_errors-nil idx seen [] h = (tt, tt, λ k m. elim m [ ])
  node_errors-nil idx seen (node ∷ nodes) h =
      let parts =
        append-nil (node_problems catalog idx seen node (id_of node))
          (node_errors catalog (idx + 1) (add_id (id_of node) seen) nodes) h in
      let (nid, named, fresh, typed) = node_problems-nil idx seen node (id_of node) parts.0 in
      Nodes-cons seen node nodes nid named fresh typed (
        node_errors-nil (idx + 1) (nid ∷ seen) nodes
          (subst (λ x. node_errors catalog (idx + 1) (add_id x seen) nodes ≡ []) named parts.1))
