-- ===== src/Builder/Edit/Fill/Edges.antt =====
-- Which edges are left when the fields of a node are set.
use ieum_agent.Base.{
  ◌≡◌, ◌↔◌, ◌⊎◌, refl, sym, String, Bool, true, false, not, ◌&&◌, Option, none, some, List, [], ◌∷◌,
  if◌then◌else◌, select, In, Bool-cases, inl, inr,
}
use mathlib.Core.Path.{subst}
use ieum_agent.Base.Dict.{Dict}
use ieum_agent.Value.{Value, dict, Entries, get}
use ieum_agent.Catalog.{Catalog}
use ieum_agent.Validator.Branches.{is_text, condition_branches, carries}
use ieum_agent.Builder.State.{Codec, key_of}
use ieum_agent.Builder.Write.{Heard}
use ieum_agent.Builder.Write.Destinations.{Urls, Reason}
use ieum_agent.Builder.Edit.Fill.{
  put_node, is_stale, prune_branch_edges, filled, fill_edges, fill_applied, fill_found, set_fields,
}

-- The node is no condition, or the edge does not leave it, or it carries the value of a branch.
abbrev pub Stays : Entries → Entries → Type 0
Stays node e =
    (is_text "branch.if" (get "event" node) ≡ false)
    ⊎ ((is_text (key_of node) (get "source" e) ≡ false)
        ⊎ (carries (condition_branches node) (get "conditionType" e) ≡ true))

In-select :
    (p : Entries → Bool) (e : Entries) (es : List Entries)
    → In e (select p es)
    → In e es × (p e ≡ true)
In-select p e [] m = elim m [ ]
In-select p e (x ∷ es) m = elim (Bool-cases (p x)) [
  | inl kept ↦ elim (subst (λ b. In e (if b then x ∷ select p es else select p es)) kept m) [
    | inl same ↦ (inl same, rw same kept)
    | inr later ↦ let (there, holds) = In-select p e es later in (inr there, holds)
  ]
  | inr dropped ↦
      let (there, holds) =
        In-select p e es
          (subst (λ b. In e (if b then x ∷ select p es else select p es)) dropped m) in
      (inr there, holds)
]

select-In :
    (p : Entries → Bool) (e : Entries) (es : List Entries)
    → In e es
    → p e ≡ true
    → In e (select p es)
select-In p e [] m h = elim m [ ]
select-In p e (x ∷ es) (inl same) h = rw (subst (λ y. p y ≡ true) same h) (inl same)
select-In p e (x ∷ es) (inr m) h =
    let later = select-In p e es m h in
    elim (Bool-cases (p x)) [ inl kept ↦ rw kept (inr later) | inr dropped ↦ rw dropped later ]

fresh_iff :
    (node e : Entries)
    → (not (is_stale node e) ≡ true) ↔ (
        (is_text (key_of node) (get "source" e) ≡ false)
        ⊎ (carries (condition_branches node) (get "conditionType" e) ≡ true))
fresh_iff node e =
    go (is_text (key_of node) (get "source" e))
      (carries (condition_branches node) (get "conditionType" e))
  where
    go : (a b : Bool) → (not (a && not b) ≡ true) ↔ ((a ≡ false) ⊎ (b ≡ true))
    go true true = (λ h. inr refl, λ h. refl)
    go true false = (λ h. cc, λ h. elim h [ inl f ↦ cc | inr f ↦ cc ])
    go false b = (λ h. inl refl, λ h. refl)

fill_edges_iff :
    (after e : Entries) (edges : List Entries)
    → In e (fill_edges after edges) ↔ (In e edges × Stays after e)
unfolding prune_branch_edges
fill_edges_iff after e edges = elim (Bool-cases (is_text "branch.if" (get "event" after))) [
  | inl condition ↦ rw condition (
    λ m. let (there, holds) = In-select _ e edges m in (there, inr ((fresh_iff after e).0 holds)),
    λ (there, stays). elim stays [
      | inl other ↦ cc
      | inr fresh ↦ select-In _ e edges there ((fresh_iff after e).1 fresh)
    ],
  )
  | inr other ↦ rw other (λ m. (m, inl refl), λ (there, stays). there)
]

-- The node that was written stands in the place of the old one, and the edges are those that stay.
abbrev pub Refilled :
    List Entries → List Entries → String → Entries → List Entries → List Entries → Type 0
Refilled nodes edges id e nodes_after edges_after =
    (after : Entries) × (nodes_after ≡ put_node id after nodes)
    × (In e edges_after ↔ (In e edges × Stays after e))

fill_applied-Refilled :
    (nodes edges : List Entries) (id : String) (e : Entries)
    (o : Option (Value × List String × Dict Reason)) (na ea : List Entries) (applied : List String)
    (rejected : Dict Reason)
    → fill_applied nodes edges id o ≡ filled na ea applied rejected
    → Refilled nodes edges id e na ea
fill_applied-Refilled nodes edges id e (some (dict after, a, r)) na ea applied rejected h =
    let n : put_node id after nodes ≡ na = cc in
    let d : fill_edges after edges ≡ ea = cc in
    (
      after,
      sym n,
      subst (λ es. In e es ↔ (In e edges × Stays after e)) d (fill_edges_iff after e edges),
    )
fill_applied-Refilled nodes edges id e o na ea applied rejected h = cc

module _ (catalog : Catalog) (codec : Codec) (urls : Urls) (draw : List String → String)
    (heard : Heard) where
  fill_found-Refilled :
      (nodes edges : List Entries) (id : String) (values : Value) (e : Entries)
      (found : Option Entries) (na ea : List Entries) (applied : List String)
      (rejected : Dict Reason)
      → fill_found catalog codec urls draw heard nodes edges id values found
        ≡ filled na ea applied rejected
      → Refilled nodes edges id e na ea
  fill_found-Refilled nodes edges id values e none na ea applied rejected h = cc
  fill_found-Refilled nodes edges id (dict values) e (some node) na ea applied rejected h =
      fill_applied-Refilled nodes edges id e _ na ea applied rejected h
  fill_found-Refilled nodes edges id values e (some node) na ea applied rejected h = cc

  -- If the fields of a node are set: the node that was written takes the place of the old one; an edge
  -- is left exactly if it was there and, where the node is a condition now, does not leave it or
  -- carries the value of one of the branches that the node has now.
  pub set_fields_iff :
      (nodes edges : List Entries) (id : String) (values : Value) (e : Entries)
      (nodes_after edges_after : List Entries) (applied : List String) (rejected : Dict Reason)
      → set_fields catalog codec urls draw heard nodes edges id values
        ≡ filled nodes_after edges_after applied rejected
      → Refilled nodes edges id e nodes_after edges_after
  unfolding set_fields
  set_fields_iff nodes edges id values e na ea applied rejected h =
      fill_found-Refilled nodes edges id values e _ na ea applied rejected h
