-- ===== src/Builder/Edit/Linked.antt =====
-- What connect and remove_node keep true of the edges.
use mathlib.Core.Path.{subst}
use mathlib.Core.Bool.{true≢false}
use ieum_agent.Base.{
  or_false, test_self, ◌∙◌, if◌then◌else◌, ◌≡◌, refl, ◌≢◌, sym, String, Bool, true, false, not,
  Option, none, some, List, [], ◌∷◌, ◌==◌, string_eq, All, All-append, Bool-cases, inl, inr, select,
  eq_of_test,
}
use ieum_agent.Value.{Value, text, Entries, get}
use ieum_agent.Catalog.{Catalog}
use ieum_agent.Builder.State.{key_of}
use ieum_agent.Builder.Turn.{find_node}
use ieum_agent.Validator.Branches.{is_text}
use ieum_agent.Builder.Edit.{
  node_is_trigger, branch_error, is_connected, new_edge, Edited, refused, edited, connect_found,
  connect, without, touches, remove_found, remove_node,
}

-- The edge joins two nodes, of which the second is no trigger.
abbrev pub Linked : Catalog → List Entries → Entries → Type 0
Linked catalog nodes e =
    (s : String) × (t : String) × (src : Entries) × (dst : Entries) × (get "source" e ≡ text s)
    × (get "target" e ≡ text t)
    × (find_node s nodes ≡ some src)
    × (find_node t nodes ≡ some dst)
    × (node_is_trigger catalog dst ≡ false)

test_of_eq : (s k : String) → s ≡ k → (s == k) ≡ true
test_of_eq s k e = subst (λ x. (s == x) ≡ true) e (test_self s)

ne_of_test : (s k : String) → (s == k) ≡ false → s ≢ k
ne_of_test s k h e = true≢false (sym (test_of_eq s k e) ∙ h)

not_same : (s k : String) → (s == k) ≡ false → (k == s) ≡ false
not_same s k h = elim (Bool-cases (k == s)) [
  | inl same ↦ absurd (
      true≢false (sym (subst (λ x. (s == x) ≡ true) (sym (eq_of_test k s same)) (test_self s)) ∙ h))
  | inr other ↦ other
]

find_node-without :
    (id s : String) (nodes : List Entries)
    → (s == id) ≡ false
    → find_node s (without id nodes) ≡ find_node s nodes
unfolding find_node
find_node-without id s [] h = refl
find_node-without id s (n ∷ nodes) h =
    let rest = find_node-without id s nodes h in
    elim (Bool-cases (key_of n == id)) [
      | inl same ↦
          let other = subst (λ x. (s == x) ≡ false) (sym (eq_of_test (key_of n) id same)) h in
          rw (same, not_same s (key_of n) other, rest) refl
      | inr other ↦ rw (other, rest) refl
    ]

find_node-without_self :
    (id : String) (nodes : List Entries) → find_node id (without id nodes) ≡ none
unfolding find_node
find_node-without_self id [] = refl
find_node-without_self id (n ∷ nodes) =
    let rest = find_node-without_self id nodes in
    elim (Bool-cases (key_of n == id)) [
      | inl same ↦ rw (same, rest) refl
      | inr other ↦ rw (other, other, rest) refl
    ]

is_text-eq : (id : String) (v : Value) (s : String) → v ≡ text s → is_text id v ≡ (s == id)
is_text-eq id v s h = rw h refl

Linked-without :
    (catalog : Catalog) (id : String) (nodes : List Entries) (e : Entries)
    → touches id e ≡ false
    → Linked catalog nodes e
    → Linked catalog (without id nodes) e
Linked-without catalog id nodes e free (s, t, src, dst, a, b, f, g, k) =
    let (x, y) = or_false _ _ free in
    let keeps_source = find_node-without id s nodes (sym (is_text-eq id _ s a) ∙ x) in
    let keeps_target = find_node-without id t nodes (sym (is_text-eq id _ t b) ∙ y) in
    (s, t, src, dst, a, b, keeps_source ∙ f, keeps_target ∙ g, k)

edges-without :
    (catalog : Catalog) (id : String) (nodes edges : List Entries)
    → All (Linked catalog nodes) edges
    → All (Linked catalog (without id nodes)) (select (λ e. not (touches id e)) edges)
edges-without catalog id nodes [] all = tt
edges-without catalog id nodes (e ∷ edges) (h, all) =
    let rest = edges-without catalog id nodes edges all in
    elim (Bool-cases (touches id e)) [
      | inl same ↦ rw same rest
      | inr free ↦ rw free (Linked-without catalog id nodes e free h, rest)
    ]

-- what holds of the nodes and the edges, if the tool does not refuse
abbrev Holds : (List Entries → List Entries → Type 0) → Edited → Type 0
Holds P (refused r) = Unit
Holds P (edited nodes edges) = P nodes edges

if-Holds :
    (P : List Entries → List Entries → Type 0) (b : Bool) (x y : Edited)
    → (b ≡ true → Holds P x)
    → (b ≡ false → Holds P y)
    → Holds P (if b then x else y)
if-Holds P true x y h k = h refl
if-Holds P false x y h k = k refl

abbrev Left : Catalog → String → List Entries → List Entries → Type 0
Left catalog id nodes edges = All (Linked catalog nodes) edges × (find_node id nodes ≡ none)

remove_found-Left :
    (catalog : Catalog) (id : String) (nodes edges : List Entries) (found : Option Entries)
    → All (Linked catalog nodes) edges
    → Holds (Left catalog id) (remove_found id nodes edges found)
remove_found-Left catalog id nodes edges none all = tt
remove_found-Left catalog id [] edges (some n) all =
    (edges-without catalog id [] edges all, find_node-without_self id [])
remove_found-Left catalog id (m ∷ []) edges (some n) all = tt
remove_found-Left catalog id (m ∷ k ∷ nodes) edges (some n) all =
    (edges-without catalog id (m ∷ k ∷ nodes) edges all, find_node-without_self id (m ∷ k ∷ nodes))

-- Where every edge joins two nodes and none leads to a trigger: after a node is removed the same holds,
-- and no node has its id.
pub remove_node-Linked :
    (catalog : Catalog) (id : String) (nodes edges nodes_after edges_after : List Entries)
    → All (Linked catalog nodes) edges
    → remove_node id nodes edges ≡ edited nodes_after edges_after
    → All (Linked catalog nodes_after) edges_after × (find_node id nodes_after ≡ none)
unfolding remove_node
remove_node-Linked catalog id nodes edges na ea all h =
    subst (Holds (Left catalog id)) h (remove_found-Left catalog id nodes edges _ all)

new_edge-Linked :
    (catalog : Catalog) (nodes : List Entries) (source target branch : String) (src dst : Entries)
    → find_node source nodes ≡ some src
    → find_node target nodes ≡ some dst
    → node_is_trigger catalog dst ≡ false
    → Linked catalog nodes (new_edge source target branch)
unfolding get string_eq
new_edge-Linked catalog nodes source target branch src dst f g k =
    (source, target, src, dst, refl, refl, f, g, k)

abbrev Joined : Catalog → String → String → List Entries → List Entries → List Entries → Type 0
Joined catalog source target nodes before edges =
    All (Linked catalog before) edges × (source ≢ target) × (before ≡ nodes)

connect_found-Linked :
    (catalog : Catalog) (nodes edges : List Entries) (source target branch : String)
    (src dst : Option Entries)
    → find_node source nodes ≡ src
    → find_node target nodes ≡ dst
    → All (Linked catalog nodes) edges
    → Holds
        (Joined catalog source target nodes)
        (connect_found catalog nodes edges source target branch src dst)
connect_found-Linked catalog nodes edges source target branch none dst f g all = tt
connect_found-Linked catalog nodes edges source target branch (some s) none f g all = tt
connect_found-Linked catalog nodes edges source target branch (some s) (some d) f g all =
    let P = Joined catalog source target nodes in
    if-Holds P (source == target) _ _ (λ e. tt)
      (λ differ.
        let apart = ne_of_test source target differ in
        if-Holds P (node_is_trigger catalog d) _ _ (λ e. tt)
          (λ free.
            if-Holds P (branch_error s branch) _ _ (λ e. tt)
              (λ fits.
                if-Holds P (is_connected source target branch edges) _ _ (λ e. (all, apart, refl))
                  (λ e. (
                    All-append (Linked catalog nodes) edges _ all
                        (new_edge-Linked catalog nodes source target branch s d f g free, tt),
                    apart,
                    refl,
                  )))))

-- Where every edge joins two nodes and none leads to a trigger: after two nodes are connected the same
-- holds, the nodes are the same, and the two ids differ.
pub connect-Linked :
    (catalog : Catalog) (source target branch : String)
    (nodes edges nodes_after edges_after : List Entries)
    → All (Linked catalog nodes) edges
    → connect catalog nodes edges source target branch ≡ edited nodes_after edges_after
    → All (Linked catalog nodes_after) edges_after × (source ≢ target) × (nodes_after ≡ nodes)
unfolding connect
connect-Linked catalog source target branch nodes edges na ea all h =
    subst (Holds (Joined catalog source target nodes)) h
      (connect_found-Linked catalog nodes edges source target branch _ _ refl refl all)
