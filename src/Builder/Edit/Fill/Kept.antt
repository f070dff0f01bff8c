-- ===== src/Builder/Edit/Fill/Kept.antt =====
-- What a new name leaves as it was.
use mathlib.Core.Path.{subst}
use ieum_agent.Base.{
  ◌≡◌, refl, sym, ap, ◌∙◌, String, false, Option, none, some, List, [], ◌∷◌, ◌==◌, string_eq,
  if◌then◌else◌, map, first, arith, Bool-cases, if_cases, inl, inr,
}
use ieum_agent.Base.Dict.{insert, erase}
use ieum_agent.Value.{Value, text, Entries, end, entry, get, entries, of_entries}
use ieum_agent.Value.Text.{◌<>◌}
use ieum_agent.Builder.State.{config_of, Codec, key_of, node_hash, workflow_hash}
use ieum_agent.Builder.Turn.{find_node}
use ieum_agent.Builder.Clean.{clean}
use ieum_agent.Builder.Edit.Fill.{put_node, with_label, renamed, rename_found, rename_node}

of_entries-entries : (es : Entries) → of_entries (entries es) ≡ es
of_entries-entries end = refl
of_entries-entries (entry k v es) = ap (entry k v) (of_entries-entries es)

get-insert :
    (j k : String) (v : Value) (es : Entries)
    → get j (of_entries (insert k v (entries es))) ≡ (if j == k then v else get j es)
unfolding get insert
get-insert j k v end = refl
get-insert j k v (entry i w es) = ground (arith, get-insert j k v es, of_entries-entries es)

map-put_node {ℓ} :
    {B : Type ℓ} (f : Entries → B) (id : String) (node after : Entries) (nodes : List Entries)
    → find_node id nodes ≡ some node
    → f after ≡ f node
    → map f (put_node id after nodes) ≡ map f nodes
unfolding find_node put_node
map-put_node f id node after [] found same = cc
map-put_node f id node after (n ∷ nodes) found same = elim (Bool-cases (key_of n == id)) [
  | inl here ↦
      let this : n ≡ node = some_injective (
        subst (λ b. (if b then some n else first (λ m. key_of m == id) nodes) ≡ some node) here
          found) in
      rw here (ap (λ x. x ∷ map f nodes) (same ∙ ap f (sym this)))
  | inr other ↦
      let later =
        subst (λ b. (if b then some n else first (λ m. key_of m == id) nodes) ≡ some node) other
          found in
      rw other (ap (λ xs. f n ∷ xs) (map-put_node f id node after nodes later same))
]
  where
    some_injective : {a b : Entries} → ◌≡◌ {A = Option Entries} (some a) (some b) → a ≡ b
    some_injective h = cc

get-with_label :
    (j : String) (node : Entries) (label : String)
    → (j == "label") ≡ false
    → get j (with_label node label) ≡ get j node
get-with_label j node label h = get-insert j "label" (text label) node ∙ rw h refl

key_of-with_label : (node : Entries) (label : String) → key_of (with_label node label) ≡ key_of node
unfolding string_eq
key_of-with_label node label = rw (get-with_label "id" node label refl) refl

node_hash-with_label :
    (codec : Codec) (node : Entries) (label : String)
    → node_hash codec (with_label node label) ≡ node_hash codec node
unfolding node_hash string_eq
node_hash-with_label codec node label =
    ap (λ v. hash v (get "config" (with_label node label))) (get-with_label "event" node label refl)
    ∙ ap (hash (get "event" node)) (get-with_label "config" node label refl)
  where
    hash : Value → Value → String
    hash event config =
        codec.sha256
          (codec.str event <> codec.dumps (of_entries (erase "brand" (entries (config_of config)))))

abbrev pub SameHashes : Codec → List Entries → List Entries → List Entries → Type 0
SameHashes codec nodes after edges =
    (map key_of after ≡ map key_of nodes)
    × (map (node_hash codec) after ≡ map (node_hash codec) nodes)
    × (workflow_hash codec after edges ≡ workflow_hash codec nodes edges)

put_label-SameHashes :
    (codec : Codec) (nodes edges : List Entries) (id label : String) (node : Entries)
    → find_node id nodes ≡ some node
    → SameHashes codec nodes (put_node id (with_label node label) nodes) edges
unfolding workflow_hash string_eq
put_label-SameHashes codec nodes edges id label node found = (
  map-put_node key_of id node _ nodes found (key_of-with_label node label),
  map-put_node (node_hash codec) id node _ nodes found (node_hash-with_label codec node label),
  rw
      (
        workflow_hash,
        map-put_node {B = String × String} (λ n. (codec.str (get "id" n), node_hash codec n)) id
            node (with_label node label) nodes found
            (ap (λ v. (codec.str v, node_hash codec (with_label node label)))
                (get-with_label "id" node label refl)
              ∙ ap (λ h. (codec.str (get "id" node), h)) (node_hash-with_label codec node label)),
      )
      refl,
)

rename_found-SameHashes :
    (codec : Codec) (nodes edges : List Entries) (id label : String) (o : Option Entries)
    (after : List Entries) (shown : String)
    → find_node id nodes ≡ o
    → rename_found nodes id label o ≡ renamed after shown
    → SameHashes codec nodes after edges
rename_found-SameHashes codec nodes edges id label none after shown found h = cc
rename_found-SameHashes codec nodes edges id label (some node) after shown found h =
    elim (if_cases (label == "") h) [
      | inl (blank, none_made) ↦ cc
      | inr (full, made) ↦
          let put : put_node id (with_label node label) nodes ≡ after = cc in
          subst (λ ns. SameHashes codec nodes ns edges) put
            (put_label-SameHashes codec nodes edges id label node found)
    ]

-- If a node is renamed: every node keeps its id and its hash, and the workflow its hash.
pub rename_node-SameHashes :
    (codec : Codec) (nodes edges : List Entries) (id : String) (given : Value)
    (after : List Entries) (shown : String)
    → rename_node codec nodes id given ≡ renamed after shown
    → SameHashes codec nodes after edges
unfolding rename_node
rename_node-SameHashes codec nodes edges id given after shown h =
    rename_found-SameHashes codec nodes edges id (clean codec 60 given) (find_node id nodes) after
      shown refl h
