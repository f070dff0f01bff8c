-- ===== src/Validator/Refs/Sound.antt =====
-- In a node without reference errors each reference leads to a node before it.
use ieum_agent.Base.{
  ◌≡◌, String, Bool, true, false, not, ◌||◌, Option, none, some, List, [], ◌∷◌, ◌==◌, string_eq,
  contains, any, inl, inr, All, Bool-cases, Option-cases, arith, if◌then◌else◌,
}
use mathlib.Core.Path.{subst}
use ieum_agent.Value.{dict, Entries, get}
use ieum_agent.Value.Text.{has_ref}
use ieum_agent.Catalog.{Catalog, match_entry}
use ieum_agent.Search.Reaches.{Reaches}
use ieum_agent.Validator.Graph.{id_of, ids, inner}
use ieum_agent.Validator.Graph.Nodes.{append-nil}
use ieum_agent.Validator.Strings.{iter_strings}
use ieum_agent.Validator.Strings.Preorder.{strings, iter_strings-eq-strings}
use ieum_agent.Validator.Refs.{bodies, parse_ref, head_part, is_under}
use ieum_agent.Validator.Refs.Errors.{
  predecessors, ancestors, declared_outputs, last_node, output_errors, target_errors, parsed_errors,
  body_errors, bodies_errors, field_of, text_errors, texts_errors, unused_of, ref_errors,
  config_errors, paths_of, dynamic_of,
}
use ieum_agent.Validator.Refs.Upstream.{ancestors-Reaches}

gated :
    {A : Type 0} (b c : Bool) (xs : List A)
    → b ≡ true
    → c ≡ false
    → (if not b || c then [] else xs) ≡ []
    → xs ≡ []
gated true true xs p q h = cc
gated true false xs p q h = h
gated false c xs p q h = cc

module _ (catalog : Catalog) (nodes edges : List Entries) (nid : String) where
  -- What a reference must be: it names a node of the workflow from which a path leads to the node
  -- that it stands in, and an output that this node has, if its outputs are known.
  pub record Resolved (body : String) : Type 0 where
    pub target : String
    pub out_path : String
    pub node : Entries
    pub reads : parse_ref body ≡ some (target, out_path)
    pub there : last_node target nodes ≡ some node
    pub other : (target == nid) ≡ false
    pub before : Reaches (inner (ids nodes) edges) target nid
    pub has_output :
        (declared : List String)
        → declared_outputs catalog node ≡ some declared
        → contains declared (head_part out_path) ≡ true

  output-nil :
      (f : Option String) (target path : String) (found : Option (List String))
      → output_errors catalog nodes (predecessors (ids nodes) edges) nid f target path found ≡ []
      → (declared : List String) → found ≡ some declared
      → contains declared (head_part path) ≡ true
  output-nil f target path none h declared e = cc
  output-nil f target path (some known) h declared e = ground arith

  Resolved-nil :
      (f : Option String) (body target path : String) (node : Entries)
      → parse_ref body ≡ some (target, path)
      → last_node target nodes ≡ some node
      → target_errors catalog nodes (predecessors (ids nodes) edges) nid f target path (some node)
        ≡ []
      → Resolved body
  Resolved-nil f body target path node reads there h = elim (Bool-cases (target == nid)) [
    | inl own ↦ ground arith
    | inr other ↦
        elim (Bool-cases (contains (ancestors (predecessors (ids nodes) edges) nid) target)) [
          | inl before ↦ record {
            target = target;
            out_path = path;
            node = node;
            reads = reads;
            there = there;
            other = other;
            before = ancestors-Reaches (ids nodes) edges nid target before;
            has_output = output-nil f target path (declared_outputs catalog node) (ground arith);
          }
          | inr later ↦ ground arith
        ]
  ]

  body-nil :
      (f : Option String) (body : String)
      → body_errors catalog nodes (predecessors (ids nodes) edges) nid f body ≡ []
      → Resolved body
  unfolding body_errors
  body-nil f body h = elim (Option-cases (parse_ref body)) [
    | inl bad ↦ absurd (
        cc (
          subst
            (λ p. parsed_errors catalog nodes (predecessors (ids nodes) edges) nid f body p ≡ [])
            bad h))
    | inr ((target, path), reads) ↦ known target path reads (
        subst (λ p. parsed_errors catalog nodes (predecessors (ids nodes) edges) nid f body p ≡ [])
          reads h)
  ]
    where
      known :
          (target path : String)
          → parse_ref body ≡ some (target, path)
          → target_errors catalog nodes
              (predecessors (ids nodes) edges)
              nid
              f
              target
              path
              (last_node target nodes)
            ≡ []
          → Resolved body
      known target path reads k = elim (Option-cases (last_node target nodes)) [
        | inl missing ↦ absurd (
            cc (
              subst
                (λ n.
                  target_errors catalog nodes (predecessors (ids nodes) edges) nid f target path n
                  ≡ [])
                missing k))
        | inr (node, there) ↦ Resolved-nil f body target path node reads there (
            subst
              (λ n.
                target_errors catalog nodes (predecessors (ids nodes) edges) nid f target path n
                ≡ [])
              there k)
      ]

  bodies-nil :
      (f : Option String) (found : List String)
      → bodies_errors catalog nodes (predecessors (ids nodes) edges) nid f found ≡ []
      → All Resolved found
  unfolding bodies_errors
  bodies-nil f [] h = tt
  bodies-nil f (body ∷ rest) h =
      let (a, b) =
        append-nil (body_errors catalog nodes (predecessors (ids nodes) edges) nid f body)
          (bodies_errors catalog nodes (predecessors (ids nodes) edges) nid f rest) h in
      (body-nil f body a, bodies-nil f rest b)

  -- All references of a text lead to a node before this one.
  abbrev pub TextResolved : List String → String × String → Type 0
  TextResolved unused (loc, s) =
      has_ref s ≡ true → any (is_under loc) unused ≡ false → All Resolved (bodies s)

  text-nil :
      (paths dynamic unused : List String) (loc s : String)
      → text_errors catalog nodes (predecessors (ids nodes) edges) nid paths dynamic unused (loc, s)
        ≡ []
      → TextResolved unused (loc, s)
  unfolding text_errors
  text-nil paths dynamic unused loc s h some_ref used =
      let f = field_of catalog nodes (predecessors (ids nodes) edges) nid paths dynamic loc in
      bodies-nil f (bodies s)
        (append-nil _
          (bodies_errors catalog nodes (predecessors (ids nodes) edges) nid f (bodies s))
          (gated (has_ref s) (any (is_under loc) unused) _ some_ref used h)).1

  texts-nil :
      (paths dynamic unused : List String) (found : List (String × String))
      → texts_errors catalog nodes (predecessors (ids nodes) edges) nid paths dynamic unused found
        ≡ []
      → All (TextResolved unused) found
  unfolding texts_errors
  texts-nil paths dynamic unused [] h = tt
  texts-nil paths dynamic unused (t ∷ rest) h =
      let (a, b) =
        append-nil
          (text_errors catalog nodes (predecessors (ids nodes) edges) nid paths dynamic unused t)
          (texts_errors catalog nodes (predecessors (ids nodes) edges) nid paths dynamic unused
            rest)
          h in
      (text-nil paths dynamic unused t.0 t.1 a, texts-nil paths dynamic unused rest b)

-- In a node without reference errors, whose id is `nid` and whose config is a dict: in each text of
-- the config, unless it belongs to a field that is not read, every `{{...}}` names a node of the
-- workflow other than this one from which a path leads to this one, and an output of that node,
-- where its outputs are known.
pub ref_errors_sound :
    (catalog : Catalog) (nodes edges : List Entries) (node config : Entries) (nid : String)
    → id_of node ≡ some nid
    → get "config" node ≡ dict config
    → ref_errors catalog nodes (predecessors (ids nodes) edges) node ≡ []
    → All
        (TextResolved catalog nodes edges nid (unused_of node (match_entry catalog node)))
        (strings "config" (dict config))
unfolding ref_errors
ref_errors_sound catalog nodes edges node config nid named configured h =
    let preds = predecessors (ids nodes) edges in
    let found = match_entry catalog node in
    let k =
      subst (λ n. config_errors catalog nodes preds node n (get "config" node) ≡ []) named h in
    let l = subst (λ v. config_errors catalog nodes preds node (some nid) v ≡ []) configured k in
    subst (All (TextResolved catalog nodes edges nid (unused_of node found)))
      (iter_strings-eq-strings (dict config) "config")
      (texts-nil catalog nodes edges nid (paths_of found) (dynamic_of found) (unused_of node found)
        (iter_strings (dict config) "config") l)
