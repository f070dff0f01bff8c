-- ===== src/Validator/Refs/Upstream.antt =====
-- The ancestors of a node are the nodes from which a path leads to it.
use ieum_agent.Base.{
  ◌≡◌, String, Bool, true, false, ◌&&◌, Option, none, some, List, [], ◌∷◌, contains, string_eq, In,
  inl, inr, All-In, if◌then◌else◌, In-of-contains,
}
use ieum_agent.Value.{Entries}
use ieum_agent.Search.{Edge, targets, extend, reached}
use ieum_agent.Search.Reaches.{Reaches, start, step}
use ieum_agent.Search.Sound.{extend-All, targets-All, search_from-All}
use ieum_agent.Validator.Graph.{ends, inner, add_edge}
use ieum_agent.Validator.Refs.Errors.{predecessors, ancestors, add_back}

-- A path may be made longer at its start.
Reaches-prepend :
    (edges : List Edge) (a b : String) {c : String}
    → In (a, b) edges
    → Reaches edges b c
    → Reaches edges a c
Reaches-prepend edges a b m start = step start m
Reaches-prepend edges a b m (step r n) = step (Reaches-prepend edges a b m r) n

In-add_back :
    (known : List String) (e : Option String × Option String) (rest back : List Edge) (a b : String)
    → (In (a, b) back → In (b, a) rest)
    → In (a, b) (add_back known e back)
    → In (b, a) (add_edge known e rest)
In-add_back known (none, t) rest back a b later m = later m
In-add_back known (some s, none) rest back a b later m = later m
In-add_back known (some s, some t) rest back a b later m =
    split (contains known s && contains known t) m
  where
    split :
        (c : Bool)
        → In (a, b) (if c then (t, s) ∷ back else back)
        → In (b, a) (if c then (s, t) ∷ rest else rest)
    split true (inl e) = inl (λ i. ((e i).1, (e i).0))
    split true (inr n) = inr (later n)
    split false n = later n

-- The edges that are searched are those of the graph, turned round.
In-predecessors :
    (known : List String) (edges : List Entries) (a b : String)
    → In (a, b) (predecessors known edges)
    → In (b, a) (inner known edges)
unfolding predecessors inner
In-predecessors known [] a b m = elim m [ ]
In-predecessors known (edge ∷ edges) a b m =
    In-add_back known (ends edge) (inner known edges) (predecessors known edges) a b
      (In-predecessors known edges a b) m

-- A path leads from each ancestor to the node.
pub ancestors-Reaches :
    (known : List String) (edges : List Entries) (nid a : String)
    → contains (ancestors (predecessors known edges) nid) a ≡ true
    → Reaches (inner known edges) a nid
unfolding ancestors reached
ancestors-Reaches known edges nid a h =
    let preds = predecessors known edges in
    let P = λ (x : String). Reaches (inner known edges) x nid in
    let follow = λ (x y : String) (m : In (x, y) preds) (r : P x).
      Reaches-prepend (inner known edges) y x (In-predecessors known edges x y m) r in
    let next = targets-All P preds follow preds nid (λ b m. follow nid b m start) in
    All-In P a (ancestors preds nid)
      (search_from-All P preds follow _ (extend (targets preds nid) []) []
        (extend-All P (targets preds nid) [] next tt) tt)
      (In-of-contains a (ancestors preds nid) h)
