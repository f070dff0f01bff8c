-- ===== src/Builder/State.antt =====
-- core/builder/state.py: the hashes of a node and of a workflow, and how far a node has come. A node
-- has a text id (the schema of the request sees to it).
use ieum_agent.Base.{
  String, Bool, true, false, ◌&&◌, ◌||◌, Option, none, some, List, [], ◌∷◌, ◌==◌, string_eq,
  contains, if◌then◌else◌, map, select,
}
use ieum_agent.Base.Dict.{Dict, lookup, insert, erase}
use ieum_agent.Value.{Value, text, dict, Entries, end, get, entries, of_entries}
use ieum_agent.Value.Text.{◌<>◌, codes}
use ieum_agent.Catalog.{codes_before}

-- Python's `str` and `json.dumps` (with sorted keys), and sha256 as a hex text.
pub record Codec : Type 0 where
  pub str : Value → String
  pub dumps : Entries → String
  pub dumps_workflow : List (String × String) → List (String × String × String) → String
  pub sha256 : String → String

pub data Outcome : Type 0 where
  success failed skipped : Outcome

pub record Test : Type 0 where
  pub status : Outcome
  pub hash : String
  pub fields : List String

pub data NodeStatus : Type 0 where
  tested : Outcome → NodeStatus
  passed untested : NodeStatus

-- `node["config"]` if it is a dict, else an empty one
abbrev pub config_of : Value → Entries
config_of (dict es) = es
config_of v = end

abbrev text_of : Value → String
text_of (text s) = s
text_of v = ""

-- `node["id"]`
abbrev pub key_of : Entries → String
key_of node = text_of (get "id" node)

unfoldable pub node_hash : Codec → Entries → String
unfolding erase get
node_hash codec node = codec.sha256 (
    codec.str (get "event" node)
    <> codec.dumps (of_entries (erase "brand" (entries (config_of (get "config" node))))))

-- Tuples of texts in Python's order
pair_before : String × String → String × String → Bool
pair_before (a, b) (c, d) =
    codes_before (codes a) (codes c) || a == c && codes_before (codes b) (codes d)

triple_before : String × String × String → String × String × String → Bool
triple_before (a, b, c) (d, e, f) =
    codes_before (codes a) (codes d) || a == d && pair_before (b, c) (e, f)

place : {A : Type 0} → (A → A → Bool) → A → List A → List A
place before x [] = x ∷ []
place before x (y ∷ ys) = if before y x then y ∷ place before x ys else x ∷ y ∷ ys

-- `sorted`
unfoldable pub sorted : {A : Type 0} → (A → A → Bool) → List A → List A
unfolding place
sorted before [] = []
sorted before (x ∷ xs) = place before x (sorted before xs)

unfoldable pub workflow_hash : Codec → List Entries → List Entries → String
unfolding sorted pair_before triple_before node_hash codes
workflow_hash codec nodes edges = codec.sha256 (
    codec.dumps_workflow
      (sorted pair_before (map (λ n. (codec.str (get "id" n), node_hash codec n)) nodes))
      (sorted triple_before (
        map
          (λ e. (
            codec.str (get "source" e),
            codec.str (get "target" e),
            codec.str (get "conditionType" e),
          ))
          edges)))

baseline_from : Codec → Dict String → List Entries → Dict String
baseline_from codec d [] = d
baseline_from codec d (n ∷ nodes) =
    baseline_from codec (insert (key_of n) (node_hash codec n) d) nodes

unfoldable pub baseline_of : Codec → List Entries → Dict String
unfolding baseline_from node_hash insert
baseline_of codec nodes = baseline_from codec [] nodes

abbrev from_baseline : Option String → String → NodeStatus
from_baseline none h = untested
from_baseline (some b) h = if b == h then passed else untested

abbrev from_test : Option Test → Option String → String → NodeStatus
from_test none base h = from_baseline base h
from_test (some t) base h = if t.hash == h then tested t.status else untested

unfoldable pub node_status : Codec → Dict Test → Dict String → Entries → NodeStatus
node_status codec tests baseline node =
    from_test (lookup (key_of node) tests) (lookup (key_of node) baseline) (node_hash codec node)

-- `in DONE_STATUSES`
abbrev pub is_done : NodeStatus → Bool
is_done (tested success) = true
is_done (tested skipped) = true
is_done (tested failed) = false
is_done passed = true
is_done untested = false

unfoldable pub prune : {V : Type 0} → Dict V → List String → Dict V
prune d ids = select (λ (k, v). contains ids k) d
