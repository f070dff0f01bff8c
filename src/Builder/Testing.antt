-- ===== src/Builder/Testing.antt =====
-- `test_node` and `finish` of core/builder/tools.py, and `how_to_test` of core/builder/hitl.py.
-- test_node is cut in two at its wait for the backend: other tools may run in between. What is said
-- to the user is left out.
use ieum_agent.Base.{
  ℕ, ◌+◌, String, Bool, true, false, not, ◌&&◌, Option, none, some, List, [], ◌∷◌, ◌==◌, string_eq,
  if◌then◌else◌, map, select, any, leb,
}
use ieum_agent.Base.Dict.{Dict, insert}
use ieum_agent.Value.{dict, Entries, get}
use ieum_agent.Search.{Edge, targets, extend, reached}
use ieum_agent.Catalog.{Catalog, Entry, event_entry}
use ieum_agent.Validator.Problem.{Error, Code, trigger_count, orphan_node, edge_invalid}
use ieum_agent.Validator.Fields.{Parser, is_filled}
use ieum_agent.Validator.Branches.{is_text}
use ieum_agent.Validator.Graph.{ends}
use ieum_agent.Validator.Workflow.{validate_workflow}
use ieum_agent.Builder.State.{
  Codec, Outcome, skipped, NodeStatus, tested, node_hash, node_status, config_of,
}
use ieum_agent.Builder.Models.{Choice}
use ieum_agent.Builder.Turn.{
  confirm, Confirmed, State, Turn, max_tests_per_turn, min_test_seconds, is_short, find_node, hold,
  Asked, ask_model,
}

pub data Kind : Type 0 where
  write read app_trigger free listen : Kind

abbrev trigger_kind : Entry → Kind
trigger_kind e = elim e.trigger_type [
  | some t ↦ if t == "WEBHOOK" then listen else by_provider e.provider
  | none ↦ by_provider e.provider
]
  where
    by_provider : Option String → Kind
    by_provider none = free
    by_provider (some p) = if p == "ieum" then free else app_trigger

abbrev entry_kind : Option Entry → Kind
entry_kind none = write
entry_kind (some e) =
    if e.event == "ai.agent"
    then write
    else if e.node_type == "ACTION"
    then (if e.kind == "action" then write else read)
    else if e.node_type == "TRIGGER"
    then trigger_kind e
    else free

unfoldable pub how_to_test : Catalog → Entries → Kind
unfolding event_entry get
how_to_test catalog node =
    if is_text "http.request" (get "event" node)
    then write
    else entry_kind (event_entry catalog node)

-- What a workflow is checked with.
pub record Checks : Type 0 where
  pub catalog : Catalog
  pub parser : Parser
  pub codec : Codec
  pub size_of : Error → ℕ

abbrev is_graph_code : Code → Bool
is_graph_code trigger_count = true
is_graph_code orphan_node = true
is_graph_code edge_invalid = true
is_graph_code _ = false

abbrev names : String → Option String → Bool
names id none = false
names id (some other) = other == id

abbrev pub workflow_errors : Checks → Turn → List Error
workflow_errors c turn =
    validate_workflow c.catalog c.parser c.size_of (map dict turn.nodes) (map dict turn.edges)

-- `node_errors` of core/builder/fields.py
unfoldable pub errors_of_node : Checks → Turn → String → List Error
errors_of_node c turn id =
    select (λ (e : Error). names id e.node_id && not (is_graph_code e.code))
      (workflow_errors c turn)

abbrev back_edge : List Entries → Option String × Option String → List Edge → List Edge
back_edge nodes (some source, some target) rest = elim (find_node source nodes) [
  | none ↦ rest
  | some n ↦ (target, source) ∷ rest
]
back_edge nodes _ rest = rest

-- The edges that `_ancestors` follows; a source that is no node is left out here, and passed over
-- there.
unfoldable pub back_edges : List Entries → List Entries → List Edge
unfolding ends find_node
back_edges nodes [] = []
back_edges nodes (edge ∷ edges) = back_edge nodes (ends edge) (back_edges nodes edges)

unfoldable pub nodes_before : Turn → String → List String
unfolding back_edges targets extend reached
nodes_before turn id =
    let back = back_edges turn.nodes turn.edges in reached back (extend (targets back id) [])

abbrev pub record_test : String → Outcome → String → List String → State → State
record_test id outcome h names state = record state {
  tests = insert id (record { status = outcome; hash = h; fields = names }) state.tests;
}

abbrev baseline_or_empty : Option (Dict String) → Dict String
baseline_or_empty none = []
baseline_or_empty (some d) = d

abbrev pub status_of : Checks → State → Entries → NodeStatus
status_of c state node = node_status c.codec state.tests (baseline_or_empty state.baseline) node

abbrev is_skipped : NodeStatus → Bool
is_skipped (tested skipped) = true
is_skipped _ = false

-- `turn.node(m) is not None and node_status(...) == "skipped"`
abbrev pub was_skipped : Checks → State → Turn → String → Bool
was_skipped c state turn id = elim (find_node id turn.nodes) [
  | none ↦ false
  | some n ↦ is_skipped (status_of c state n)
]

abbrev pub confirms : Option Confirmed → String → String → Bool
confirms none id h = false
confirms (some c) id h = c.node_id == id && c.hash == h

-- An AI node without a key.
abbrev pub lacks_key : Entries → Bool
lacks_key node =
    is_text "ai.reasoning" (get "event" node)
    && not (is_filled (get "credentialId" (config_of (get "config" node))))

pub data Result : Type 0 where
  no_node not_run already_tested card_first awaiting limit later missing_upstream failure : Result
  passed_over passed_over_later : Result
  blocked : List Error → Result
  asked : Asked → Result
  ran : Outcome → List String → Result
  unfinished : List String → List Error → Result

-- The call of the backend that test_node waits for.
pub record Call : Type 0 where
  pub node_id : String
  pub kind : Kind
  pub hash : String
  pub sent : Entries

-- How the first half ends.
pub data Begun : Type 0 where
  ended : Result → Begun
  called : Call → Begun

abbrev pub is_write : Kind → Bool
is_write write = true
is_write _ = false

module _ (c : Checks) (now : ℕ) (loaded : Option (List Choice)) where
  abbrev pub spend : Kind → State → Turn → State × Turn
  spend write state turn = (
    record state { confirmed = none },
    record turn { confirm_used = true; test_runs = turn.test_runs + 1 },
  )
  spend _ state turn = (state, record turn { test_runs = turn.test_runs + 1 })

  abbrev pub run_call : Call → State → Turn → State × Turn × Begun
  run_call call state turn =
      let (state', turn') = spend call.kind state turn in (state', turn', called call)

  abbrev ask_card : State → Turn × Asked → State × Turn × Begun
  ask_card state (turn, a) = (state, turn, ended (asked a))

  -- the key, the number of tests and the time
  unfoldable pub begin_call : Call → State → Turn → State × Turn × Begun
  begin_call call state turn =
      if lacks_key call.sent
      then ask_card state (ask_model c.codec now loaded call.sent turn)
      else if leb max_tests_per_turn turn.test_runs
      then (state, turn, ended limit)
      else if is_short min_test_seconds now turn
      then (state, turn, ended later)
      else run_call call state turn

  abbrev pub held : State → Turn × Bool → State × Turn × Begun
  held state (turn, true) = (state, turn, ended awaiting)
  held state (turn, false) = (state, turn, ended card_first)

  -- a node that writes, with the user's consent or without
  unfoldable pub begin_write : Call → State → Turn → State × Turn × Begun
  begin_write call state turn =
      let confirmed = confirms turn.confirmed call.node_id call.hash in
      if confirmed && turn.confirm_used
      then (state, turn, ended already_tested)
      else if confirmed
      then begin_call call state turn
      else held state (
          hold
            (confirm call.node_id call.hash
              (any (was_skipped c state turn) (nodes_before turn call.node_id)))
            turn)

  abbrev pub begin_kind : Call → List Error → Kind → State → Turn → State × Turn × Begun
  begin_kind call errors listen state turn =
      (record_test call.node_id skipped call.hash [] state, turn, ended passed_over)
  begin_kind call (e ∷ errors) kind state turn = (state, turn, ended (blocked (e ∷ errors)))
  begin_kind call [] write state turn = begin_write call state turn
  begin_kind call [] kind state turn = begin_call call state turn

  abbrev pub call_of : String → Entries → Call
  call_of id node = record {
    node_id = id;
    kind = how_to_test c.catalog node;
    hash = node_hash c.codec node;
    sent = node;
  }

  abbrev pub begin_node : String → Option Entries → State → Turn → State × Turn × Begun
  begin_node id none state turn = (state, turn, ended no_node)
  begin_node id (some node) state turn =
      begin_kind (call_of id node) (errors_of_node c turn id) (how_to_test c.catalog node) state
        turn

  -- `test_node` up to `turn.backend.test_node`
  unfoldable pub begin_test : String → State → Turn → State × Turn × Begun
  begin_test id state turn = begin_node id (find_node id turn.nodes) state turn
