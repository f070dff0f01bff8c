-- ===== src/Builder/Session.antt =====
-- One turn of the conversation, core/builder/engine.py: the start is judged, the model calls tools in
-- any order, also at the same time, and the turn ends with a question or without.
pub mod Consent
pub mod Moves
pub mod Ready
use ieum_agent.Base.{
  ℕ, ◌+◌, ◌*◌, String, Bool, true, false, Option, none, some, List, [], ◌∷◌, ◌==◌, string_eq,
  if◌then◌else◌,
}
use ieum_agent.Value.{Entries, get}
use ieum_agent.Value.{Value}
use ieum_agent.Builder.State.{Codec, node_hash}
use ieum_agent.Builder.Models.{Choice}
use ieum_agent.Builder.Turn.{
  Pending, pick, confirm, Confirmed, State, Turn, turn_seconds, find_node, ask_model, Asked,
}
use ieum_agent.Builder.Testing.{Checks, Call, Begun, ended, called, begin_test, Result}
use ieum_agent.Builder.Finish.{Reply, end_test, finish}
use ieum_agent.Builder.Start.{Judged}

-- What the model may do. `edit` covers the tools that change the nodes and the edges only.
pub data Move : Type 0 where
  test : (id : String) (now : ℕ) (loaded : Option (List Choice)) → Move
  answer : Call → Reply → Move
  complete : (now : ℕ) (loaded : Option (List Choice)) → Move
  pick_card : (id : String) (now : ℕ) (loaded : Option (List Choice)) → Move
  edit : (nodes edges : List Entries) → Move

-- `calls` are the calls of the backend's test, the last one first.
pub record System : Type 0 where
  pub state : State
  pub turn : Turn
  pub calls : List Call

-- `Turn(...)` in build_turn, at the time `now`
abbrev pub new_turn : Option Confirmed → List Entries → List Entries → ℕ → Turn
new_turn confirmed nodes edges now = record {
  nodes = nodes;
  edges = edges;
  confirmed = confirmed;
  confirm_used = false;
  lookups = 0;
  test_runs = 0;
  pending = none;
  model_choices = none;
  deadline = now + turn_seconds * 1000;
}

abbrev pub begin_turn : Judged → List Entries → ℕ → System
begin_turn judged edges now = record {
  state = judged.state;
  turn = new_turn judged.state.confirmed judged.nodes edges now;
  calls = [];
}

-- the calls after the first half of test_node
abbrev pub add_call : Begun → List Call → List Call
add_call (ended r) calls = calls
add_call (called call) calls = call ∷ calls

abbrev pub is_reasoning : Value → Bool
is_reasoning (Value.text s) = s == "ai.reasoning"
is_reasoning v = false

abbrev pub pick_node : Codec → ℕ → Option (List Choice) → Option Entries → Turn → Turn
pick_node codec now loaded none turn = turn
pick_node codec now loaded (some node) turn =
    if is_reasoning (get "event" node) then (ask_model codec now loaded node turn).0 else turn

-- `pick_model`
unfoldable pub pick_model : Codec → ℕ → Option (List Choice) → String → Turn → Turn
pick_model codec now loaded id turn = pick_node codec now loaded (find_node id turn.nodes) turn

unfoldable pub advance_turn : Checks → Move → System → System
advance_turn c (test id now loaded) s =
    let found = begin_test c now loaded id s.state s.turn in
    record { state = found.0; turn = found.1; calls = add_call found.2 s.calls }
advance_turn c (answer call reply) s =
    let found = end_test c call reply s.state s.turn in
    record { state = found.0; turn = found.1; calls = s.calls }
advance_turn c (complete now loaded) s = record s { turn = (finish c now loaded s.state s.turn).0 }
advance_turn c (pick_card id now loaded) s = record s {
  turn = pick_model c.codec now loaded id s.turn;
}
advance_turn c (edit nodes edges) s = record s {
  turn = record s.turn { nodes = nodes; edges = edges };
}

unfoldable pub run_turn : Checks → List Move → System → System
run_turn c [] s = s
run_turn c (m ∷ ms) s = run_turn c ms (advance_turn c m s)

abbrev renew : Codec → Pending → Option Entries → Option Pending
renew codec (pick id h choices) none = none
renew codec (pick id h choices) (some node) = some (pick id (node_hash codec node) choices)
renew codec (confirm id h skip_only) found = some (confirm id h skip_only)

abbrev pending_id : Pending → String
pending_id (pick id h choices) = id
pending_id (confirm id h skip_only) = id

abbrev end_pending : Codec → Option Pending → List Entries → Option Pending
end_pending codec none nodes = none
end_pending codec (some p) nodes = renew codec p (find_node (pending_id p) nodes)

-- The end of build_turn: the question is stored, and the consent forgotten. `failed` is an error of
-- the model's provider, after which no question is asked.
unfoldable pub end_turn : Codec → Bool → System → State
end_turn codec failed s = record s.state {
  confirmed = none;
  pending = if failed then none else end_pending codec s.turn.pending s.turn.nodes;
}
