-- ===== src/Builder/Start.antt =====
-- `judge_turn_start` of core/builder/engine.py and `classify_reply` of core/builder/hitl.py: what the
-- user's message means for the question that is open. The input by which the tools check addresses
-- (remember_user_input) is left out.
use ieum_agent.Base.{
  String, Bool, true, false, not, ◌&&◌, Option, none, some, List, [], ◌∷◌, ◌==◌, string_eq,
  contains, if◌then◌else◌, map, select,
}
use ieum_agent.Base.Dict.{Dict, insert}
use ieum_agent.Value.{Entries}
use ieum_agent.Value.Text.{split}
use ieum_agent.Builder.State.{
  Codec, Test, skipped, node_hash, workflow_hash, baseline_of, prune, key_of,
}
use ieum_agent.Builder.Models.{Choice, match_choice, apply_choice}
use ieum_agent.Builder.Turn.{Pending, pick, confirm, finish_id, Confirmed, State, find_node}

pub data Answer : Type 0 where
  yes_answer no_answer other_answer : Answer

abbrev yes_words : List String
yes_words = "네" ∷ "예" ∷ "응" ∷ "ㅇㅇ" ∷ "ㄱ" ∷ "좋아" ∷ "진행" ∷ "테스트해" ∷ "yes" ∷ "ok" ∷ []

abbrev no_words : List String
no_words = "아니" ∷ "아니요" ∷ "건너뛰기" ∷ "건너뛰어" ∷ "스킵" ∷ "no" ∷ []

-- `letters` stands for `re.sub(r"[\W_]+", "", text).lower()`.
unfoldable pub classify_reply : (String → String) → String → Answer
classify_reply letters prompt =
    if contains yes_words (letters prompt)
    then yes_answer
    else if contains no_words (letters prompt)
    then no_answer
    else other_answer

pub record Judged : Type 0 where
  pub nodes : List Entries
  pub state : State
  pub is_done : Bool

abbrev baseline_from : Codec → Option (Dict String) → List Entries → Dict String
baseline_from codec none nodes = baseline_of codec nodes
baseline_from codec (some d) nodes = d

abbrev before_bar : List String → String
before_bar [] = ""
before_bar (s ∷ rest) = s

abbrev kept_options : List String → Dict (Dict String) → Dict (Dict String)
kept_options ids seen = select (λ (k, v). contains ids (before_bar (split b'|' k))) seen

-- The first node with the id, with the choice written into it.
unfoldable pub write_choice : String → Choice → List Entries → List Entries
unfolding apply_choice
write_choice id choice [] = []
write_choice id choice (n ∷ nodes) =
    if key_of n == id then apply_choice n choice ∷ nodes else n ∷ write_choice id choice nodes

abbrev picked :
    Codec → String → String → Option Choice → Option Entries → List Entries → List Entries
picked codec id h none target nodes = nodes
picked codec id h (some choice) none nodes = nodes
picked codec id h (some choice) (some n) nodes =
    if node_hash codec n == h then write_choice id choice nodes else nodes

-- the nodes after the answer to a card
abbrev judge_nodes : Codec → String → Option Pending → List Entries → List Entries
judge_nodes codec prompt (some (pick id h choices)) nodes =
    picked codec id h (match_choice prompt choices) (find_node id nodes) nodes
judge_nodes codec prompt pending nodes = nodes

-- `reply == "no"`, or yes where only skipping was asked
abbrev skips : Answer → Bool → Bool
skips no_answer skip_only = true
skips yes_answer skip_only = skip_only
skips other_answer skip_only = false

abbrev pub agrees : Answer → Bool
agrees yes_answer = true
agrees _ = false

abbrev judge_tests : Answer → Option Pending → Dict Test → Dict Test
judge_tests a (some (confirm id h skip_only)) tests =
    if not (id == finish_id) && skips a skip_only
    then insert id (record { status = skipped; hash = h; fields = [] }) tests
    else tests
judge_tests a pending tests = tests

unfoldable pub judge_confirmed : Answer → Option Pending → Option Confirmed
judge_confirmed a (some (confirm id h skip_only)) =
    if not (id == finish_id) && (agrees a && not skip_only)
    then some (record { node_id = id; hash = h })
    else none
judge_confirmed a pending = none

unfoldable pub judge_done : Codec → Answer → Option Pending → List Entries → List Entries → Bool
judge_done codec a (some (confirm id h skip_only)) nodes edges =
    id == finish_id && (agrees a && workflow_hash codec nodes edges == h)
judge_done codec a pending nodes edges = false

-- `judge_turn_start`
unfoldable pub judge_turn_start :
    Codec → (String → String) → State → String → List Entries → List Entries → Judged
judge_turn_start codec letters state prompt nodes edges =
    let a = classify_reply letters prompt in
    let ids = map key_of nodes in
    record {
      nodes = judge_nodes codec prompt state.pending nodes;
      state = record {
        tests = judge_tests a state.pending (prune state.tests ids);
        baseline = some (baseline_from codec state.baseline nodes);
        pending = none;
        confirmed = judge_confirmed a state.pending;
        options_seen = kept_options ids state.options_seen;
      };
      is_done = judge_done codec a state.pending nodes edges;
    }
