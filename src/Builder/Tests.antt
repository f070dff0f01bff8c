-- ===== src/Builder/Tests.antt =====
-- The conversation at concrete inputs: a mail that is tested after a yes, and the end of a session.
use ieum_agent.Base.{
  ℕ, ◌≤◌, ◌≡◌, refl, String, false, none, some, List, [], ◌∷◌, length, All, string_eq,
}
use ieum_agent.Base.Dict.{lookup, erase}
use ieum_agent.Value.{Value, text, get, is_empty}
use ieum_agent.Value.Text.{
  codes, split, is_digits, take_text, drop_text, show, starts_codes, has_codes, starts_with,
  has_ref, is_blank, ◌<>◌,
}
use ieum_agent.Paths.{get_by_path, parse, segment, get_segments, child}
use ieum_agent.Search.{reached, search_from, targets, extend, unseen}
use ieum_agent.Catalog.{event_entry, match_entry, trigger_type_of}
use ieum_agent.Validator.Problem.{clip, sid}
use ieum_agent.Validator.Cron.{cron_errors, is_cron, words}
use ieum_agent.Validator.Branches.{branch_allowed}
use ieum_agent.Validator.Graph.{
  is_trigger, ids, triggers, node_problems, node_errors, first_node, ends, end_errors,
  branch_errors, edge_errors, inner, orphan_errors, graph_errors,
}
use ieum_agent.Validator.Collect.{collect, collect_from}
use ieum_agent.Validator.Fields.{value_type_ok, check, unused_field, input_errors, field_errors}
use ieum_agent.Validator.Strings.{at, push_entries, push_values, pop_all, size, iter_strings}
use ieum_agent.Validator.Refs.{span, bodies_from, bodies, parse_ref, last_index, head_part}
use ieum_agent.Validator.Refs.Errors.{
  predecessors, ancestors, declared_outputs, last_node, body_errors, bodies_errors, text_errors,
  texts_errors, ref_errors,
}
use ieum_agent.Validator.Workflow.{dicts, nodes_errors, found_errors, validate_workflow}
use ieum_agent.Validator.Samples.{mail_catalog, no_parser, mail_nodes, mail_edges, five}
use ieum_agent.Builder.State.{
  Codec, success, node_hash, workflow_hash, node_status, prune, baseline_of,
}
use ieum_agent.Builder.Turn.{confirm, Turn, State, find_node, hold, max_tests_per_turn}
use ieum_agent.Builder.Testing.{
  Checks, awaiting, how_to_test, errors_of_node, begin_test, begin_write, begin_call,
}
use ieum_agent.Builder.Finish.{finish}
use ieum_agent.Builder.Start.{classify_reply, judge_confirmed, judge_turn_start}
use ieum_agent.Builder.Session.{Move, test, new_turn, advance_turn, run_turn}
use ieum_agent.Builder.Session.Consent.{writes}
use ieum_agent.Builder.Session.Consent.Turns.{Consensual, turn_of, write_consented}
use ieum_agent.Builder.Session.Ready.{Ready, finish-Ready}

abbrev to_name : Value → String
to_name (text s) = s
to_name v = "?"

abbrev plain_codec : Codec
plain_codec = record {
  str = to_name;
  dumps = λ es. to_name (get "to" es);
  dumps_workflow = λ nodes edges. "flow";
  sha256 = λ s. "#" <> s;
}

abbrev mail_checks : Checks
mail_checks = record {
  catalog = mail_catalog;
  parser = no_parser;
  codec = plain_codec;
  size_of = five;
}

abbrev same_letters : String → String
same_letters s = s

abbrev asked_state : State
asked_state = record {
  tests = [];
  baseline = some [];
  pending = some (confirm "m" "#maila@b" false);
  confirmed = none;
  options_seen = [];
}

abbrev two_tests : List Move
two_tests = test "m" 0 none ∷ test "m" 5 none ∷ []

abbrev tested_turn : ℕ
tested_turn =
    length
      (turn_of mail_checks same_letters asked_state "네" (dicts mail_nodes) (dicts mail_edges) 0
        two_tests).calls

tested_once : tested_turn ≡ 1
unfolding validate_workflow found_errors nodes_errors graph_errors node_errors node_problems
    is_trigger codes cron_errors is_cron words get is_empty sid clip take_text drop_text
    trigger_type_of event_entry lookup string_eq ids triggers edge_errors ends end_errors
    branch_errors first_node branch_allowed match_entry get_by_path parse segment split is_digits
    get_segments child inner orphan_errors reached search_from targets extend unseen collect
    collect_from value_type_ok check unused_field input_errors field_errors at push_entries
    push_values pop_all size iter_strings show span bodies bodies_from parse_ref last_index
    head_part predecessors ancestors declared_outputs last_node body_errors bodies_errors
    text_errors texts_errors ref_errors starts_codes has_codes starts_with has_ref run_turn
    advance_turn begin_test begin_write begin_call how_to_test errors_of_node find_node node_hash
    erase judge_turn_start classify_reply judge_confirmed baseline_of prune
tested_once = refl

write_consented_example :
    (length
        (turn_of mail_checks same_letters asked_state "네"
          (dicts mail_nodes)
          (dicts mail_edges)
          0
          two_tests).calls
      ≤ max_tests_per_turn)
    × (length (
          writes
            (turn_of mail_checks same_letters asked_state "네"
              (dicts mail_nodes)
              (dicts mail_edges)
              0
              two_tests).calls)
        ≤ 1)
    × All
        (Consensual mail_checks asked_state.pending (classify_reply same_letters "네"))
        (turn_of mail_checks same_letters asked_state "네"
          (dicts mail_nodes)
          (dicts mail_edges)
          0
          two_tests).calls
write_consented_example =
    write_consented mail_checks same_letters asked_state "네" (dicts mail_nodes) (dicts mail_edges) 0
      two_tests

abbrev ready_state : State
ready_state = record {
  tests = ("m", record { status = success; hash = "#maila@b"; fields = [] }) ∷ [];
  baseline = some (("t", "#cron?") ∷ []);
  pending = none;
  confirmed = none;
  options_seen = [];
}

abbrev ready_turn : Turn
ready_turn = new_turn none (dicts mail_nodes) (dicts mail_edges) 0

asks_to_finish : (finish mail_checks 0 none ready_state ready_turn).1 ≡ awaiting
unfolding validate_workflow found_errors nodes_errors graph_errors node_errors node_problems
    is_trigger codes cron_errors is_cron words get is_empty sid clip take_text drop_text
    trigger_type_of event_entry lookup string_eq ids triggers edge_errors ends end_errors
    branch_errors first_node branch_allowed match_entry get_by_path parse segment split is_digits
    get_segments child inner orphan_errors reached search_from targets extend unseen collect
    collect_from value_type_ok check unused_field input_errors field_errors at push_entries
    push_values pop_all size iter_strings show span bodies bodies_from parse_ref last_index
    head_part predecessors ancestors declared_outputs last_node body_errors bodies_errors
    text_errors texts_errors ref_errors starts_codes has_codes starts_with has_ref finish
    node_status node_hash erase hold workflow_hash is_blank
asks_to_finish = refl

finish-Ready_example :
    Ready mail_checks ready_state ready_turn (finish mail_checks 0 none ready_state ready_turn).0
finish-Ready_example = finish-Ready mail_checks 0 none ready_state ready_turn asks_to_finish
