-- ===== src/Validator/Workflow/Tests.antt =====
-- The validator at a schedule followed by a mail whose text refers to the schedule.
use ieum_agent.Base.{◌≡◌, refl, [], string_eq}
use ieum_agent.Base.Dict.{lookup}
use ieum_agent.Value.{get, is_empty}
use ieum_agent.Value.Text.{
  codes, split, is_digits, take_text, drop_text, show, starts_codes, has_codes, starts_with,
  has_ref,
}
use ieum_agent.Paths.{get_by_path, parse, segment, get_segments, child}
use ieum_agent.Search.{reached, search_from, targets, extend, unseen}
use ieum_agent.Catalog.{event_entry, match_entry, trigger_type_of}
use ieum_agent.Validator.Problem.{clip, sid}
use ieum_agent.Validator.Cron.{cron_errors, is_cron, words}
use ieum_agent.Validator.Branches.{branch_allowed}
use ieum_agent.Validator.Graph.{
  is_trigger, ids, triggers, node_problems, node_errors, first_node, ends, end_errors,
  branch_errors, edge_errors, inner, orphan_errors, graph_errors,
}
use ieum_agent.Validator.Samples.{mail_catalog, no_parser, mail_nodes, mail_edges, five}
use ieum_agent.Validator.Collect.{collect, collect_from}
use ieum_agent.Validator.Fields.{value_type_ok, check, unused_field, input_errors, field_errors}
use ieum_agent.Validator.Strings.{at, push_entries, push_values, pop_all, size, iter_strings}
use ieum_agent.Validator.Refs.{span, bodies_from, bodies, parse_ref, last_index, head_part}
use ieum_agent.Validator.Refs.Errors.{
  predecessors, ancestors, declared_outputs, last_node, body_errors, bodies_errors, text_errors,
  texts_errors, ref_errors,
}
use ieum_agent.Validator.Workflow.{nodes_errors, found_errors, validate_workflow}
use ieum_agent.Validator.Workflow.Accepted.{Accepted, validate_workflow_sound}

no_mail_error : validate_workflow mail_catalog no_parser five mail_nodes mail_edges ≡ []
unfolding validate_workflow found_errors nodes_errors graph_errors node_errors node_problems
    is_trigger codes cron_errors is_cron words get is_empty sid clip take_text drop_text
    trigger_type_of event_entry lookup string_eq ids triggers edge_errors ends end_errors
    branch_errors first_node branch_allowed match_entry get_by_path parse segment split is_digits
    get_segments child inner orphan_errors reached search_from targets extend unseen collect
    collect_from value_type_ok check unused_field input_errors field_errors at push_entries
    push_values pop_all size iter_strings show span bodies bodies_from parse_ref last_index
    head_part predecessors ancestors declared_outputs last_node body_errors bodies_errors
    text_errors texts_errors ref_errors starts_codes has_codes starts_with has_ref
no_mail_error = refl

validate_workflow_sound_example : Accepted mail_catalog no_parser mail_nodes mail_edges
validate_workflow_sound_example =
    validate_workflow_sound mail_catalog no_parser five mail_nodes mail_edges no_mail_error
