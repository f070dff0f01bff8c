-- ===== src/Validator/Tests.antt =====
-- The validator at concrete inputs. An error is its message here, and its size is 5, but 199_998 for
-- the message "long".
use ieum_agent.Base.{
  ℕ, Option, All, none, some, false, ◌≡◌, refl, true, List, [], ◌∷◌, String, string_eq, ◌==◌,
  contains, if◌then◌else◌, length, ◌≤◌, ◌<◌, ◌+◌, ◌⊎◌, In, Distinct,
}
use ieum_agent.Value.{Value, null, text, list, dict, nil, cons, Entries, end, entry, get, is_empty}
use ieum_agent.Value.Text.{codes, split, is_digits, take_text, show}
use ieum_agent.Base.Dict.{lookup}
use ieum_agent.Paths.{get_by_path, parse, segment, get_segments, child}
use ieum_agent.Search.{reached, search_from, targets, extend, unseen}
use ieum_agent.Catalog.{Catalog, Entry, event_entry, match_entry, trigger_type_of}
use ieum_agent.Validator.Problem.{clip, sid}
use ieum_agent.Validator.Cron.{cron_errors, is_cron, words}
use ieum_agent.Validator.Branches.{
  branch_allowed, condition_branches, branch_keys, branch_edge_errors,
}
use ieum_agent.Validator.Graph.{
  is_trigger, ids, triggers, node_problems, node_errors, first_node, ends, end_errors,
  branch_errors, edge_errors, inner, orphan_errors, graph_errors,
}
use ieum_agent.Validator.Graph.Complete.{Timed, graph_errors_complete}
use ieum_agent.Validator.Graph.Sound.{WellFormed, graph_errors_sound}
use ieum_agent.Validator.Strings.{at, push_entries, push_values, pop_all, size, iter_strings}
use ieum_agent.Validator.Strings.Preorder.{strings, iter_strings-eq-strings}
use ieum_agent.Validator.Collect.{collect_from, collect, max_errors, max_error_bytes}
use ieum_agent.Validator.Collect.Limits.{total}
use ieum_agent.Validator.Collect.Answer.{collect_bounded, collect_faithful}

abbrev message_size : String → ℕ
message_size message = if message == "long" then 199_998 else 5

abbrev three_found : List String
three_found = "a" ∷ "b" ∷ "a" ∷ []

abbrev long_found : List String
long_found = "a" ∷ "long" ∷ "b" ∷ []

three_kept : collect message_size three_found ≡ "a" ∷ "b" ∷ []
unfolding collect collect_from string_eq
three_kept = refl

long_kept : collect message_size long_found ≡ "a" ∷ []
unfolding collect collect_from string_eq
long_kept = refl

collect_bounded_example :
    (length (collect message_size three_found) ≤ max_errors)
    × Distinct (collect message_size three_found)
    × ((total message_size (collect message_size three_found) ≤ max_error_bytes)
        ⊎ (length (collect message_size three_found) ≡ 1))
collect_bounded_example = collect_bounded message_size three_found

collect_faithful_example :
    (contains (collect message_size long_found) "b" ≡ true → In "b" long_found)
    × (In "b" long_found
        → (contains (collect message_size long_found) "b" ≡ true)
          ⊎ ((length (collect message_size long_found) ≡ max_errors)
              ⊎ ((x : String) × In x long_found
                  × (max_error_bytes
                      < total message_size (collect message_size long_found) + message_size x))))
    × (collect message_size long_found ≡ [] → long_found ≡ [])
collect_faithful_example = collect_faithful message_size long_found "b"

-- A schedule, a condition with the branches "big" and "else", and a node for each.
abbrev plain_entry : String → String → Option String → Entry
plain_entry id node_type trigger_type = record {
  id = id;
  event = id;
  title = id;
  node_type = node_type;
  app = "ieum";
  kind = "";
  provider = some "ieum";
  trigger_type = trigger_type;
  tool_key = "";
  is_builder = true;
  is_preset = false;
  rules = [];
  fixed_config = end;
  input_fields = [];
  output_keys = "out" ∷ [];
  outputs_from = "";
  output_dynamic = false;
}

abbrev cases_catalog : Catalog
cases_catalog =
    ("cron", plain_entry "cron" "TRIGGER" (some "SCHEDULE"))
    ∷ ("if", plain_entry "if" "CONDITION" none)
    ∷ []

abbrev plain_node : String → String → String → Value → Entries
plain_node id node_type event config =
    entry "id" (text id)
      (entry "type" (text node_type) (entry "event" (text event) (entry "config" config end)))

abbrev big_branch : Value
big_branch = dict (entry "branches" (list (cons (dict (entry "key" (text "big") end)) nil)) end)

abbrev four_nodes : List Entries
four_nodes =
    plain_node "t" "trigger" "cron" (dict (entry "cron" (text "0 9 * * 1") end))
    ∷ plain_node "c" "CONDITION" "if" big_branch
    ∷ plain_node "x" "ACTION" "mail" null
    ∷ plain_node "y" "ACTION" "mail" null
    ∷ []

abbrev one_edge : String → String → Value → Entries
one_edge source target value =
    entry "source" (text source) (entry "target" (text target) (entry "conditionType" value end))

abbrev three_edges : List Entries
three_edges =
    one_edge "t" "c" null ∷ one_edge "c" "x" (text "big") ∷ one_edge "c" "y" (text "else") ∷ []

no_error : graph_errors cases_catalog four_nodes three_edges ≡ []
unfolding graph_errors node_errors node_problems is_trigger codes cron_errors is_cron words get
    is_empty sid clip take_text trigger_type_of event_entry lookup string_eq ids triggers
    edge_errors ends end_errors branch_errors first_node branch_allowed match_entry
    condition_branches get_by_path parse segment split is_digits get_segments child branch_keys
    branch_edge_errors inner orphan_errors reached search_from targets extend unseen
no_error = refl

graph_errors_sound_example : WellFormed cases_catalog four_nodes three_edges
graph_errors_sound_example = graph_errors_sound cases_catalog four_nodes three_edges no_error

four-Timed : All (Timed cases_catalog) four_nodes
unfolding cron_errors is_cron words codes get is_empty trigger_type_of event_entry lookup string_eq
four-Timed = (λ nid. refl, (λ nid. refl, (λ nid. refl, (λ nid. refl, tt))))

graph_errors_complete_example : graph_errors cases_catalog four_nodes three_edges ≡ []
graph_errors_complete_example =
    graph_errors_complete cases_catalog four_nodes three_edges four-Timed
      (graph_errors_sound cases_catalog four_nodes three_edges no_error)

abbrev deep_value : Value
deep_value = dict (
    entry "a" (list (cons (text "x") (cons null (cons (text "y") nil)))) (entry "b" (text "z") end))

deep_strings :
    iter_strings deep_value "config"
    ≡ ("config.a.0", "x") ∷ ("config.a.2", "y") ∷ ("config.b", "z") ∷ []
unfolding iter_strings pop_all size push_entries push_values at take_text show
deep_strings = refl

iter_strings_example : iter_strings deep_value "config" ≡ strings "config" deep_value
iter_strings_example = iter_strings-eq-strings deep_value "config"
