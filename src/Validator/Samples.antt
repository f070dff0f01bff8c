-- ===== src/Validator/Samples.antt =====
-- A small catalogue and a workflow, for the tests: a schedule followed by a mail whose text refers to
-- the schedule.
use ieum_agent.Base.{ℕ, String, true, false, Option, none, some, List, [], ◌∷◌}
use ieum_agent.Value.{Value, text, dict, Entries, end, entry}
use ieum_agent.Catalog.{Catalog, Entry, Field, field, none_left}
use ieum_agent.Validator.Problem.{Error}
use ieum_agent.Validator.Fields.{Parser}

abbrev pub to_field : Field
to_field =
    field
      (record {
        key = "to";
        title = "To";
        path = "config.to";
        ftype = "string";
        required = true;
        has_default = false;
        is_list = false;
        no_ref = true;
        choices = [];
        options_source = "";
        options_inputs = [];
        fields_source = "";
        fields_inputs = [];
      })
      none_left

abbrev pub entry_with : String → String → Option String → List Field → Entry
entry_with id node_type trigger_type fields = record {
  id = id;
  event = id;
  title = id;
  node_type = node_type;
  app = "ieum";
  kind = "action";
  provider = some "ieum";
  trigger_type = trigger_type;
  tool_key = "";
  is_builder = true;
  is_preset = false;
  rules = [];
  fixed_config = end;
  input_fields = fields;
  output_keys = "out" ∷ [];
  outputs_from = "";
  output_dynamic = false;
}

abbrev pub mail_catalog : Catalog
mail_catalog =
    ("cron", entry_with "cron" "TRIGGER" (some "SCHEDULE") [])
    ∷ ("mail", entry_with "mail" "ACTION" none (to_field ∷ []))
    ∷ []

abbrev pub no_parser : Parser
no_parser = record { reads_int = λ s. false; reads_float = λ s. false; reads_json = λ s. false }

abbrev pub node_value : String → String → String → Entries → Value
node_value id node_type event config = dict (
    entry "id" (text id) (
      entry "type" (text node_type)
        (entry "event" (text event) (entry "config" (dict config) end))))

abbrev pub mail_nodes : List Value
mail_nodes =
    node_value "t" "trigger" "cron" (entry "cron" (text "0 9 * * 1") end)
    ∷ node_value "m" "ACTION" "mail"
        (entry "to" (text "a@b") (entry "body" (text "see {{nodes.t.output.out.0}}!") end))
    ∷ []

abbrev pub mail_edges : List Value
mail_edges = dict (entry "source" (text "t") (entry "target" (text "m") end)) ∷ []

abbrev pub five : Error → ℕ
five e = 5
