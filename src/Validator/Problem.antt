-- ===== src/Validator/Problem.antt =====
-- The errors of core/validators/static_validator.py. The wording of a message is left out; what it
-- says about the input is kept as the arguments of its reason: texts are clipped as in the source,
-- other values are kept whole.
use native.Mathlib.Decide.{ℕ_discrete}
use ieum_agent.Base.{
  Eq, ℕ, String, Option, none, some, List, if◌then◌else◌, length, leb, ◌==◌, string_eq,
}
use ieum_agent.Value.{Value, as_text}
use ieum_agent.Value.Text.{codes, take_text, ◌<>◌}

-- The values that a branch may have, with their names: the first ones, and how many more there are.
abbrev pub Listing : Type 0
Listing = List (String × Value) × ℕ

pub data Code : Type 0 where
  trigger_count edge_invalid orphan_node cron too_large required type choice ref_not_allowed
        ref_format ref_unknown_node ref_self ref_not_upstream ref_unknown_field :
      Code

pub data Reason : Type 0 where
  no_nodes : Reason
  not_one_trigger : ℕ → Reason
  no_id : ℕ → Reason
  no_type : String → Reason
  repeated_id : String → Reason
  no_ends : ℕ → Reason
  unknown_node : String → String → String → Reason
  into_trigger : Reason
  unreached : Reason
  stopped_branch : String → String → Listing → Reason
  wrong_branch : String → String → Value → Listing → Reason
  cron_type : Reason
  cron_form : String → Reason
  too_many : ℕ → ℕ → Reason
  too_many_branches too_many_rules : Reason
  missing : String → Reason
  wrong_form : String → String → Reason
  no_choice : String → Value → Reason
  no_reference : String → Reason
  no_object : String → Reason
  no_text : String → Reason
  no_right : Reason
  key_used : String → Reason
  name_used : String → Reason
  unclosed : Reason
  ref_form : String → Reason
  ref_missing : String → Reason
  ref_own : Reason
  ref_later : String → Reason
  ref_output : String → String → Reason

pub record Error : Type 0 where
  pub node_id : Option String
  pub field : Option String
  pub code : Code
  pub reason : Reason

abbrev pub max_value_len : ℕ
max_value_len = 80

-- `_clip` of a text
unfoldable pub clip : String → String
unfolding codes take_text
clip s = if leb (length (codes s)) max_value_len then s else take_text max_value_len s <> "…"

abbrev clip_id : Option String → Option String
clip_id none = none
clip_id (some nid) = some (clip nid)

abbrev pub error : Code → Reason → Option String → Option String → Error
error code reason nid field = record {
  node_id = clip_id nid;
  field = field;
  code = code;
  reason = reason;
}

abbrev non_empty : Option String → Option String
non_empty none = none
non_empty (some s) = if s == "" then none else some s

-- `_sid`
unfoldable pub sid : Value → Option String
sid v = non_empty (as_text v)

-- `_err` for a node whose id is `nid`, at the place `loc`
abbrev pub error_at : Code → Reason → Option String → String → Error
error_at code reason nid loc = error code reason nid (some loc)

pub Error-discrete : Discrete Error
Error-discrete = hlevel (ℕ_discrete, string_eq.dec)

instance abbrev pub error_eq : Eq Error
error_eq = record { dec = Error-discrete }
