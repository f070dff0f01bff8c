-- ===== src/Actions/Run.antt =====
-- core/action_executor.py: the run of one tool. The tool is a function outside the model; what its run
-- ends with is an argument.
pub mod Arguments
mod Tests
use ieum_agent.Base.{
  String, Bool, true, false, not, ◌&&◌, Option, none, some, List, [], ◌∷◌, ◌==◌, string_eq,
  contains, if◌then◌else◌, map, select, is_some,
}
use ieum_agent.Base.Dict.{Dict, lookup, insert, erase}
use ieum_agent.Value.{
  Value, null, text, list, dict, Values, nil, cons, Entries, entries, of_entries,
}
use ieum_agent.Value.Text.{starts_with}
use ieum_agent.Actions.Guard.{Web, Tokens, Refusal, validate_tool}
use ieum_agent.Actions.Masking.{mask, mask_entries}

-- A parameter of the tool's signature.
pub record Parameter : Type 0 where
  pub name : String
  pub has_default : Bool

abbrev of_token : Option String → Value
of_token none = null
of_token (some s) = text s

abbrev of_texts : List String → Values
of_texts [] = nil
of_texts (s ∷ rest) = cons (text s) (of_texts rest)

-- `_injected_args`
unfoldable pub injected_args : String → Tokens → Dict Value
injected_args key tokens =
    if starts_with key "builtin:google_"
    then ("access_token", of_token tokens.google) ∷ []
    else if starts_with key "builtin:notion_"
    then ("token", of_token tokens.notion) ∷ []
    else if starts_with key "builtin:github_"
    then ("token", of_token tokens.github) ∷ []
    else if starts_with key "builtin:slack_"
    then ("token", of_token tokens.slack) ∷ []
    else if starts_with key "builtin:discord_"
    then ("token", of_token tokens.discord)
      ∷ ("allowed_guild_ids", list (of_texts tokens.guild_ids))
      ∷ []
    else []

abbrev pub names_of : List Parameter → List String
names_of params = map (λ (p : Parameter). p.name) params

-- `kwargs.update(injected)`
unfoldable pub update : Dict Value → Dict Value → Dict Value
update d [] = d
update d ((k, v) ∷ rest) = update (insert k v d) rest

-- the entries of the config that the tool has a parameter for
abbrev pub known_args : List Parameter → Entries → Dict Value
known_args params config = select (λ (k, v). contains (names_of params) k) (entries config)

unfoldable pub arguments : String → Tokens → List Parameter → Entries → Dict Value
arguments key tokens params config = update (known_args params config) (injected_args key tokens)

unfoldable pub missing : Dict Value → List Parameter → List String
missing args params =
    names_of
      (select (λ (p : Parameter). not p.has_default && not (is_some (lookup p.name args))) params)

-- How the call of the tool ends: `returned none` is a text that is no JSON.
pub data Ending : Type 0 where
  timed_out raised : Ending
  returned : Option Value → Ending

pub data Failure : Type 0 where
  guarded : Refusal → Failure
  incomplete : List String → Failure
  timeout exception no_object : Failure
  tool_error : Value → Failure

pub data ActionResult : Type 0 where
  succeeded : Entries → ActionResult
  failed_with : Failure → ActionResult

-- `_to_result` of an object: an `error` counts whatever its value
abbrev object_result : Entries → Option Value → ActionResult
object_result found (some e) = failed_with (tool_error e)
object_result found none = succeeded (mask_entries (of_entries (erase "success" (entries found))))

unfoldable pub to_result : Option Value → ActionResult
unfolding lookup erase mask
to_result (some (dict found)) = object_result found (lookup "error" (entries found))
to_result _ = failed_with no_object

unfoldable pub of_ending : Ending → ActionResult
unfolding to_result
of_ending timed_out = failed_with timeout
of_ending raised = failed_with exception
of_ending (returned found) = to_result found

-- What the run returns, and the arguments that the tool was called with, if it was.
abbrev call_tool : Dict Value → List String → Ending → ActionResult × Option (Dict Value)
call_tool args [] ending = (of_ending ending, some args)
call_tool args (name ∷ rest) ending = (failed_with (incomplete (name ∷ rest)), none)

abbrev run_guarded :
    String
    → Tokens
    → List Parameter
    → Entries
    → Ending
    → Option Refusal
    → ActionResult × Option (Dict Value)
run_guarded key tokens params config ending (some refusal) = (failed_with (guarded refusal), none)
run_guarded key tokens params config ending none =
    call_tool (arguments key tokens params config)
      (missing (arguments key tokens params config) params) ending

-- `_execute`
unfoldable pub run_tool :
    Web → String → Tokens → List Parameter → Entries → Ending → ActionResult × Option (Dict Value)
run_tool web key tokens params config ending =
    run_guarded key tokens params config ending (validate_tool web tokens key config)
