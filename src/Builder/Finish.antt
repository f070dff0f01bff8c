-- ===== src/Builder/Finish.antt =====
-- The second half of `test_node` in core/builder/tools.py, which reads the answer of the backend, and
-- `finish`.
use ieum_agent.Base.{
  ℕ, String, Bool, true, false, not, ◌&&◌, ◌||◌, Option, none, some, List, [], ◌∷◌, string_eq,
  if◌then◌else◌, map, select, first, take, all, leb, eqb, length,
}
use ieum_agent.Value.{Value, text, list, Entries, get, entries, values}
use ieum_agent.Value.Text.{codes}
use ieum_agent.Validator.Problem.{Error}
use ieum_agent.Validator.Branches.{is_text}
use ieum_agent.Builder.State.{success, failed, skipped, workflow_hash, key_of, config_of, is_done}
use ieum_agent.Builder.Models.{Choice}
use ieum_agent.Builder.Turn.{confirm, finish_id, State, Turn, hold, ask_model, Asked}
use ieum_agent.Builder.Testing.{
  Kind, app_trigger, Checks, Call, Result, passed_over_later, missing_upstream, failure, ran, asked,
  unfinished, awaiting, card_first, record_test, was_skipped, status_of, lacks_key, is_write,
  workflow_errors,
}

-- What `turn.backend.test_node` returns: an error's code and data, or data.
pub data Reply : Type 0 where
  refused : (code reason : Value) → Reply
  answered : Value → Reply

abbrev is_alnum : ℕ → Bool
is_alnum c = leb b'0' c && leb c b'9' || leb b'A' c && leb c b'Z' || leb b'a' c && leb c b'z'

abbrev is_output_code : List ℕ → Bool
is_output_code [] = false
is_output_code (c ∷ cs) = is_alnum c && all (λ d. is_alnum d || eqb d b'_') cs && leb (length cs) 63

-- `_OUTPUT_KEY.fullmatch`
unfoldable pub is_output_key : String → Bool
unfolding codes
is_output_key k = is_output_code (codes k)

abbrev max_candidates : ℕ
max_candidates = 20

-- the texts of a list
abbrev texts : List Value → List String
texts [] = []
texts (text s ∷ vs) = s ∷ texts vs
texts (_ ∷ vs) = texts vs

abbrev texts_of : Value → List String
texts_of (list vs) = texts (values vs)
texts_of v = []

abbrev pub missing_ids : Value → List String
missing_ids reason = texts_of (get "missingNodeIds" (config_of reason))

abbrev pub has_any : List String → Bool
has_any [] = false
has_any (_ ∷ _) = true

abbrev pub output_names : Value → List String
output_names output =
    take max_candidates (select is_output_key (map (λ (k, v). k) (entries (config_of output))))

module _ (c : Checks) where
  abbrev refused_end : Call → Value → Value → State → Turn → State × Turn × Result
  refused_end call code reason state turn =
      if is_text "TEST_SAMPLE_MISSING" code
      then (if not (is_write call.kind)
            && (has_any (missing_ids reason) && all (was_skipped c state turn) (missing_ids reason))
          then (record_test call.node_id skipped call.hash [] state, turn, passed_over_later)
          else (state, turn, missing_upstream))
      else (state, turn, failure)

  abbrev pub suggest_again : Kind → Call → Turn → Turn
  suggest_again app_trigger call turn = (hold (confirm call.node_id call.hash false) turn).0
  suggest_again kind call turn = turn

  abbrev data_end : Call → Entries → State → Turn → State × Turn × Result
  data_end call found state turn =
      let names = output_names (get "output" found) in
      if is_text "SUCCESS" (get "status" found)
      then (record_test call.node_id success call.hash names state, turn, ran success names)
      else (
        record_test call.node_id failed call.hash [] state,
        suggest_again call.kind call turn,
        ran failed [],
      )

  -- `test_node` after `turn.backend.test_node`
  unfoldable pub end_test : Call → Reply → State → Turn → State × Turn × Result
  end_test call (refused code reason) state turn = refused_end call code reason state turn
  end_test call (answered found) state turn = data_end call (config_of found) state turn

  abbrev pub remaining : State → List Entries → List String
  remaining state nodes = map key_of (select (λ n. not (is_done (status_of c state n))) nodes)

  abbrev pub held : Turn × Bool → Turn × Result
  held (turn, true) = (turn, awaiting)
  held (turn, false) = (turn, card_first)

  abbrev pub finish_with : List String → List Error → Turn → Turn × Result
  finish_with [] [] turn =
      held (hold (confirm finish_id (workflow_hash c.codec turn.nodes turn.edges) false) turn)
  finish_with left errors turn = (turn, unfinished left errors)

  abbrev ask_card : Turn × Asked → Turn × Result
  ask_card (turn, a) = (turn, asked a)

  abbrev pub finish_keyed : ℕ → Option (List Choice) → Option Entries → State → Turn → Turn × Result
  finish_keyed now loaded (some node) state turn = ask_card (ask_model c.codec now loaded node turn)
  finish_keyed now loaded none state turn =
      finish_with (remaining state turn.nodes) (workflow_errors c turn) turn

  -- `finish`
  unfoldable pub finish : ℕ → Option (List Choice) → State → Turn → Turn × Result
  finish now loaded state turn = finish_keyed now loaded (first lacks_key turn.nodes) state turn
