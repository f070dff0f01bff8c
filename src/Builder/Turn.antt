-- ===== src/Builder/Turn.antt =====
-- The state of one turn in core/builder/tools.py, the question that it ends with, and the model card.
-- Times are in milliseconds.
use ieum_agent.Base.{
  ℕ, ◌+◌, ◌*◌, String, Bool, true, false, Option, none, some, List, [], ◌∷◌, ◌==◌, string_eq,
  if◌then◌else◌, first, ltb,
}
use ieum_agent.Base.Dict.{Dict}
use ieum_agent.Value.{Entries, get}
use ieum_agent.Builder.State.{Codec, node_hash, key_of, Test}
use ieum_agent.Builder.Models.{Choice}

-- What the answer to the question is for.
pub data Pending : Type 0 where
  pick : (node_id hash : String) (choices : List Choice) → Pending
  confirm : (node_id hash : String) (skip_only : Bool) → Pending

-- The id that stands for the whole workflow.
abbrev pub finish_id : String
finish_id = "__finish__"

pub record Confirmed : Type 0 where
  pub node_id : String
  pub hash : String

-- The session's state, as far as the tools and the start of a turn use it.
pub record State : Type 0 where
  pub tests : Dict Test
  pub baseline : Option (Dict String)
  pub pending : Option Pending
  pub confirmed : Option Confirmed
  pub options_seen : Dict (Dict String)

pub record Turn : Type 0 where
  pub nodes : List Entries
  pub edges : List Entries
  pub confirmed : Option Confirmed
  pub confirm_used : Bool
  pub lookups : ℕ
  pub test_runs : ℕ
  pub pending : Option Pending
  pub model_choices : Option (List Choice)
  pub deadline : ℕ

abbrev pub max_lookups_per_turn : ℕ
max_lookups_per_turn = 5

abbrev pub max_tests_per_turn : ℕ
max_tests_per_turn = 3

abbrev pub turn_seconds : ℕ
turn_seconds = 540

abbrev pub min_test_seconds : ℕ
min_test_seconds = 200

abbrev pub min_lookup_seconds : ℕ
min_lookup_seconds = 35

abbrev pub min_pick_seconds : ℕ
min_pick_seconds = 2 * min_lookup_seconds

-- `turn.deadline - time.monotonic() < seconds`
abbrev pub is_short : ℕ → ℕ → Turn → Bool
is_short seconds now turn = ltb turn.deadline (now + seconds * 1000)

-- `Turn.node`
unfoldable pub find_node : String → List Entries → Option Entries
unfolding get
find_node id nodes = first (λ n. key_of n == id) nodes

abbrev pub put_pending : Option Pending → Pending → Option Pending × Bool
put_pending (some (pick id hash choices)) pending = (some (pick id hash choices), false)
put_pending _ pending = (some pending, true)

-- `_hold`: one question for each answer, a card first
unfoldable pub hold : Pending → Turn → Turn × Bool
hold pending turn = (
  record turn { pending = (put_pending turn.pending pending).0 },
  (put_pending turn.pending pending).1,
)

-- The outcome of `load_choices`; `none` is an error.
abbrev pub keep_choices : Option (List Choice) → Turn → Turn × Option (List Choice)
keep_choices none turn = (turn, none)
keep_choices (some choices) turn = (record turn { model_choices = some choices }, some choices)

abbrev pub choices_from :
    ℕ → Option (List Choice) → Option (List Choice) → Turn → Turn × Option (List Choice)
choices_from now loaded (some choices) turn = (turn, some choices)
choices_from now loaded none turn =
    if is_short min_pick_seconds now turn then (turn, none) else keep_choices loaded turn

-- `_choices`, at the time `now`, where the backend would answer with `loaded`
unfoldable pub choices : ℕ → Option (List Choice) → Turn → Turn × Option (List Choice)
choices now loaded turn = choices_from now loaded turn.model_choices turn

pub data Asked : Type 0 where
  ask_error needs_key needs_model : Asked

abbrev pub ask_with : Codec → Entries → Turn × Option (List Choice) → Turn × Asked
ask_with codec node (turn, none) = (turn, ask_error)
ask_with codec node (turn, some []) = (turn, needs_key)
ask_with codec node (turn, some (c ∷ cs)) =
    ((hold (pick (key_of node) (node_hash codec node) (c ∷ cs)) turn).0, needs_model)

-- `_ask_model`
unfoldable pub ask_model : Codec → ℕ → Option (List Choice) → Entries → Turn → Turn × Asked
unfolding choices hold
ask_model codec now loaded node turn = ask_with codec node (choices now loaded turn)
