-- ===== src/Builder/Models.antt =====
-- core/builder/model_pick.py: the cards by which the user picks the model of an AI node.
-- `default_model p` stands for `resolve_model(p)`, the default of the settings.
use ieum_agent.Base.{
  ℕ, ◌+◌, ◌-◌, String, Bool, true, false, not, ◌&&◌, ◌||◌, Option, none, some, List, [], ◌∷◌, ◌++◌,
  reverse, ◌==◌, string_eq, contains, if◌then◌else◌, map, select, first, length, take, any, eqb,
  leb, ltb,
}
use ieum_agent.Base.Dict.{Dict, lookup, insert}
use ieum_agent.Value.{
  Value, null, text, list, dict, Entries, get, entries, of_entries, values, is_true,
}
use ieum_agent.Value.Text.{eq_codes, codes, is_space}
use ieum_agent.Builder.State.{Codec, config_of}
use ieum_agent.Builder.Clean.{clean, is_control}

abbrev pub max_per_provider : ℕ
max_per_provider = 3

abbrev pub max_id : ℕ
max_id = 200

abbrev pub providers : List String
providers = "CLAUDE" ∷ "OPENAI" ∷ "GEMINI" ∷ []

pub record Choice : Type 0 where
  pub number : ℕ
  pub provider : String
  pub credential_id : String
  pub model : String
  pub label : String
  pub key : String
  pub recommended : Bool

-- An item of the backend that is used: its id, and its name, which is empty if there is none.
pub record Item : Type 0 where
  pub id : String
  pub name : Value

abbrev valid_id : Value → Value → Option Item
valid_id (text s) name =
    if s == "" || ltb max_id (length (codes s)) || any is_control (codes s)
    then none
    else some (record { id = s; name = name })
valid_id v name = none

-- `_valid`, and the two parts of the item that are read
abbrev valid : Value → Option Item
valid (dict es) = valid_id (get "id" es) (get "name" es)
valid v = none

unfoldable pub valid_items : List Value → List Item
unfolding codes get
valid_items [] = []
valid_items (v ∷ vs) = elim (valid v) [ none ↦ valid_items vs | some i ↦ i ∷ valid_items vs ]

abbrev list_items : Value → List Item
list_items (list vs) = valid_items (values vs)
list_items v = []

-- `_items` of a reply with this data
abbrev pub items_of : Value → List Item
items_of (dict es) = list_items (get "items" es)
items_of v = []

module _ (codec : Codec) (default_model : String → String) where
  -- `names.get(model) or model`: the last item with an id counts
  abbrev or_text : String → Value → Value
  or_text s v = if is_true v then v else text s

  unfoldable pub name_of : String → List Item → Value
  name_of model [] = null
  name_of model (i ∷ rest) =
      let later = name_of model rest in
      if any (λ (j : Item). j.id == model) rest
      then later
      else if i.id == model
      then i.name
      else null

  abbrev model_ids : String → List Item → List String
  model_ids default models =
      default ∷ map (λ (i : Item). i.id) (select (λ (i : Item). not (i.id == default)) models)

  -- The cards of one provider, numbered from `n`.
  unfoldable pub cards : String → String → Item → List Item → ℕ → List String → List Choice
  cards chat p key models n [] = []
  cards chat p key models n (model ∷ rest) =
      record {
        number = n;
        provider = p;
        credential_id = key.id;
        model = model;
        label = clean codec 60 (or_text model (name_of model models));
        key = clean codec 40 (or_text "AI 키" key.name);
        recommended = p == chat && model == default_model p;
      }
      ∷ cards chat p key models (n + 1) rest

  abbrev provider_cards : String → String → Option Item → List Item → ℕ → List Choice
  provider_cards chat p none models n = []
  provider_cards chat p (some key) models n =
      cards chat p key models n (take max_per_provider (model_ids (default_model p) models))

  abbrev models_of : Option (List Item) → List Item
  models_of none = []
  models_of (some items) = items

  unfoldable pub ordered_cards :
      String → Dict Item → Dict (List Item) → List Choice → List String → List Choice
  unfolding cards
  ordered_cards chat keys models done [] = done
  ordered_cards chat keys models done (p ∷ ps) =
      ordered_cards chat keys models
        (done
          ++ provider_cards chat p (lookup p keys) (models_of (lookup p models)) (length done + 1))
        ps

  -- the provider of the conversation first; `chat` is in capitals
  abbrev pub order_of : String → List String
  order_of chat =
      if contains providers chat then chat ∷ select (λ p. not (p == chat)) providers else providers

  unfoldable pub build_choices : String → Dict Item → Dict (List Item) → List Choice
  build_choices chat keys models = ordered_cards chat keys models [] (order_of chat)

abbrev drop_spaces : List ℕ → List ℕ
drop_spaces [] = []
drop_spaces (c ∷ cs) = if is_space c then drop_spaces cs else c ∷ cs

abbrev drop_marks : List ℕ → List ℕ
drop_marks [] = []
drop_marks (c ∷ cs) = if eqb c b'.' || eqb c b'!' then drop_marks cs else c ∷ cs

abbrev strip : List ℕ → List ℕ
strip cs = reverse (drop_spaces (reverse (drop_spaces cs)))

-- `text.strip().rstrip(".!").strip()`
abbrev pub bare : List ℕ → List ℕ
bare cs = strip (reverse (drop_marks (reverse (strip cs))))

-- `[1-9]` and the circled digits
abbrev digit_of : ℕ → Option ℕ
digit_of c =
    if leb b'1' c && leb c b'9'
    then some (c - b'0')
    else if leb 9312 c && leb c 9320
    then some (c - 9311)
    else none

-- `\s*번?$`; no line break is left at the end
abbrev is_counter : List ℕ → Bool
is_counter [] = true
is_counter (c ∷ []) = eqb c 48264
is_counter (c ∷ d ∷ cs) = false

-- The number that `_NUMBER` reads.
abbrev number_in : List ℕ → Option ℕ
number_in [] = none
number_in (c ∷ cs) = if is_counter (drop_spaces cs) then digit_of c else none

abbrev single : List Choice → Option Choice
single (c ∷ []) = some c
single _ = none

abbrev match_bare : List ℕ → Option ℕ → List Choice → Option Choice
match_bare [] n choices = none
match_bare (c ∷ cs) (some n) choices = first (λ (ch : Choice). eqb ch.number n) choices
match_bare (c ∷ cs) none choices =
    single (select (λ (ch : Choice). eq_codes (codes ch.label) (c ∷ cs)) choices)

unfoldable pub match_choice : String → List Choice → Option Choice
unfolding codes
match_choice prompt choices =
    match_bare (bare (codes prompt)) (number_in (bare (codes prompt))) choices

-- `apply_choice`: the config is made a dict if it is none
unfoldable pub apply_choice : Entries → Choice → Entries
unfolding get insert
apply_choice node choice =
    let config = entries (config_of (get "config" node)) in
    let with_key = insert "credentialId" (text choice.credential_id) config in
    let with_provider = insert "llmProvider" (text choice.provider) with_key in
    let with_model = insert "model" (text choice.model) with_provider in
    of_entries (insert "config" (dict (of_entries with_model)) (entries node))
