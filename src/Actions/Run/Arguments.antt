-- ===== src/Actions/Run/Arguments.antt =====
-- What a tool is called with, and when.
use ieum_agent.Base.{
  ◌≡◌, refl, sym, ◌∙◌, String, Bool, true, false, Option, none, some, List, [], ◌∷◌, ◌==◌,
  string_eq, if◌then◌else◌, inl, inr, All, arith, Bool-cases, eq_of_test,
}
use mathlib.Core.Path.{subst}
use mathlib.Core.Option.{some-injective}
use ieum_agent.Base.Dict.{Dict, lookup, insert, lookup-insert}
use ieum_agent.Value.{Value, dict, Entries}
use ieum_agent.Value.Text.{starts_with}
use ieum_agent.Validator.Strings.Preorder.{strings}
use ieum_agent.Actions.Guard.{refuse, Web, Tokens, validate_tool, scan_urls, lacks_token, Refusal}
use ieum_agent.Actions.Guard.Scan.{or_next-none, Harmless, scan_urls_sound}
use ieum_agent.Actions.Run.{
  Parameter, injected_args, update, known_args, arguments, missing, Ending, run_tool, run_guarded,
  call_tool,
}

-- each key once
abbrev Unique : Dict Value → Type 0
Unique [] = Unit
Unique ((j, w) ∷ rest) = (lookup j rest ≡ none) × Unique rest

lookup-update_absent :
    (k : String) (d e : Dict Value) → lookup k e ≡ none → lookup k (update d e) ≡ lookup k d
unfolding update lookup
lookup-update_absent k d [] h = refl
lookup-update_absent k d ((j, w) ∷ rest) h = elim (Bool-cases (k == j)) [
  | inl same ↦ ground arith
  | inr other ↦
      lookup-update_absent k (insert j w d) rest (ground arith)
      ∙ (lookup-insert k j w d ∙ (rw other refl))
]

-- The later dict wins.
lookup-update :
    (k : String) (v : Value) (d e : Dict Value)
    → Unique e
    → lookup k e ≡ some v
    → lookup k (update d e) ≡ some v
unfolding update
lookup-update k v d [] u h = unfold lookup in cc
lookup-update k v d ((j, w) ∷ rest) (fresh, u) h = elim (Bool-cases (k == j)) [
  | inl same ↦
      let e = eq_of_test k j same in
      lookup-update_absent k (insert j w d) rest (subst (λ x. lookup x rest ≡ none) (sym e) fresh)
      ∙ (lookup-insert k j w d ∙ (rw same (unfold lookup in ground arith)))
  | inr other ↦ lookup-update k v (insert j w d) rest u (unfold lookup in ground arith)
]

if-Unique : (b : Bool) (x y : Dict Value) → Unique x → Unique y → Unique (if b then x else y)
if-Unique true x y h k = h
if-Unique false x y h k = k

injected-Unique : (key : String) (tokens : Tokens) → Unique (injected_args key tokens)
unfolding injected_args lookup string_eq
injected-Unique key tokens =
    if-Unique (starts_with key "builtin:google_") _ _ (refl, tt)
      (if-Unique (starts_with key "builtin:notion_") _ _ (refl, tt)
        (if-Unique (starts_with key "builtin:github_") _ _ (refl, tt)
          (if-Unique (starts_with key "builtin:slack_") _ _ (refl, tt)
            (if-Unique (starts_with key "builtin:discord_") _ _ (refl, (refl, tt)) tt))))

-- What a tool is called with.
abbrev pub Proper : String → Tokens → List Parameter → Entries → Dict Value → Type 0
Proper key tokens params config args =
    ((k : String) (v : Value)
      → lookup k (injected_args key tokens) ≡ some v
      → lookup k args ≡ some v)
    × (((k : String)
          → lookup k (injected_args key tokens) ≡ none
          → lookup k args ≡ lookup k (known_args params config))
        × (missing args params ≡ []))

call_tool-Proper :
    (key : String) (tokens : Tokens) (params : List Parameter) (config : Entries) (ending : Ending)
    (args : Dict Value) (gone : List String)
    → missing (arguments key tokens params config) params ≡ gone
    → (call_tool (arguments key tokens params config) gone ending).1 ≡ some args
    → Proper key tokens params config args
unfolding arguments
call_tool-Proper key tokens params config ending args [] m h =
    subst (Proper key tokens params config) (some-injective _ _ h) (
      (λ k v f. lookup-update k v (known_args params config) _ (injected-Unique key tokens) f),
      (λ k f. lookup-update_absent k (known_args params config) (injected_args key tokens) f, m),
    )
call_tool-Proper key tokens params config ending args (name ∷ rest) m h = cc

run_guarded-Proper :
    (key : String) (tokens : Tokens) (params : List Parameter) (config : Entries) (ending : Ending)
    (args : Dict Value) (refusal : Option Refusal)
    → (run_guarded key tokens params config ending refusal).1 ≡ some args
    → (refusal ≡ none) × Proper key tokens params config args
run_guarded-Proper key tokens params config ending args none h =
    (refl, call_tool-Proper key tokens params config ending args _ refl h)
run_guarded-Proper key tokens params config ending args (some refusal) h = cc

-- `none` of the guard
abbrev pub Allowed : Web → Tokens → String → Entries → Type 0
Allowed web tokens key config =
    All (Harmless web) (strings "" (dict config)) × (lacks_token tokens key ≡ false)

refuse-none :
    (tokens : Tokens) (key : String) (found : Option String)
    → refuse tokens key found ≡ none
    → (found ≡ none) × (lacks_token tokens key ≡ false)
refuse-none tokens key none h = (refl, ground arith)
refuse-none tokens key (some url) h = cc

validate_tool-Allowed :
    (web : Web) (tokens : Tokens) (key : String) (config : Entries)
    → validate_tool web tokens key config ≡ none
    → Allowed web tokens key config
unfolding validate_tool scan_urls
validate_tool-Allowed web tokens key config h =
    let (found, token) = refuse-none tokens key _ h in
    let (name_ok, rest) = or_next-none web _ _ found in
    let (config_ok, over) = or_next-none web _ _ rest in
    (scan_urls_sound web (dict config) config_ok, token)

-- If a tool is called with `args`: no text of its config, however deep, is an unsafe URL, and the
-- credential of its service is there (Allowed); each injected argument stands in `args` as it was
-- injected, every other argument is the config's for a parameter of the tool, and no parameter without
-- a default is missing (Proper).
pub run_tool_called :
    (web : Web) (key : String) (tokens : Tokens) (params : List Parameter) (config : Entries)
    (ending : Ending) (args : Dict Value)
    → (run_tool web key tokens params config ending).1 ≡ some args
    → Allowed web tokens key config × Proper key tokens params config args
unfolding run_tool
run_tool_called web key tokens params config ending args h =
    let (v, proper) = run_guarded-Proper key tokens params config ending args _ h in
    (validate_tool-Allowed web tokens key config v, proper)
