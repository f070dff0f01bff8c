-- ===== src/Actions/Masking.antt =====
-- core/output_validator.py: tokens in an answer are masked (mask_response_content).
use Prim.Native.Char.{code}
use Prim.Native.String
use Prim.Native.String.{[], ◌∷◌}
use ieum_agent.Base.{
  ℕ, zero, suc, Bool, true, false, not, ◌&&◌, ◌||◌, Option, none, some, if◌then◌else◌, eqb, leb,
  length, map,
}
use ieum_agent.Value.{Value, text, list, dict, Values, nil, cons, Entries, end, entry}
use ieum_agent.Value.Text.{codes, starts_with, drop_text, ◌<>◌, starts_codes, lower_code, is_space}
use ieum_agent.Validator.Refs.{span}

abbrev is_word : ℕ → Bool
is_word c =
    leb b'0' c && leb c b'9'
    || (leb b'A' c && leb c b'Z' || (leb b'a' c && leb c b'z' || eqb c b'_'))

abbrev is_word_dash : ℕ → Bool
is_word_dash c = is_word c || eqb c b'-'

abbrev is_slack : ℕ → Bool
is_slack c = not (eqb c b'_') && is_word_dash c

abbrev is_bearer : ℕ → Bool
is_bearer c = is_word_dash c || (eqb c b'.' || (eqb c b'/' || (eqb c b'=' || eqb c b'+')))

-- A pattern: what is left after a match at the start of the text; the first argument is whether the
-- character before it is one of a token.
abbrev Pattern : Type 0
Pattern = Bool → String.String → Option String.String

abbrev of_run : ℕ → String.String × String.String → Option String.String
of_run least (run, rest) = if leb least (length (codes run)) then some rest else none

-- a prefix, and a run of at least `least` characters
unfoldable pub prefix_run : String.String → (ℕ → Bool) → ℕ → Pattern
unfolding span
prefix_run prefix p least before s =
    if starts_with s prefix
    then of_run least (span p (drop_text (length (codes prefix)) s))
    else none

abbrev or_else : Option String.String → Option String.String → Option String.String
or_else none y = y
or_else (some x) y = some x

abbrev any_of : Pattern → Pattern → Pattern
any_of p q before s = or_else (p before s) (q before s)

abbrev google_token : Pattern
google_token = prefix_run "ya29." is_word_dash 1

abbrev notion_token : Pattern
notion_token = prefix_run "secret_" is_word_dash 1

abbrev github_token : Pattern
github_token = any_of (prefix_run "gho_" is_word 1) (
    any_of (prefix_run "ghp_" is_word 1) (
      any_of (prefix_run "ghs_" is_word 1)
        (any_of (prefix_run "ghu_" is_word 1) (prefix_run "github_pat_" is_word 1))))

abbrev slack_token : Pattern
slack_token =
    any_of (prefix_run "xoxb-" is_slack 1)
      (any_of (prefix_run "xoxe-" is_slack 1) (prefix_run "xoxp-" is_slack 1))

abbrev third_part : String.String × String.String → Option String.String
third_part (run, rest) =
    if eqb (length (codes run)) 6 && starts_with rest "."
    then of_run 27 (span is_word_dash (drop_text 1 rest))
    else none

abbrev second_part : String.String × String.String → Option String.String
second_part (run, rest) =
    if leb 24 (length (codes run)) && starts_with rest "."
    then third_part (span is_word_dash (drop_text 1 rest))
    else none

-- three parts with dots between, not within a longer run
unfoldable pub discord_token : Pattern
unfolding span
discord_token true s = none
discord_token false s = second_part (span is_word_dash s)

abbrev after_spaces : String.String × String.String → Option String.String
after_spaces (spaces, rest) =
    if leb 1 (length (codes spaces)) then of_run 10 (span is_bearer rest) else none

unfoldable pub bearer_token : Pattern
unfolding span
bearer_token before s =
    if starts_codes (map lower_code (codes s)) (codes "bearer")
    then after_spaces (span is_space (drop_text 6 s))
    else none

-- `re.sub(pattern, label, s)`; each round reads at least one character
unfoldable pub replace_from : Pattern → String.String → ℕ → Bool → String.String → String.String
replace_from p label zero before s = s
replace_from p label (suc fuel) before [] = ""
replace_from p label (suc fuel) before (c ∷ s) = elim (p before (c ∷ s)) [
  | some rest ↦ label <> replace_from p label fuel true rest
  | none ↦ c ∷ replace_from p label fuel (is_word_dash (code c)) s
]

unfoldable pub replace : Pattern → String.String → String.String → String.String
unfolding replace_from
replace p label s = replace_from p label (length (codes s)) false s

-- `_mask_string` with strict = False
unfoldable pub mask_string : String.String → String.String
unfolding replace prefix_run discord_token bearer_token
mask_string s =
    let a = replace google_token "[MASKED_GOOGLE_TOKEN]" s in
    let b = replace notion_token "[MASKED_NOTION_TOKEN]" a in
    let c = replace github_token "[MASKED_GITHUB_TOKEN]" b in
    let d = replace slack_token "[MASKED_SLACK_TOKEN]" c in
    let e = replace discord_token "[MASKED_DISCORD_TOKEN]" d in
    replace bearer_token "Bearer [MASKED_BEARER_TOKEN]" e

-- `_apply_masking`
unfoldable mutual
  pub mask : Value → Value
  mask (text s) = text (mask_string s)
  mask (dict es) = dict (mask_entries es)
  mask (list vs) = list (mask_values vs)
  mask v = v

  pub mask_values : Values → Values
  mask_values nil = nil
  mask_values (cons v vs) = cons (mask v) (mask_values vs)

  pub mask_entries : Entries → Entries
  mask_entries end = end
  mask_entries (entry k v es) = entry k (mask v) (mask_entries es)
