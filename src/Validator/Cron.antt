-- ===== src/Validator/Cron.antt =====
-- `_cron_errors` of core/validators/static_validator.py: the form of a cron expression.
use ieum_agent.Base.{
  ℕ, String, Bool, false, not, ◌&&◌, ◌||◌, Option, none, some, List, [], ◌∷◌, ◌++◌, ◌==◌, string_eq,
  if◌then◌else◌, length, all, any, eqb, leb,
}
use ieum_agent.Value.{Value, text, dict, Entries, end, get, is_empty}
use ieum_agent.Value.Text.{codes, is_space}
use ieum_agent.Catalog.{Catalog, trigger_type_of}
use ieum_agent.Validator.Problem.{Error, error, cron, cron_type, cron_form, clip}

abbrev close : List ℕ → List (List ℕ)
close [] = []
close (c ∷ cs) = (c ∷ cs) ∷ []

-- `s.split()`: `part` holds the part that is being read
words_from : List ℕ → List ℕ → List (List ℕ)
words_from part [] = close part
words_from part (c ∷ cs) =
    let closed = close part ++ words_from [] cs in
    let longer = words_from (part ++ (c ∷ [])) cs in if is_space c then closed else longer

unfoldable pub words : List ℕ → List (List ℕ)
unfolding words_from
words s = words_from [] s

-- `_CRON_PART_RE`
abbrev is_cron_char : ℕ → Bool
is_cron_char c =
    leb b'0' c && leb c b'9'
    || leb b'A' c && leb c b'Z'
    || leb b'a' c && leb c b'z'
    || any (eqb c) (b'*' ∷ b'/' ∷ b',' ∷ b'-' ∷ b'?' ∷ b'#' ∷ [])

unfoldable pub is_cron : String → Bool
unfolding words codes
is_cron s =
    let parts = words (codes s) in
    any (eqb (length parts)) (5 ∷ 6 ∷ 7 ∷ []) && all (all is_cron_char) parts

abbrev config_of : Value → Entries
config_of (dict es) = es
config_of _ = end

abbrev is_schedule : Option String → Bool
is_schedule (some t) = t == "SCHEDULE"
is_schedule none = false

abbrev form_errors : String → Value → List Error
form_errors nid (text s) =
    if is_cron s then [] else error cron (cron_form (clip s)) (some nid) (some "config.cron") ∷ []
form_errors nid _ = error cron cron_type (some nid) (some "config.cron") ∷ []

-- For a node whose id is `nid`.
unfoldable pub cron_errors : Catalog → String → Entries → List Error
unfolding is_cron get is_empty trigger_type_of clip
cron_errors catalog nid node =
    let value = get "cron" (config_of (get "config" node)) in
    if not (is_schedule (trigger_type_of catalog node)) || is_empty value
    then []
    else form_errors nid value
