-- ===== src/Builder/Write/Destinations.antt =====
-- Where a field sends something: its address is one that the user has said.
pub mod Checked
use ieum_agent.Base.{
  ℕ, String, Bool, true, false, not, ◌&&◌, ◌||◌, Option, none, some, List, [], ◌∷◌, ◌==◌, string_eq,
  if◌then◌else◌, eqb, leb, any, all, contains, map, reverse,
}
use ieum_agent.Value.{Value, text}
use ieum_agent.Value.Text.{
  codes, split, strip, has_ref, has_codes, starts_codes, is_space, lower_code, eq_codes,
}
use ieum_agent.Validator.Branches.{is_text}
use ieum_agent.Builder.Write.Said.{said_literally}

-- Why a value is refused, without the wording.
pub data Reason : Type 0 where
  wrong_name unknown_field no_dict no_choice unseen no_branches : Reason
  no_scheme bad_authority unreadable unsaid_host no_email unsaid_email : Reason

-- `(event, path) in DESTINATION_URL_FIELDS`
unfoldable pub is_url_field : Value → String → Bool
is_url_field event path =
    is_text "http.request" event && path == "config.url"
    || is_text "ai.agent" event && path == "config.tools.0.config.url"

-- `(event, path) in DESTINATION_EMAIL_FIELDS`
unfoldable pub is_email_field : Value → String → Bool
is_email_field event path =
    is_text "google_calendar.update" event && path == "config.attendees"
    || is_text "gmail.send_email" event
      && (path == "config.to" || path == "config.cc" || path == "config.bcc")

-- `urlsplit(url).hostname or ""` with the dots at its end removed; `none` if urlsplit raises.
abbrev pub Urls : Type 0
Urls = String → Option String

-- what stands before and after the first "://"
unfoldable pub cut_scheme : List ℕ → Option (List ℕ × List ℕ)
unfolding starts_codes
cut_scheme [] = none
cut_scheme (c ∷ s) = elim (starts_codes (c ∷ s) (b':' ∷ b'/' ∷ b'/' ∷ [])) [
  | true ↦ some ([], drop_two s)
  | false ↦ later c (cut_scheme s)
]
  where
    drop_two : List ℕ → List ℕ
    drop_two (x ∷ y ∷ rest) = rest
    drop_two rest = []

    later : ℕ → Option (List ℕ × List ℕ) → Option (List ℕ × List ℕ)
    later c none = none
    later c (some (scheme, rest)) = some (c ∷ scheme, rest)

abbrev ends_authority : ℕ → Bool
ends_authority c = eqb c b'/' || eqb c b'?' || eqb c b'#'

unfoldable pub authority_of : List ℕ → List ℕ
authority_of [] = []
authority_of (c ∷ s) = let rest = authority_of s in if ends_authority c then [] else c ∷ rest

abbrev is_bad : ℕ → Bool
is_bad c =
    eqb c b'@' || eqb c b'\\' || is_space c || leb c 31 || eqb c 127 || eqb c b'[' || eqb c b']'

-- `_BAD_AUTHORITY.search`
unfoldable pub is_bad_authority : List ℕ → Bool
unfolding has_codes
is_bad_authority s = has_codes s (b'{' ∷ b'{' ∷ []) || any is_bad s

abbrev pub is_nil : List ℕ → Bool
is_nil [] = true
is_nil (c ∷ cs) = false

abbrev pub is_http : List ℕ → Bool
is_http scheme =
    eq_codes (map lower_code scheme) (codes "http")
    || eq_codes (map lower_code scheme) (codes "https")

abbrev pub check_host : List String → Option String → Option Reason
check_host hosts none = some unreadable
check_host hosts (some host) =
    if host == "" || not (contains hosts host) then some unsaid_host else none

abbrev pub check_parts : List String → Option String → Option (List ℕ × List ℕ) → Option Reason
check_parts hosts host none = some no_scheme
check_parts hosts host (some (scheme, rest)) =
    if not (is_http scheme)
    then some no_scheme
    else if is_nil (authority_of rest) || is_bad_authority (authority_of rest)
    then some bad_authority
    else check_host hosts host

-- `check_url`
unfoldable pub check_url : Urls → List String → Value → Option Reason
unfolding codes cut_scheme
check_url urls hosts (text url) = check_parts hosts (urls url) (cut_scheme (codes url))
check_url urls hosts v = some no_scheme

-- `a.strip() for a in value.split(",")`
unfoldable pub addresses : String → List String
unfolding split strip
addresses s = map strip (split b',' s)

abbrev pub is_said : String → String → Bool
is_said user_text address = address == "" || said_literally address user_text

-- `check_emails`
unfoldable pub check_emails : String → Value → Option Reason
unfolding addresses has_ref
check_emails user_text (text s) =
    if has_ref s
    then some no_email
    else if all (is_said user_text) (addresses s)
    then none
    else some unsaid_email
check_emails user_text v = some no_email
