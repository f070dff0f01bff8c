-- ===== src/Actions/Guard.antt =====
-- core/execution_guard.py: what is refused before a tool runs. Parsing a URL, reading an address and
-- the look-up of a name are Python's and the network's.
pub mod Scan
use ieum_agent.Base.{
  ℕ, ◌∷◌, [], List, String, Bool, true, false, not, ◌&&◌, ◌||◌, Option, none, some, ◌==◌, string_eq,
  if◌then◌else◌, map, eqb, leb,
}
use ieum_agent.Value.{Value, text, list, dict, Values, nil, cons, Entries, end, entry, get}
use ieum_agent.Value.Text.{eq_codes, codes, starts_codes, starts_with, lower_code}

-- What `ipaddress` says of an address; a mapped IPv4 address counts in its place.
pub record Address : Type 0 where
  pub is_private : Bool
  pub is_loopback : Bool
  pub is_link_local : Bool
  pub is_unspecified : Bool

pub data Ip : Type 0 where
  plain : Address → Ip
  mapped : (outer inner : Address) → Ip

-- `hostname url` is `none` where `urlparse` raises or finds no host name; `literal` is
-- `ipaddress.ip_address`, `none` where it raises; `resolve` the address that the look-up gives.
pub record Web : Type 0 where
  pub hostname : String → Option String
  pub literal : String → Option Ip
  pub resolve : String → Option Ip

abbrev is_bad : Address → Bool
is_bad a = a.is_private || (a.is_loopback || (a.is_link_local || a.is_unspecified))

-- `_is_blocked_ip`
abbrev pub is_blocked_ip : Ip → Bool
is_blocked_ip (plain a) = is_bad a
is_blocked_ip (mapped outer inner) = is_bad inner

-- `(1[6-9]|2[0-9]|3[0-1])\.` after `172.`
abbrev in_172 : List ℕ → Bool
in_172 (x ∷ y ∷ z ∷ rest) =
    eqb z b'.'
    && (eqb x b'1' && (leb b'6' y && leb y b'9')
        || (eqb x b'2' && (leb b'0' y && leb y b'9') || eqb x b'3' && (leb b'0' y && leb y b'1')))
in_172 _ = false

abbrev after_4 : List ℕ → List ℕ
after_4 (a ∷ b ∷ c ∷ d ∷ rest) = rest
after_4 _ = []

abbrev is_private_codes : List ℕ → Bool
is_private_codes h =
    eq_codes h (codes "localhost")
    || (starts_codes h (codes "127.")
        || (starts_codes h (codes "10.")
            || (starts_codes h (codes "172.") && in_172 (after_4 h)
                || (starts_codes h (codes "192.168.") || starts_codes h (codes "169.254.")))))

-- without regard to case, in which the long s is an s
abbrev fold_code : ℕ → ℕ
fold_code c = if eqb c 383 then b's' else lower_code c

-- PRIVATE_IP_PATTERNS
unfoldable pub is_private_name : String → Bool
unfolding codes starts_codes
is_private_name host = is_private_codes (map fold_code (codes host))

module _ (web : Web) where
  abbrev blocks_resolved : Option Ip → Bool
  blocks_resolved none = false
  blocks_resolved (some ip) = is_blocked_ip ip

  abbrev blocks_literal : String → Option Ip → Bool
  blocks_literal host (some ip) = is_blocked_ip ip
  blocks_literal host none = is_private_name host || blocks_resolved (web.resolve host)

  abbrev blocks_host : Option String → Bool
  blocks_host none = false
  blocks_host (some host) = if host == "" then false else blocks_literal host (web.literal host)

  -- `_check_url_safety`: true where it raises
  unfoldable pub is_unsafe : String → Bool
  is_unsafe url = blocks_host (web.hostname url)

  abbrev scan_text : String → Option String
  scan_text s =
      if (starts_with s "http://" || starts_with s "https://") && is_unsafe s then some s else none

  abbrev or_next : Option String → Option String → Option String
  or_next (some url) rest = some url
  or_next none rest = rest

  -- `_scan_urls_recursively`: the first URL that is refused
  unfoldable mutual
    pub scan_urls : Value → Option String
    scan_urls (dict es) = scan_entries es
    scan_urls (list vs) = scan_values vs
    scan_urls (text s) = scan_text s
    scan_urls v = none

    pub scan_values : Values → Option String
    scan_values nil = none
    scan_values (cons v vs) = or_next (scan_urls v) (scan_values vs)

    pub scan_entries : Entries → Option String
    scan_entries end = none
    scan_entries (entry k v es) = or_next (scan_urls v) (scan_entries es)

-- The credentials that come with a request.
pub record Tokens : Type 0 where
  pub google : Option String
  pub notion : Option String
  pub github : Option String
  pub slack : Option String
  pub discord : Option String
  pub guild_ids : List String

-- `not token`
abbrev pub is_absent : Option String → Bool
is_absent none = true
is_absent (some s) = s == ""

-- The prefix of a service, and whether its token is absent.
unfoldable pub lacks_token : Tokens → String → Bool
unfolding starts_with
lacks_token tokens name =
    starts_with name "builtin:notion_" && is_absent tokens.notion
    || (starts_with name "builtin:google_" && is_absent tokens.google
        || (starts_with name "builtin:github_" && is_absent tokens.github
            || (starts_with name "builtin:slack_" && is_absent tokens.slack
                || starts_with name "builtin:discord_" && is_absent tokens.discord)))

pub data Refusal : Type 0 where
  unsafe_url : String → Refusal
  no_token : String → Refusal

-- `validate_tools` for the single tool of an action, `[{"name": …, "config": …}]`
abbrev pub refuse : Tokens → String → Option String → Option Refusal
refuse tokens name (some url) = some (unsafe_url url)
refuse tokens name none = if lacks_token tokens name then some (no_token name) else none

unfoldable pub validate_tool : Web → Tokens → String → Entries → Option Refusal
unfolding scan_urls lacks_token
validate_tool web tokens name config =
    refuse tokens name
      (scan_urls web (dict (entry "name" (text name) (entry "config" (dict config) end))))
