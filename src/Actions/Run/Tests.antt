-- ===== src/Actions/Run/Tests.antt =====
-- Tools at concrete inputs. `host.io` is an address of the local network here, and no other host is.
use ieum_agent.Base.{
  ◌≡◌, refl, Bool, false, none, some, List, [], ◌∷◌, ◌==◌, string_eq, if◌then◌else◌,
}
use ieum_agent.Value.{Value, text, dict, Entries, end, entry, list, cons, nil}
use ieum_agent.Value.Text.{drop_text, starts_with, codes, starts_codes}
use ieum_agent.Base.Dict.{Dict, lookup, insert, erase}
use ieum_agent.Validator.Refs.{span}
use ieum_agent.Actions.Guard.{
  Address, plain, Web, Tokens, scan_urls, is_unsafe, is_private_name, lacks_token, validate_tool,
  unsafe_url, no_token,
}
use ieum_agent.Actions.Masking.{
  mask, mask_string, replace, replace_from, prefix_run, discord_token, bearer_token,
}
use ieum_agent.Actions.Run.{
  Parameter, injected_args, update, arguments, missing, timed_out, guarded, failed_with, run_tool,
}
use ieum_agent.Actions.Run.Arguments.{Allowed, Proper, run_tool_called}

abbrev address : Bool → Address
address b = record {
  is_private = b;
  is_loopback = false;
  is_link_local = false;
  is_unspecified = false;
}

abbrev web : Web
web = record {
  hostname = λ url. if url == "http://host.io/x" then some "host.io" else some "example.com";
  literal = λ host. none;
  resolve = λ host. some (plain (address (host == "host.io")));
}

abbrev tokens : Tokens
tokens = record {
  google = none;
  notion = none;
  github = some "gho_1";
  slack = none;
  discord = none;
  guild_ids = [];
}

abbrev params : List Parameter
params =
    record { name = "token"; has_default = false }
    ∷ record { name = "url"; has_default = false }
    ∷ []

abbrev config : Entries
config =
    entry "token" (text "forged") (entry "url" (text "http://a.io") (entry "_names" (dict end) end))

abbrev called : Dict Value
called = ("token", text "gho_1") ∷ ("url", text "http://a.io") ∷ []

abbrev unsafe_config : Entries
unsafe_config = entry "urls" (list (cons (text "http://host.io/x") nil)) end

fetched : (run_tool web "builtin:github_get" tokens params config timed_out).1 ≡ some called
unfolding run_tool validate_tool scan_urls is_unsafe is_private_name lacks_token arguments
    injected_args update missing lookup insert erase string_eq starts_with starts_codes codes
fetched = refl

refused :
    run_tool web "builtin:github_get" tokens params unsafe_config timed_out
    ≡ (failed_with (guarded (unsafe_url "http://host.io/x")), none)
unfolding run_tool validate_tool scan_urls is_unsafe is_private_name string_eq starts_with
    starts_codes codes
refused = refl

without_token :
    validate_tool web tokens "builtin:slack_post" end ≡ some (no_token "builtin:slack_post")
unfolding validate_tool scan_urls lacks_token string_eq starts_with starts_codes codes
without_token = refl

run_tool_called_example :
    Allowed web tokens "builtin:github_get" config
    × Proper "builtin:github_get" tokens params config called
run_tool_called_example =
    run_tool_called web "builtin:github_get" tokens params config timed_out called fetched

scanned : scan_urls web (dict config) ≡ none
unfolding scan_urls is_unsafe is_private_name string_eq starts_with starts_codes codes
scanned = refl

abbrev answer : Value
answer = list (cons (text "my ghp_a1 and Bearer 0123456789.") nil)

masked :
    mask answer ≡ list (cons (text "my [MASKED_GITHUB_TOKEN] and Bearer [MASKED_BEARER_TOKEN]") nil)
unfolding mask mask_string replace replace_from prefix_run discord_token bearer_token span drop_text
    starts_with starts_codes codes
masked = refl
