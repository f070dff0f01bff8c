-- ===== src/Builder/Write/Tests.antt =====
-- Writes at concrete inputs.
use ieum_agent.Base.{
  ◌≡◌, ◌≢◌, ◌↔◌, refl, ℕ, zero, suc, ◌+◌, ◌<◌, ap, arith, test_of_ne, String, true, false, some,
  List, [], ◌∷◌, ◌==◌, string_eq, contains, Distinct, length,
}
use ieum_agent.Base.Dict.{lookup, insert}
use ieum_agent.Value.{
  Value, text, list, dict, Values, nil, cons, Entries, end, entry, get, of_values,
}
use ieum_agent.Value.Text.{codes, split, strip, is_digits, has_ref, has_codes, starts_codes}
use ieum_agent.Paths.{set_by_path, set_segments, put_last, put, child, segment, parse}
use ieum_agent.Catalog.{Info}
use ieum_agent.Builder.State.{Codec}
use ieum_agent.Builder.Write.Said.{said_literally, stands_in, after, is_address}
use ieum_agent.Builder.Write.Said.Standing.{Stands, said_literally_iff}
use ieum_agent.Builder.Write.Destinations.{
  Urls, is_url_field, is_email_field, check_url, check_emails, cut_scheme, authority_of,
  is_bad_authority, addresses, unsaid_email,
}
use ieum_agent.Builder.Write.Destinations.Checked.{SaidEmails, SaidUrl}
use ieum_agent.Builder.Write.Keys.{
  all_objects, existing_keys, keys_by_name, kept_keys, assign, with_keys, keyed_branches,
}
use ieum_agent.Builder.Write.Keys.Distinct.{keyed_branches-Distinct}
use ieum_agent.Builder.Write.{
  get_of, Heard, wrote, refused, write, names_path, is_names_path, field_at,
}
use ieum_agent.Builder.Write.Guarded.{write_email_said, write_url_said}

abbrev codec : Codec
codec = record { str = λ v. ""; dumps = λ es. ""; dumps_workflow = λ ns es. ""; sha256 = λ s. s }

abbrev urls : Urls
urls url = some "a.io"

abbrev total : List String → ℕ
total [] = 0
total (k ∷ ks) = length (codes k) + total ks

abbrev bees : ℕ → String
bees zero = ""
bees (suc n) = String.◌∷◌ "b" (bees n)

-- a key longer than all that are taken
abbrev draw : List String → String
draw taken = bees (suc (total taken))

length-bees : (n : ℕ) → length (codes (bees n)) ≡ n
unfolding codes
length-bees zero = refl
length-bees (suc n) = ap suc (length-bees n)

bees-absent : (n : ℕ) (taken : List String) → total taken < n → contains taken (bees n) ≡ false
bees-absent n [] h = refl
bees-absent n (k ∷ ks) h =
    let other =
      test_of_ne (bees n) k
        (λ e. absurd (omega (arith, length-bees n, ap (λ (t : String). length (codes t)) e))) in
    rw (other, bees-absent n ks (omega arith)) refl

drawn : (taken : List String) → contains taken (draw taken) ≡ false
drawn taken = bees-absent (suc (total taken)) taken (omega arith)

abbrev heard : Heard
heard = record {
  user_text = "mail to kim@a.io please";
  user_hosts = "a.io" ∷ [];
  options_seen = [];
}

abbrev field : String → String → Info
field key path = record {
  key = key;
  title = key;
  path = path;
  ftype = "string";
  required = false;
  has_default = false;
  is_list = false;
  no_ref = false;
  choices = [];
  options_source = "";
  options_inputs = [];
  fields_source = "";
  fields_inputs = [];
}

abbrev fields : List Info
fields = field "to" "config.to" ∷ field "url" "config.url" ∷ []

abbrev mail_node : Value
mail_node = dict (entry "id" (text "m") (entry "event" (text "gmail.send_email") end))

abbrev mail_after : Value
mail_after = dict (
    entry "id" (text "m") (
      entry "event" (text "gmail.send_email")
        (entry "config" (dict (entry "to" (text "kim@a.io,") end)) end)))

written :
    write [] codec urls draw heard fields mail_node "config.to" (text "kim@a.io,")
    ≡ wrote mail_after
unfolding write names_path set_by_path set_segments put_last put child parse segment get check_url
    check_emails addresses said_literally stands_in after is_address has_ref has_codes starts_codes
    codes split strip is_url_field is_email_field string_eq insert lookup is_digits
written = refl

someone_else :
    write [] codec urls draw heard fields mail_node "config.to" (text "im@a.io")
    ≡ refused unsaid_email
unfolding write names_path set_by_path set_segments put_last put child parse segment get check_url
    check_emails addresses said_literally stands_in after is_address has_ref has_codes starts_codes
    codes split strip is_url_field is_email_field string_eq insert lookup is_digits
someone_else = refl

no_name : is_names_path fields "config.to" ≡ false
unfolding names_path split string_eq codes
no_name = refl

found : field_at "config.to" fields ≡ some (field "to" "config.to")
unfolding string_eq
found = refl

static : ◌==◌ {A = String} "" "" ≡ true
unfolding string_eq
static = refl

mails : is_email_field (get_of "event" mail_node) "config.to" ≡ true
unfolding is_email_field string_eq get
mails = refl

full : ◌==◌ {A = String} "kim@a.io," "" ≡ false
unfolding string_eq
full = refl

write_email_said_example : SaidEmails "mail to kim@a.io please" (text "kim@a.io,")
write_email_said_example =
    write_email_said [] codec urls draw heard fields mail_node "config.to" (text "kim@a.io,")
      mail_after (field "to" "config.to") written no_name found static mails full

said_literally_iff_example : (said_literally "kim@a.io" "mail to kim@a.io please" ≡ true) ↔ (
    (◌≢◌ {A = String} "kim@a.io" "")
    × Stands false (codes "kim@a.io") (codes "mail to kim@a.io please"))
said_literally_iff_example = said_literally_iff "kim@a.io" "mail to kim@a.io please"

abbrev request_node : Value
request_node = dict (entry "id" (text "r") (entry "event" (text "http.request") end))

abbrev request_after : Value
request_after = dict (
    entry "id" (text "r") (
      entry "event" (text "http.request")
        (entry "config" (dict (entry "url" (text "HTTPS://a.io/x") end)) end)))

requested :
    write [] codec urls draw heard fields request_node "config.url" (text "HTTPS://a.io/x")
    ≡ wrote request_after
unfolding write names_path set_by_path set_segments put_last put child parse segment get check_url
    cut_scheme authority_of is_bad_authority has_codes starts_codes codes split is_url_field
    is_email_field string_eq insert lookup is_digits
requested = refl

no_name_either : is_names_path fields "config.url" ≡ false
unfolding names_path split string_eq codes
no_name_either = refl

url_found : field_at "config.url" fields ≡ some (field "url" "config.url")
unfolding string_eq
url_found = refl

requests : is_url_field (get_of "event" request_node) "config.url" ≡ true
unfolding is_url_field string_eq get
requests = refl

url_full : ◌==◌ {A = String} "HTTPS://a.io/x" "" ≡ false
unfolding string_eq
url_full = refl

write_url_said_example : SaidUrl urls ("a.io" ∷ []) (text "HTTPS://a.io/x")
write_url_said_example =
    write_url_said [] codec urls draw heard fields request_node "config.url" (text "HTTPS://a.io/x")
      request_after (field "url" "config.url") requested no_name_either url_found static requests
      url_full

abbrev branch : String → Entries
branch name = entry "name" (text name) end

abbrev keyed_branch : String → String → Entries
keyed_branch name key = entry "name" (text name) (entry "key" (text key) end)

abbrev current : Value
current = list (cons (dict (keyed_branch "A" "k1")) (cons (dict (keyed_branch "B" "k2")) nil))

-- the name A is taken by the branch that has its key
abbrev sent : Values
sent = cons (dict (branch "A")) (cons (dict (keyed_branch "C" "k1")) (cons (dict (branch "B")) nil))

abbrev renamed : Value
renamed = list (
    cons (dict (keyed_branch "A" "bbbbbbb"))
      (cons (dict (keyed_branch "C" "k1")) (cons (dict (keyed_branch "B" "k2")) nil)))

keyed : keyed_branches codec draw current (list sent) ≡ some renamed
unfolding keyed_branches all_objects existing_keys keys_by_name kept_keys assign with_keys get
    insert lookup strip string_eq codes
keyed = refl

keyed_branches-Distinct_example :
    (bs : List Entries) × (keys : List String) × (all_objects sent ≡ some bs)
    × (renamed ≡ list (of_values (with_keys codec bs keys)))
    × (length keys ≡ length bs)
    × Distinct keys
keyed_branches-Distinct_example =
    keyed_branches-Distinct codec draw drawn current renamed sent keyed
