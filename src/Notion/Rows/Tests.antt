-- ===== src/Notion/Rows/Tests.antt =====
-- Rows at concrete inputs.
use ieum_agent.Base.{
  ◌≡◌, refl, ◌≤◌, ℕ, String, true, false, Option, none, some, List, [], ◌∷◌, string_eq, inl, inr,
  All, length,
}
use ieum_agent.Base.Dict.{Dict, lookup, insert}
use ieum_agent.Base.Result.{ok, err}
use ieum_agent.Value.{Value, text, bool, dict, list, nil, cons, Entries, end, entry, get}
use ieum_agent.Value.Text.{codes, strip, is_blank, take_text, drop_text}
use ieum_agent.Notion.Segments.{chunks, chunks_from, rich_text_limit, join, join-chunks}
use ieum_agent.Notion.Values.{Python, blank, stored_key, notion_id}
use ieum_agent.Notion.Convert.{
  kind_of, status, no_state, twice, convert, option, options_of, to_checkbox,
}
use ieum_agent.Notion.Convert.Fits.{Fits, convert-Fits}
use ieum_agent.Notion.Build.{
  Property, properties_of, schema_properties, find_property, kind_in, build_from, build,
}
use ieum_agent.Notion.Build.Sound.{Converts, Given, cell, build_writes, build_only}
use ieum_agent.Notion.Http.{
  Request, get_source, get_page, patch_page, patch_markdown, Reply, answered, Server, api_error,
  call, fetch,
}
use ieum_agent.Notion.Rows.{failed, update_row}
use ieum_agent.Notion.Rows.Patched.{patched}
use ieum_agent.Notion.Rows.Prefix.{update_row_truthful}

abbrev py : Python
py = record {
  str = λ v. "7";
  read_int = λ s. none;
  read_finite = λ s. none;
  read_json = λ s. none;
  is_decimal = λ c. false;
}

abbrev named : String → String → String → Entries → Entries
named id name type rest =
    entry "id" (text id) (entry "name" (text name) (entry "type" (text type) rest))

abbrev status_attrs : Entries
status_attrs = named "s" "State" "status" (
    entry "status"
      (dict (entry "options" (list (cons (dict (entry "name" (text "Open") end)) nil)) end)) end)

abbrev schema : Value
schema = dict (
    entry "properties"
      (dict (
        entry "Done" (dict (named "d.1" "Done" "checkbox" end))
          (entry "State" (dict status_attrs) end)))
      end)

abbrev props : List Property
props =
    record { id = "d.1"; name = "Done"; raw = named "d.1" "Done" "checkbox" end }
    ∷ record { id = "s"; name = "State"; raw = status_attrs }
    ∷ []

abbrev given : Dict Value
given = ("d%2E1", text " TRUE ") ∷ ("State", text "Open") ∷ ("Gone", text " ") ∷ []

abbrev row : Dict Value
row =
    ("d.1", dict (entry "checkbox" (bool true) end))
    ∷ ("s", dict (entry "status" (dict (entry "name" (text "Open") end)) end))
    ∷ []

read : schema_properties schema ≡ ok props
unfolding schema_properties properties_of get string_eq
read = refl

row_built : build py schema given ≡ ok row
unfolding build build_from blank is_blank strip stored_key find_property kind_in kind_of convert
    option options_of to_checkbox schema_properties properties_of get string_eq codes insert
row_built = refl

given_twice :
    build py schema (("Done", bool true) ∷ ("d%2E1", bool false) ∷ []) ≡ err (twice "Done")
unfolding build build_from blank is_blank strip stored_key find_property kind_in kind_of convert
    option options_of to_checkbox schema_properties properties_of get string_eq codes insert
given_twice = refl

closed_state : convert py status_attrs status (text "Closed") ≡ err no_state
unfolding convert option options_of strip get string_eq
closed_state = refl

is_given : blank (text "Open") ≡ false
unfolding blank is_blank
is_given = refl

build_writes_example :
    (c : Converts py props "State" (text "Open")) × (lookup c.property.id row
      ≡ cell py c.type c.sent)
build_writes_example =
    build_writes py schema given row props "State" (text "Open") read row_built (inr (inl refl))
      is_given

done_found : lookup "d.1" row ≡ some (dict (entry "checkbox" (bool true) end))
unfolding lookup string_eq
done_found = refl

build_only_example : Given py props given "d.1" (dict (entry "checkbox" (bool true) end))
build_only_example =
    build_only py schema given row props "d.1" (dict (entry "checkbox" (bool true) end)) read
      row_built done_found

open_sent :
    convert py status_attrs status (text "Open") ≡ ok (some (dict (entry "name" (text "Open") end)))
unfolding convert option options_of strip get string_eq
open_sent = refl

convert-Fits_example : Fits status_attrs status (dict (entry "name" (text "Open") end))
convert-Fits_example =
    convert-Fits py status_attrs status (text "Open") (dict (entry "name" (text "Open") end))
      open_sent

three_pieces : chunks 2 "abcde" ≡ "ab" ∷ "cd" ∷ "e" ∷ []
unfolding chunks chunks_from take_text drop_text codes
three_pieces = refl

join-chunks_example :
    (join (chunks rich_text_limit "abc") ≡ "abc")
    × All (λ t. length (codes t) ≤ rich_text_limit) (chunks rich_text_limit "abc")
join-chunks_example = join-chunks "abc"

abbrev page : Value
page = dict (
    entry "parent"
      (dict (entry "type" (text "data_source_id") (entry "data_source_id" (text "src") end)))
      (entry "url" (text "u") end))

abbrev answer : ℕ → Option Value → Reply
answer code body = answered (record { status = code; retry_after = none; body = body })

-- a server that changes properties and refuses contents
abbrev server : Server
server log (get_page r) = answer 200 (some page)
server log (get_source s) = answer 200 (some schema)
server log (patch_page r changes) = answer 200 none
server log r = answer 400 none

abbrev row_id : String
row_id = "0123456789abcdef0123456789abcdef"

abbrev log : List Request
log = patch_markdown row_id "new" ∷ patch_page row_id row ∷ get_source "src" ∷ get_page row_id ∷ []

half_done :
    update_row server py
      (text row_id)
      (dict (entry "d%2E1" (text "true") (entry "s" (text "Open") end)))
      (text "new")
      []
    ≡ (failed true (api_error 400), log)
unfolding update_row call fetch notion_id build build_from blank is_blank strip stored_key
    find_property kind_in kind_of convert option options_of to_checkbox schema_properties
    properties_of get string_eq codes insert lookup
half_done = refl

update_row_truthful_example : patched server log ≡ true
update_row_truthful_example =
    update_row_truthful server py (text row_id)
      (dict (entry "d%2E1" (text "true") (entry "s" (text "Open") end))) (text "new") true
      (api_error 400) log half_done
