-- ===== src/Paths/Tests.antt =====
-- The two path functions at a node without tools.
use package.text.Mathlib.TextEquality.{eq_iff}
use ieum_agent.Base.{String, ◌≡◌, ◌≢◌, refl, ap, string_eq, arith}
use ieum_agent.Base.Dict.{lookup, insert}
use ieum_agent.Value.{Value, text, list, dict, nil, cons, end, entry}
use ieum_agent.Value.Text.{split, is_digits, number}
use ieum_agent.Paths.{parse, stored, int_key, failed, get_by_path, set_by_path}
use ieum_agent.Paths.ReadWrite.{object_of, get-set_by_path}
use ieum_agent.Paths.Frame.{apart, along, get-set_by_path_ne}

abbrev node : Value
node = dict (entry "config" (dict (entry "prompt" (text "hi") end)) end)

abbrev with_catalog : Value
with_catalog = dict (
    entry "config"
      (dict (
        entry "prompt" (text "hi") (
          entry "tools"
            (list (cons (dict (entry "config" (dict (entry "url" (text "u") end)) end)) nil)) end)))
      end)

set_url : set_by_path node "config.tools.0.config.url" (text "u") ≡ stored with_catalog
unfolding set_by_path lookup insert string_eq split is_digits number
set_url = refl

-- an index into a dict, and a step through a list that is filled with dicts first
into_dict :
    set_by_path (dict (entry "a" (text "1") end)) "0" (text "v")
    ≡ int_key (dict (entry "a" (text "1") end))
unfolding set_by_path is_digits number split
into_dict = refl

into_short_dict : set_by_path (dict (entry "a" (text "1") end)) "1" (text "v") ≡ failed
unfolding set_by_path is_digits number split
into_short_dict = refl

filled_with_dicts : set_by_path (dict end) "a.0.0" (text "v") ≡ failed
unfolding set_by_path is_digits number split lookup
filled_with_dicts = refl

get-set_by_path_example : get_by_path with_catalog "config.tools.0.config.url" ≡ text "u"
unfolding set_by_path lookup insert string_eq split is_digits number
get-set_by_path_example =
    get-set_by_path node with_catalog "config.tools.0.config.url" (text "u") (ap object_of set_url)

tools_not_prompt : ◌≢◌ {A = String} "tools" "prompt"
tools_not_prompt = ground (arith, eq_iff "tools" "prompt")

get-set_by_path_ne_example :
    get_by_path with_catalog "config.prompt" ≡ get_by_path node "config.prompt"
unfolding parse split is_digits number
get-set_by_path_ne_example =
    get-set_by_path_ne node with_catalog "config.tools.0.config.url" "config.prompt" (text "u")
      (along (apart tools_not_prompt)) (ap object_of set_url)
