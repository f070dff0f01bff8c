-- ===== src/Notion/Build.antt =====
-- `_build`: the properties of a row from simple values, by the schema of its database.
pub mod Sound
use ieum_agent.Base.{
  String, Bool, true, false, ◌||◌, Option, none, some, List, [], ◌∷◌, ◌==◌, string_eq,
  if◌then◌else◌, first, contains,
}
use ieum_agent.Base.Dict.{Dict, insert}
use ieum_agent.Base.Result.{Result, ok, err, ◌>>=◌}
use ieum_agent.Value.{Value, null, text, list, dict, Entries, end, entry, get, is_true}
use ieum_agent.Notion.Values.{Python, blank, stored_key}
use ieum_agent.Notion.Convert.{
  PropertyKind, kind_of, Problem, unknown_key, twice, read_only, crashed, convert,
}

-- A property of the schema that has an id and a name.
pub record Property : Type 0 where
  pub id : String
  pub name : String
  pub raw : Entries

abbrev named : Entries → Value → Value → Option Property
named es (text id) (text name) = some (record { id = id; name = name; raw = es })
named es i n = none

abbrev or_skip : Option Property → List Property → List Property
or_skip none rest = rest
or_skip (some p) rest = p ∷ rest

unfoldable pub properties_of : Entries → List Property
unfolding get
properties_of end = []
properties_of (entry k (dict es) rest) =
    or_skip (named es (get "id" es) (get "name" es)) (properties_of rest)
properties_of (entry k v rest) = properties_of rest

-- `(schema.get("properties") or {}).values()`
abbrev listed : Value → Result Problem (List Property)
listed (dict es) = ok (properties_of es)
listed v = if is_true v then err crashed else ok []

unfoldable pub schema_properties : Value → Result Problem (List Property)
unfolding properties_of get
schema_properties (dict es) = listed (get "properties" es)
schema_properties v = err crashed

abbrev or_else : Option Property → Option Property → Option Property
or_else (some p) q = some p
or_else none q = q

-- by its id, and else by its name
unfoldable pub find_property : List Property → String → Option Property
unfolding stored_key
find_property props key =
    or_else (first (λ p. stored_key p.id == key) props) (first (λ p. p.name == key) props)

-- the kind of a property that can be written, with its name
abbrev typed : Property → Value → Result Problem (String × PropertyKind)
typed p (text t) = elim (kind_of t) [ some kind ↦ ok (t, kind) | none ↦ err (read_only p.name) ]
typed p (list vs) = err crashed
typed p (dict es) = err crashed
typed p v = err (read_only p.name)

unfoldable pub kind_in : Property → Result Problem (String × PropertyKind)
unfolding get kind_of
kind_in p = typed p (get "type" p.raw)

abbrev pub put_cell : String → String → Option Value → Dict Value → Dict Value
put_cell id t none out = out
put_cell id t (some v) out = insert id (dict (entry t v end)) out

-- One value that is not blank; `seen` are the ids of the properties that were given so far.
abbrev pub add_value :
    Python
    → List String
    → Dict Value
    → String
    → Value
    → Option Property
    → Result Problem (List String × Dict Value)
add_value py seen out key v none = err (unknown_key key)
add_value py seen out key v (some p) = if contains seen p.id then err (twice p.name) else do
  (t, kind) ← kind_in p
  w ← convert py p.raw kind v
  ok (p.id ∷ seen, put_cell p.id t w out)

unfoldable pub build_from :
    Python → List Property → List String → Dict Value → Dict Value → Result Problem (Dict Value)
unfolding blank
build_from py props seen out [] = ok out
build_from py props seen out ((key, v) ∷ rest) = elim (blank v) [
  | true ↦ build_from py props seen out rest
  | false ↦ do
    (seen', out') ← add_value py seen out key v (find_property props key)
    build_from py props seen' out' rest
]

unfoldable pub build : Python → Value → Dict Value → Result Problem (Dict Value)
unfolding build_from schema_properties
build py schema given = do props ← schema_properties schema; build_from py props [] [] given
