-- ===== src/Builder/Write.antt =====
-- core/builder/fields.py: which values the model may write into the fields of a node.
pub mod Said
pub mod Destinations
pub mod Keys
pub mod Guarded
mod Tests
use ieum_agent.Base.{
  ℕ, String, Bool, true, false, not, ◌&&◌, ◌||◌, Option, none, some, List, [], ◌∷◌, ◌++◌, ◌==◌,
  string_eq, if◌then◌else◌, contains, first, map, select, reverse, is_some,
}
use ieum_agent.Base.Dict.{Dict, lookup, insert, erase}
use ieum_agent.Value.{
  nil, Value, null, text, list, dict, Entries, end, get, as_dict, entries, of_entries, values,
}
use ieum_agent.Value.Text.{◌<>◌, split, codes, has_ref}
use ieum_agent.Paths.{Stored, stored, get_by_path, set_by_path}
use ieum_agent.Catalog.{Info, Field, info, Catalog, Entry, match_entry}
use ieum_agent.Validator.Branches.{is_text}
use ieum_agent.Builder.State.{Codec}
use ieum_agent.Builder.Clean.{clean}
use ieum_agent.Builder.Write.Said.{said_literally}
use ieum_agent.Builder.Write.Destinations.{
  Urls, is_url_field, is_email_field, check_url, check_emails, Reason, wrong_name, unknown_field,
  no_dict, no_choice, unseen, no_branches,
}
use ieum_agent.Builder.Write.Keys.{keyed_branches}

-- What the user has said, and the options that list_options has shown.
pub record Heard : Type 0 where
  pub user_text : String
  pub user_hosts : List String
  pub options_seen : Dict (Dict String)

-- `_FORBIDDEN_KEYS`
abbrev pub forbidden_keys : List String
forbidden_keys =
    "credentialId" ∷ "token" ∷ "allowed_guild_ids" ∷ "access_token" ∷ "webhook_url"
    ∷ "workflow_context_data" ∷ []

-- `_CARD_PATHS`, and the list of tools as a whole
abbrev pub card_paths : List String
card_paths = "config.llmProvider" ∷ "config.model" ∷ "config.tools" ∷ []

abbrev pub is_writable : Info → Bool
is_writable f = not (contains forbidden_keys f.key) && not (contains card_paths f.path)

abbrev writable_of : Option Entry → List Info
writable_of none = []
writable_of (some entry) = select is_writable (map info entry.input_fields)

-- `writable_fields`; of two fields with one path the later counts
unfoldable pub writable_fields : Catalog → Entries → List Info
unfolding match_entry
writable_fields catalog node = writable_of (match_entry catalog node)

abbrev pub field_at : String → List Info → Option Info
field_at path fields = first (λ (f : Info). f.path == path) (reverse fields)

abbrev join_names : List String → String
join_names [] = ""
join_names (key ∷ []) = "._names." <> key
join_names (key ∷ last ∷ []) = key <> "._names." <> last
join_names (part ∷ next ∷ rest) = part <> "." <> join_names (next ∷ rest)

-- `names_path`
unfoldable pub names_path : String → String
unfolding split
names_path path = join_names (split b'.' path)

abbrev pub is_names_path : List Info → String → Bool
is_names_path fields path = contains (map (λ (f : Info). names_path f.path) fields) path

pub data Written : Type 0 where
  wrote : Value → Written
  refused : Reason → Written
  raised : Written

-- A write that puts an int key into a dict is not followed further: it counts as an exception.
abbrev pub result_of : Stored → Written
result_of (stored node) = wrote node
result_of _ = raised

abbrev pub get_of : String → Value → Value
get_of k (dict es) = get k es
get_of k v = null

-- `value in (None, "")`
abbrev pub is_unset : Value → Bool
is_unset null = true
is_unset (text s) = s == ""
is_unset v = false

-- `key.replace(".", "%2E")`
abbrev join_escaped : List String → String
join_escaped [] = ""
join_escaped (s ∷ []) = s
join_escaped (s ∷ t ∷ rest) = s <> "%2E" <> join_escaped (t ∷ rest)

abbrev merge_one : Dict Value → String → Value → Dict Value
merge_one d k null = erase k d
merge_one d k v = insert k v d

-- a dynamic field is merged: None takes a key away
unfoldable pub merge_values : Dict Value → Dict Value → Dict Value
unfolding split erase insert
merge_values d [] = d
merge_values d ((k, v) ∷ rest) = merge_values (merge_one d (join_escaped (split b'.' k)) v) rest

abbrev dict_or_empty : Value → Dict Value
dict_or_empty (dict es) = entries es
dict_or_empty v = []

abbrev text_of : Value → String
text_of (text s) = s
text_of v = ""

abbrev pub shown_options : Heard → Value → String → Dict String
shown_options heard node path =
    elim (lookup (text_of (get_of "id" node) <> "|" <> path) heard.options_seen) [
      | none ↦ []
      | some d ↦ d
    ]

-- a choice of a dropdown: shown, or said
abbrev pub check_choice : Heard → Value → String → Value → Option Reason
check_choice heard node path (text s) =
    if has_ref s
    then some no_choice
    else if is_some (lookup s (shown_options heard node path)) || said_literally s heard.user_text
    then none
    else some unseen
check_choice heard node path v = some no_choice

abbrev pub or_next : Option Reason → Option Reason → Option Reason
or_next none next = next
or_next (some r) next = some r

abbrev pub unless : Bool → Option Reason → Option Reason
unless true check = none
unless false check = check

module _ (catalog : Catalog) (codec : Codec) (urls : Urls) (draw : List String → String)
    (heard : Heard) where
  -- the three checks of a value that is set
  abbrev pub check_value : Value → String → Value → Info → Option Reason
  check_value node path value f =
      or_next
        (unless (is_unset value || f.options_source == "") (check_choice heard node path value))
        (or_next
          (unless (is_unset value || not (is_url_field (get_of "event" node) path))
            (check_url urls heard.user_hosts value))
          (unless (is_unset value || not (is_email_field (get_of "event" node) path))
            (check_emails heard.user_text value)))

  abbrev is_branches : Value → String → Value → Bool
  is_branches node path value =
      is_text "branch.if" (get_of "event" node)
      && path == "config.branches"
      && not (is_null_or_nil value)
    where
      is_null_or_nil : Value → Bool
      is_null_or_nil null = true
      is_null_or_nil (list nil) = true
      is_null_or_nil v = false

  abbrev store_keyed : Value → String → Option Value → Written
  store_keyed node path none = refused no_branches
  store_keyed node path (some v) = result_of (set_by_path node path v)

  abbrev pub store_checked : Value → String → Value → Option Reason → Written
  store_checked node path value (some r) = refused r
  store_checked node path value none =
      if is_branches node path value
      then store_keyed node path (keyed_branches codec draw (get_by_path node path) value)
      else result_of (set_by_path node path value)

  abbrev pub store_dynamic : Value → String → Value → Written
  store_dynamic node path (dict es) = result_of (
      set_by_path node path
        (dict (of_entries (merge_values (dict_or_empty (get_by_path node path)) (entries es)))))
  store_dynamic node path v = refused no_dict

  abbrev pub write_field : Value → String → Value → Option Info → Written
  write_field node path value none = refused unknown_field
  write_field node path value (some f) =
      if f.fields_source == ""
      then store_checked node path value (check_value node path value f)
      else store_dynamic node path value

  abbrev write_name : Value → String → Value → Written
  write_name node path (text s) = result_of (set_by_path node path (text (clean codec 60 (text s))))
  write_name node path v = refused wrong_name

  -- `_write`
  unfoldable pub write : List Info → Value → String → Value → Written
  unfolding names_path set_by_path get_by_path get check_url check_emails said_literally
      keyed_branches has_ref is_url_field is_email_field merge_values lookup
  write fields node path value =
      if is_names_path fields path
      then write_name node path value
      else write_field node path value (field_at path fields)

  -- The node after all writes, the paths that were written, and those refused, with the reason; `none`
  -- is an exception.
  unfoldable pub write_all :
      List Info → Value → Dict Value → Option (Value × List String × Dict Reason)
  write_all fields node [] = some (node, [], [])
  write_all fields node ((path, value) ∷ rest) = elim (write fields node path value) [
    | raised ↦ none
    | refused r ↦ elim (write_all fields node rest) [
      | none ↦ none
      | some (after, applied, rejected) ↦ some (after, applied, (path, r) ∷ rejected)
    ]
    | wrote node' ↦ elim (write_all fields node' rest) [
      | none ↦ none
      | some (after, applied, rejected) ↦ some (after, path ∷ applied, rejected)
    ]
  ]

  -- `apply_fields`
  unfoldable pub apply_fields : Entries → Dict Value → Option (Value × List String × Dict Reason)
  unfolding writable_fields write_all
  apply_fields node values = write_all (writable_fields catalog node) (dict node) values
