-- ===== src/Builder/Write/Keys.antt =====
-- `_keyed_branches` of core/builder/fields.py: the keys of the branches of a condition, which edges
-- point to. A new key is one that the uuids drawn give and that is not taken.
pub mod Distinct
use ieum_agent.Base.{
  String, Bool, true, false, not, ◌&&◌, ◌||◌, Option, none, some, List, [], ◌∷◌, ◌++◌, ◌==◌,
  string_eq, if◌then◌else◌, contains, is_some,
}
use ieum_agent.Base.Dict.{Dict, lookup, insert}
use ieum_agent.Value.{
  Value, null, text, list, dict, Values, nil, cons, Entries, get, entries, of_entries, is_true,
  of_values,
}
use ieum_agent.Value.Text.{strip}
use ieum_agent.Builder.State.{Codec}
use ieum_agent.Builder.Clean.{to_text}

-- the branches, if each of them is an object
unfoldable pub all_objects : Values → Option (List Entries)
all_objects nil = some []
all_objects (cons (dict es) vs) = elim (all_objects vs) [
  | none ↦ none
  | some rest ↦ some (es ∷ rest)
]
all_objects (cons v vs) = none

abbrev objects : Values → List Entries
objects nil = []
objects (cons (dict es) vs) = es ∷ objects vs
objects (cons v vs) = objects vs

abbrev pub old_branches : Value → List Entries
old_branches (list vs) = objects vs
old_branches v = []

abbrev is_reserved : String → Bool
is_reserved k = k == "else" || k == "true" || k == "false"

abbrev add_key : Value → List String → List String
add_key (text k) keys = if k == "" || is_reserved k then keys else k ∷ keys
add_key v keys = keys

-- the keys that there are
unfoldable pub existing_keys : List Entries → List String
unfolding get
existing_keys [] = []
existing_keys (b ∷ bs) = add_key (get "key" b) (existing_keys bs)

module _ (codec : Codec) where
  -- `str(b.get("name") or "").strip()`
  abbrev pub branch_name : Entries → String
  branch_name b = if is_true (get "name" b) then strip (to_text codec (get "name" b)) else ""

  abbrev set_default : String → Value → List String → Dict String → Dict String
  set_default name (text k) existing d =
      if name == "" || not (contains existing k) || is_some (lookup name d)
      then d
      else insert name k d
  set_default name v existing d = d

  unfoldable pub keys_by_name : List String → Dict String → List Entries → Dict String
  unfolding get strip lookup insert
  keys_by_name existing d [] = d
  keys_by_name existing d (b ∷ bs) =
      keys_by_name existing (set_default (branch_name b) (get "key" b) existing d) bs

  abbrev pub sent_key : Entries → Value
  sent_key b = strip_key (get "key" b)
    where
      strip_key : Value → Value
      strip_key (text k) = text (strip k)
      strip_key v = v

  -- the key that a branch keeps, where it names one that there is and that no branch before it has
  abbrev pub reserve : List String → List String → Value → Option String
  reserve existing used (text k) =
      if contains existing k && not (contains used k) then some k else none
  reserve existing used v = none

  abbrev pub and_used : Option String → List String → List String
  and_used none used = used
  and_used (some k) used = k ∷ used

  unfoldable pub kept_keys : List String → List String → List Entries → List (Option String)
  unfolding get strip
  kept_keys existing used [] = []
  kept_keys existing used (b ∷ bs) =
      let k = reserve existing used (sent_key b) in k ∷ kept_keys existing (and_used k used) bs

  abbrev is_unkeyed : Value → Bool
  is_unkeyed null = true
  is_unkeyed (text k) = k == ""
  is_unkeyed v = false

  -- the key of the branch of the same name that there was
  abbrev pub inherited : Dict String → Entries → Option String
  inherited names b = if is_unkeyed (sent_key b) then lookup (branch_name b) names else none

  abbrev pub inherit_or_draw :
      (List String → String) → List String → List String → Option String → String
  inherit_or_draw draw existing used none = draw (existing ++ used)
  inherit_or_draw draw existing used (some k) =
      if contains used k then draw (existing ++ used) else k

  abbrev pub somes : List (Option String) → List String
  somes [] = []
  somes (none ∷ ks) = somes ks
  somes (some k ∷ ks) = k ∷ somes ks

  -- the keys of all branches; `used` starts with the keys that are kept
  unfoldable pub assign :
      (List String → String)
      → List String
      → Dict String
      → List String
      → List Entries
      → List (Option String)
      → List String
  unfolding get strip lookup
  assign draw existing names used (b ∷ bs) (some k ∷ ks) = k ∷ assign draw existing names used bs ks
  assign draw existing names used (b ∷ bs) (none ∷ ks) =
      let k = inherit_or_draw draw existing used (inherited names b) in
      k ∷ assign draw existing names (k ∷ used) bs ks
  assign draw existing names used bs ks = []

  abbrev pub branch_keys_for : (List String → String) → List Entries → List Entries → List String
  branch_keys_for draw old sent =
      let existing = existing_keys old in
      let kept = kept_keys existing [] sent in
      assign draw existing (keys_by_name existing [] old) (somes kept) sent kept

  -- `{**b, "key": k}`
  abbrev pub with_key : Entries → String → Value
  with_key b k = dict (of_entries (insert "key" (text k) (entries b)))

  unfoldable pub with_keys : List Entries → List String → List Value
  unfolding insert
  with_keys (b ∷ bs) (k ∷ ks) = with_key b k ∷ with_keys bs ks
  with_keys bs ks = []

  abbrev pub keyed : (List String → String) → List Entries → Option (List Entries) → Option Value
  keyed draw old none = none
  keyed draw old (some sent) =
      some (list (of_values (with_keys sent (branch_keys_for draw old sent))))

  -- `none` is the refusal
  unfoldable pub keyed_branches : (List String → String) → Value → Value → Option Value
  unfolding all_objects existing_keys keys_by_name kept_keys assign with_keys
  keyed_branches draw current (list vs) = keyed draw (old_branches current) (all_objects vs)
  keyed_branches draw current v = none
