-- ===== src/Validator/Conditions.antt =====
-- `_condition_errors` of core/validators/static_validator.py: the branches of a condition node.
use ieum_agent.Base.{
  ℕ, ◌+◌, String, Bool, true, false, not, ◌&&◌, ◌||◌, Option, none, some, List, [], ◌∷◌, ◌++◌,
  string_eq, contains, if◌then◌else◌, length, take, leb,
}
use ieum_agent.Value.{Value, null, text, list, dict, Entries, get, is_empty, values}
use ieum_agent.Value.Text.{◌<>◌, show}
use ieum_agent.Paths.{get_by_path}
use ieum_agent.Validator.Problem.{
  Error, error_at, clip, sid, too_large, type, required, choice, too_many_branches, too_many_rules,
  no_object, no_text, no_right, key_used, name_used,
}

abbrev pub max_branches : ℕ
max_branches = 10

abbrev pub max_rules : ℕ
max_rules = 10

abbrev pub reserved_branch_keys : List String
reserved_branch_keys = "else" ∷ "true" ∷ "false" ∷ []

-- `v in _RIGHT_UNUSED_OPERATORS`
abbrev pub right_unused : Value → Bool
right_unused (text s) = contains ("isEmpty" ∷ "isNotEmpty" ∷ "isTrue" ∷ "isFalse" ∷ []) s
right_unused v = false

-- `v in (None, "")` or a text
abbrev is_text_or_none : Value → Bool
is_text_or_none null = true
is_text_or_none (text s) = true
is_text_or_none v = false

module _ (nid : Option String) where
  abbrev not_text_errors : String → String → Value → List Error
  not_text_errors loc name v =
      if is_text_or_none v then [] else error_at type (no_text name) nid (loc <> "." <> name) ∷ []

  abbrev rule_errors : String → Value → List Error
  rule_errors loc (dict rule) =
      if not (right_unused (get "operator" rule)) && is_empty (get "right" rule)
      then error_at required no_right nid (loc <> ".right") ∷ []
      else []
  rule_errors loc v = error_at type (no_object "rule") nid loc ∷ []

  unfoldable pub rules_errors : String → ℕ → List Value → List Error
  rules_errors loc j [] = []
  rules_errors loc j (rule ∷ rules) =
      rule_errors (loc <> "." <> show j) rule ++ rules_errors loc (j + 1) rules

  abbrev rule_list_errors : String → Value → List Error
  rule_list_errors loc (list vs) =
      (if leb (length (values vs)) max_rules
        then []
        else error_at too_large too_many_rules nid loc ∷ [])
      ++ rules_errors loc 0 (take max_rules (values vs))
  rule_list_errors loc v = []

  abbrev key_errors : String → List String → Option String → List Error
  key_errors loc keys none = []
  key_errors loc keys (some k) =
      if contains reserved_branch_keys k || contains keys k
      then error_at choice (key_used (clip k)) nid (loc <> ".key") ∷ []
      else []

  abbrev name_errors : String → List String → Option String → List Error
  name_errors loc names none = []
  name_errors loc names (some name) =
      if contains names name
      then error_at choice (name_used (clip name)) nid (loc <> ".name") ∷ []
      else []

  abbrev add : Option String → List String → List String
  add none seen = seen
  add (some s) seen = s ∷ seen

  abbrev one_branch : String → List String → List String → Entries → List Error
  one_branch loc keys names br =
      not_text_errors loc "key" (get "key" br)
      ++ not_text_errors loc "name" (get "name" br)
      ++ rule_list_errors (loc <> ".rules") (get "rules" br)
      ++ key_errors loc keys (sid (get "key" br))
      ++ name_errors loc names (sid (get "name" br))

  -- The loop over the branches, with the keys and the names seen so far.
  unfoldable pub branches_errors : ℕ → List String → List String → List Value → List Error
  branches_errors i keys names [] = []
  branches_errors i keys names (dict br ∷ rest) =
      one_branch ("config.branches." <> show i) keys names br
      ++ branches_errors (i + 1) (add (sid (get "key" br)) keys) (add (sid (get "name" br)) names)
          rest
  branches_errors i keys names (_ ∷ rest) =
      error_at type (no_object "branch") nid ("config.branches." <> show i)
      ∷ branches_errors (i + 1) keys names rest

  abbrev branch_list_errors : Value → List Error
  branch_list_errors (list vs) =
      (if leb (length (values vs)) max_branches
        then []
        else error_at too_large too_many_branches nid "config.branches" ∷ [])
      ++ branches_errors 0 [] [] (take max_branches (values vs))
  branch_list_errors v = []

  unfoldable pub condition_errors : Entries → List Error
  condition_errors node = branch_list_errors (get_by_path (dict node) "config.branches")
