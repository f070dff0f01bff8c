-- ===== src/Notion/Rows.antt =====
-- `notion_create_row` and `notion_update_row`.
pub mod Patched
pub mod Prefix
mod Tests
use ieum_agent.Base.{
  ℕ, String, Bool, true, false, not, ◌&&◌, ◌||◌, Option, none, some, List, [], ◌∷◌, ◌==◌, string_eq,
  if◌then◌else◌,
}
use ieum_agent.Base.Dict.{Dict, lookup}
use ieum_agent.Base.Result.{Result, ok, err}
use ieum_agent.Value.{Value, null, text, dict, Entries, end, get, is_true, entries}
use ieum_agent.Value.Text.{strip}
use ieum_agent.Validator.Branches.{is_text}
use ieum_agent.Notion.Values.{Python, blank, to_text, notion_id}
use ieum_agent.Notion.Convert.{Problem, crashed}
use ieum_agent.Notion.Build.{build}
use ieum_agent.Notion.Http.{
  Template, without, default, named, get_source, get_page, post_page, patch_page, patch_markdown,
  Response, Log, Server, Failure, bad_properties, both_given, bad_id, no_row, nothing_to_change,
  exception, api_error, invalid, fetch, M, continue, ◌>>=◌, return, fail, call, expect_ok, json,
  object,
}

-- `done`: the id and the url of the row. `failed`: whether the error says that the properties were
-- changed. `escaped` is an exception.
pub data Outcome : Type 0 where
  done : Value → Value → Outcome
  failed : Bool → Failure → Outcome
  escaped : Outcome

-- `properties or {}`, if it is a dict or None
abbrev pub given_properties : Value → Option (Dict Value)
given_properties null = some []
given_properties (dict es) = some (entries es)
given_properties v = none

abbrev pub built : {A : Type 0} → (Dict Value → M A) → Result Problem (Dict Value) → M A
built next (ok row) = next row
built next (err crashed) = fail exception
built next (err p) = fail (invalid p)

abbrev pub get_or : String → Value → Entries → Value
get_or k v es = elim (lookup k (entries es)) [ none ↦ v | some w ↦ w ]

abbrev template_of : Python → Value → Template
template_of py v =
    if blank v
    then without
    else if strip (to_text py v) == "default"
    then default
    else named (strip (to_text py v))

abbrev markdown_of : Python → Value → Option String
markdown_of py v = if blank v then none else some (to_text py v)

abbrev of_page : Result Failure Value × Log → Outcome × Log
of_page (ok (dict page), log) =
    (done (get_or "id" (text "") page) (get_or "url" (text "") page), log)
of_page (ok v, log) = (escaped, log)
of_page (err f, log) = (failed false f, log)

abbrev pub or_fail :
    {A : Type 0} → Failure → (A → Log → Outcome × Log) → Option A → Log → Outcome × Log
or_fail f next none log = (failed false f, log)
or_fail f next (some a) log = next a log

module _ (server : Server) (py : Python) where
  abbrev pub post : String → Dict Value → Value → Value → M Value
  post source row template content =
      fetch server (post_page source row (template_of py template) (markdown_of py content))

  abbrev pub create_in : String → Dict Value → Value → Value → M Value
  create_in source given template content = do
    schema ← fetch server (get_source source)
    built (λ row. post source row template content) (build py schema given)

  abbrev create_given : Value → Value → Value → Dict Value → Log → Outcome × Log
  create_given data_source_id template content given log =
      if not (blank template) && not (blank content)
      then (failed false both_given, log)
      else or_fail bad_id (λ source log'. of_page (create_in source given template content log'))
          (notion_id py data_source_id) log

  -- `notion_create_row`
  unfoldable pub create_row : Value → Value → Value → Value → Log → Outcome × Log
  unfolding blank notion_id fetch call build strip
  create_row data_source_id properties template content =
      or_fail bad_properties (create_given data_source_id template content)
        (given_properties properties)

  -- What the row is changed to, and the row as it is.
  pub record Plan : Type 0 where
    pub page : Entries
    pub changes : Dict Value

  abbrev pub source_of : Entries → Value
  source_of parent =
      if is_text "data_source_id" (get "type" parent) then get "data_source_id" parent else null

  abbrev pub parent_of : Value → M Entries
  parent_of v = if is_true v then object v else return end

  abbrev pub has_changes : Dict Value → Bool
  has_changes [] = false
  has_changes (_ ∷ _) = true

  abbrev pub planned : Entries → Value → Dict Value → M Plan
  planned page content row =
      if not (has_changes row) && blank content
      then fail nothing_to_change
      else return (record { page = page; changes = row })

  abbrev pub read_schema : Entries → Value → Dict Value → Value → M Plan
  read_schema page source given content = do
    schema ← fetch server (get_source (to_text py source))
    built (planned page content) (build py schema given)

  abbrev pub plan_changes : Entries → Value → Dict Value → Value → M Plan
  plan_changes page source given content =
      if is_true source then read_schema page source given content else fail no_row

  abbrev pub plan_page : Dict Value → Value → Entries → M Plan
  plan_page given content page = do
    parent ← parent_of (get "parent" page)
    plan_changes page (source_of parent) given content

  -- up to the first write
  abbrev pub plan : String → Dict Value → Value → M Plan
  plan row given content = do
    body ← fetch server (get_page row)
    page ← object body
    plan_page given content page

  abbrev pub new_url : Value → Option Value → Value
  new_url url (some (dict es)) = get_or "url" url es
  new_url url body = url

  abbrev pub patch : String → Dict Value → Value → M Value
  patch row [] url = return url
  patch row (change ∷ changes) url = do
    a ← call server (patch_page row (change ∷ changes))
    b ← expect_ok a
    return (new_url url b.body)

  abbrev pub replace_content : String → Value → M (Unit {0})
  replace_content row content = do
    a ← call server (patch_markdown row (to_text py content))
    b ← expect_ok a
    return tt

  abbrev pub write_content : String → Value → M (Unit {0})
  write_content row content = if blank content then return tt else replace_content row content

  abbrev page_id : String → Value → Value
  page_id row v = if is_true v then v else text row

  abbrev pub end_content : String → Plan → Value → Result Failure (Unit {0}) × Log → Outcome × Log
  end_content row p url (ok _, log) = (done (page_id row (get "id" p.page)) url, log)
  end_content row p url (err f, log) = (failed (has_changes p.changes) f, log)

  abbrev pub end_patch : String → Value → Plan → Result Failure Value × Log → Outcome × Log
  end_patch row content p (ok url, log) = end_content row p url (write_content row content log)
  end_patch row content p (err f, log) = (failed false f, log)

  abbrev pub end_plan : String → Value → Result Failure Plan × Log → Outcome × Log
  end_plan row content (ok p, log) =
      end_patch row content p (patch row p.changes (get_or "url" (text "") p.page) log)
  end_plan row content (err f, log) = (failed false f, log)

  abbrev pub update_given : Value → Value → Dict Value → Log → Outcome × Log
  update_given row_id content given =
      or_fail bad_id (λ row log. end_plan row content (plan row given content log))
        (notion_id py row_id)

  -- `notion_update_row`
  unfoldable pub update_row : Value → Value → Value → Log → Outcome × Log
  unfolding blank notion_id fetch call build
  update_row row_id properties content =
      or_fail bad_properties (update_given row_id content) (given_properties properties)
