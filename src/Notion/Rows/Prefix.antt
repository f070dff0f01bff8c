-- ===== src/Notion/Rows/Prefix.antt =====
-- Whether an error says that the properties of the row were changed.
use mathlib.Core.Path.{subst}
use ieum_agent.Base.{
  ◌≡◌, refl, ◌∙◌, String, Bool, true, false, not, ◌&&◌, ◌||◌, Option, none, some, [], ◌∷◌,
  if◌then◌else◌, eqb, arith,
}
use ieum_agent.Base.Dict.{Dict}
use ieum_agent.Base.Result.{Result, ok, err}
use ieum_agent.Value.{Value, Entries, get, is_true}
use ieum_agent.Notion.Values.{Python, blank, to_text, notion_id}
use ieum_agent.Notion.Build.{build}
use ieum_agent.Notion.Http.{
  bad_id, bad_properties, api_error, fail, no_row, get_source, get_page, patch_markdown, Response,
  Log, Server, Failure, fetch, continue, ◌>>=◌, return, call, expect_ok, object,
}
use ieum_agent.Notion.Rows.{
  or_fail, given_properties, new_url, plan_page, planned, read_schema, plan_changes, parent_of,
  source_of, replace_content, built, Outcome, done, failed, escaped, Plan, has_changes, plan, patch,
  write_content, end_content, end_patch, end_plan, update_given, update_row,
}
use ieum_agent.Notion.Rows.Patched.{
  patched, Keeps, bind-Keeps, fetch-Keeps, if-Keeps, built-Keeps, object-Keeps, call-Keeps,
  expect_ok-Keeps, Answered, call-Answered,
}

module _ (server : Server) (py : Python) where
  planned-Keeps :
      (page : Entries) (content : Value) (row : Dict Value)
      → Keeps server (planned server py page content row)
  planned-Keeps page content row =
      if-Keeps server (not (has_changes server py row) && blank content) _ _ (λ log. refl)
        (λ log. refl)

  read_schema-Keeps :
      (page : Entries) (source : Value) (given : Dict Value) (content : Value)
      → Keeps server (read_schema server py page source given content)
  read_schema-Keeps page source given content =
      bind-Keeps server (fetch server (get_source (to_text py source)))
        (λ schema. built (planned server py page content) (build py schema given))
        (fetch-Keeps server _ refl)
        λ schema. built-Keeps server (planned server py page content) _ (planned-Keeps page content)

  plan_page-Keeps :
      (given : Dict Value) (content : Value) (page : Entries)
      → Keeps server (plan_page server py given content page)
  plan_page-Keeps given content page =
      bind-Keeps server (parent_of server py (get "parent" page))
        (λ parent. plan_changes server py page (source_of server py parent) given content)
        (if-Keeps server (is_true (get "parent" page)) _ _ (object-Keeps server _) (λ log. refl))
        λ parent.
          if-Keeps server (is_true (source_of server py parent))
            (read_schema server py page (source_of server py parent) given content) (fail no_row)
            (read_schema-Keeps page (source_of server py parent) given content) (λ log. refl)

  plan-Keeps :
      (row : String) (given : Dict Value) (content : Value)
      → Keeps server (plan server py row given content)
  plan-Keeps row given content =
      bind-Keeps server (fetch server (get_page row))
        (λ body. object body >>= plan_page server py given content)
        (fetch-Keeps server (get_page row) refl)
        λ body.
          bind-Keeps server (object body) (plan_page server py given content)
            (object-Keeps server body) (plan_page-Keeps given content)

  -- What a change of properties leaves.
  abbrev Patched : Bool → Bool → Result Failure Value × Log → Type 0
  Patched changed before (ok url, log) = patched server log ≡ (changed || before)
  Patched changed before (err f, log) = patched server log ≡ before

  checked-Patched :
      (before c : Bool) (g : Response → Value) (a : Response) (f : Failure) (log : Log)
      → patched server log ≡ (c || before)
      → Patched true before (continue (λ b. return (g b)) (if c then (ok a, log) else (err f, log)))
  checked-Patched before true g a f log h = h
  checked-Patched before false g a f log h = h

  answer-Patched :
      (before : Bool) (g : Response → Value) (r : Result Failure Response × Log)
      → Answered server before r
      → Patched true before (continue (λ a. expect_ok a >>= λ (b : Response). return (g b)) r)
  answer-Patched before g (ok a, log) h =
      checked-Patched before (eqb a.status 200) g a (api_error a.status) log h
  answer-Patched before g (err f, log) h = h

  patch-Patched :
      (row : String) (changes : Dict Value) (url : Value) (log : Log)
      → Patched
          (has_changes server py changes)
          (patched server log)
          (patch server py row changes url log)
  patch-Patched row [] url log = refl
  patch-Patched row (change ∷ changes) url log =
      answer-Patched (patched server log) (λ b. new_url server py url b.body) _
        (call-Answered server row (change ∷ changes) log)

  write_content-Keeps :
      (row : String) (content : Value) → Keeps server (write_content server py row content)
  write_content-Keeps row content =
      if-Keeps server (blank content) (return tt) (replace_content server py row content)
        (λ log. refl)
        (bind-Keeps server (call server (patch_markdown row (to_text py content)))
          (λ a. expect_ok a >>= λ (b : Response). return tt) (call-Keeps server _ refl)
          λ a.
            bind-Keeps server (expect_ok a) (λ (b : Response). return tt) (expect_ok-Keeps server a)
              (λ b log. refl))

  -- The error of an outcome says that the properties were changed exactly if they were.
  abbrev Truthful : Outcome × Log → Type 0
  Truthful (failed prefix f, log) = patched server log ≡ prefix
  Truthful (done id url, log) = Unit
  Truthful (escaped, log) = Unit

  end_content-Truthful :
      (row : String) (p : Plan server py) (url : Value) (r : Result Failure (Unit {0}) × Log)
      → patched server r.1 ≡ has_changes server py p.changes
      → Truthful (end_content server py row p url r)
  end_content-Truthful row p url (ok u, log) h = tt
  end_content-Truthful row p url (err f, log) h = h

  end_patch-Truthful :
      (row : String) (content : Value) (p : Plan server py) (before : Bool)
      (r : Result Failure Value × Log)
      → before ≡ false
      → Patched (has_changes server py p.changes) before r
      → Truthful (end_patch server py row content p r)
  end_patch-Truthful row content p before (ok url, log) b h =
      end_content-Truthful row p url (write_content server py row content log)
        (write_content-Keeps row content log ∙ (h ∙ (rw b (ground arith))))
  end_patch-Truthful row content p before (err f, log) b h = h ∙ b

  end_plan-Truthful :
      (row : String) (content : Value) (r : Result Failure (Plan server py) × Log)
      → patched server r.1 ≡ false
      → Truthful (end_plan server py row content r)
  end_plan-Truthful row content (ok p, log) h =
      end_patch-Truthful row content p (patched server log) _ h (patch-Patched row p.changes _ log)
  end_plan-Truthful row content (err f, log) h = h

  or_fail-Truthful :
      {A : Type 0} (f : Failure) (next : A → Log → Outcome × Log) (o : Option A)
      → ((a : A) → Truthful (next a []))
      → Truthful (or_fail f next o [])
  unfolding patched
  or_fail-Truthful f next none h = refl
  or_fail-Truthful f next (some a) h = h a

  plan-Truthful :
      (content : Value) (given : Dict Value) (row : String)
      → Truthful (end_plan server py row content (plan server py row given content []))
  plan-Truthful content given row =
      end_plan-Truthful row content (plan server py row given content [])
        (plan-Keeps row given content [] ∙ (unfold patched in refl))

  update-Truthful :
      (row_id properties content : Value)
      → Truthful (update_row server py row_id properties content [])
  unfolding update_row
  update-Truthful row_id properties content =
      or_fail-Truthful bad_properties (update_given server py row_id content)
        (given_properties properties)
        λ given.
          or_fail-Truthful bad_id
            (λ row log. end_plan server py row content (plan server py row given content log))
            (notion_id py row_id) (plan-Truthful content given)

  -- If notion_update_row ends with an error, the error says that the properties of the row were
  -- changed exactly if Notion has answered a change of its properties with 200.
  pub update_row_truthful :
      (row_id properties content : Value) (prefix : Bool) (f : Failure) (log : Log)
      → update_row server py row_id properties content [] ≡ (failed prefix f, log)
      → patched server log ≡ prefix
  update_row_truthful row_id properties content prefix f log h =
      subst Truthful h (update-Truthful row_id properties content)
