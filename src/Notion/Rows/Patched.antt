-- ===== src/Notion/Rows/Patched.antt =====
-- Whether Notion has changed the properties of a row, over the requests so far.
use ieum_agent.Base.{
  ◌≡◌, refl, ◌∙◌, String, Bool, true, false, ◌&&◌, ◌||◌, Option, none, some, [], ◌∷◌, if◌then◌else◌,
  eqb, arith,
}
use ieum_agent.Base.Dict.{Dict}
use ieum_agent.Base.Result.{Result, ok, err}
use ieum_agent.Value.{Value, dict}
use ieum_agent.Notion.Convert.{Problem, crashed}
use ieum_agent.Notion.Http.{
  patch_page, Request, Reply, raised, answered, Response, Log, Server, Failure, M, fetch, waits,
  continue, ◌>>=◌, call, of_reply, second_try, expect_ok, json, object,
}
use ieum_agent.Notion.Rows.{built}

module _ (server : Server) where
  abbrev pub is_ok : Reply → Bool
  is_ok raised = false
  is_ok (answered a) = eqb a.status 200

  abbrev pub is_patch : Request → Bool
  is_patch (patch_page row changes) = true
  is_patch r = false

  -- Notion has answered a change of properties with 200.
  unfoldable pub patched : Log → Bool
  patched [] = false
  patched (r ∷ log) = is_patch r && is_ok (server log r) || patched log

  abbrev pub Keeps : {A : Type 0} → M A → Type 0
  Keeps m = (log : Log) → patched (m log).1 ≡ patched log

  continue-Keeps :
      {A B : Type 0} (f : A → M B) (r : Result Failure A × Log)
      → ((a : A) → Keeps (f a))
      → patched (continue f r).1 ≡ patched r.1
  continue-Keeps f (ok a, log) h = h a log
  continue-Keeps f (err e, log) h = refl

  pub bind-Keeps :
      {A B : Type 0} (m : M A) (f : A → M B) → Keeps m → ((a : A) → Keeps (f a)) → Keeps (m >>= f)
  bind-Keeps m f h k log = continue-Keeps f (m log) k ∙ h log

  second_try-Keeps :
      (r : Request) (log : Log) (reply : Reply)
      → is_patch r ≡ false
      → patched (second_try server r log reply).1 ≡ patched log
  unfolding patched
  second_try-Keeps r log raised h = ground arith
  second_try-Keeps r log (answered a) h = ground arith

  pub call-Keeps : (r : Request) → is_patch r ≡ false → Keeps (call server r)
  unfolding call
  call-Keeps r h log = second_try-Keeps r log (server log r) h

  pub expect_ok-Keeps : (a : Response) → Keeps (expect_ok a)
  expect_ok-Keeps a log = ground arith

  json-Keeps : (v : Option Value) → Keeps (json v)
  json-Keeps none log = refl
  json-Keeps (some v) log = refl

  pub object-Keeps : (v : Value) → Keeps (object v)
  object-Keeps (dict es) log = refl
  object-Keeps v log = refl

  pub fetch-Keeps : (r : Request) → is_patch r ≡ false → Keeps (fetch server r)
  unfolding fetch
  fetch-Keeps r h =
      bind-Keeps (call server r) (λ a. expect_ok a >>= λ (b : Response). json b.body)
        (call-Keeps r h)
        λ a.
          bind-Keeps (expect_ok a) (λ (b : Response). json b.body) (expect_ok-Keeps a)
            λ b. json-Keeps b.body

  pub if-Keeps :
      {A : Type 0} (b : Bool) (m n : M A) → Keeps m → Keeps n → Keeps (if b then m else n)
  if-Keeps true m n h k = h
  if-Keeps false m n h k = k

  pub built-Keeps :
      {A : Type 0} (next : Dict Value → M A) (r : Result Problem (Dict Value))
      → ((row : Dict Value) → Keeps (next row))
      → Keeps (built next r)
  built-Keeps next (ok row) h = h row
  built-Keeps next (err crashed) h = λ log. refl
  built-Keeps next (err p) h = λ log. refl

  -- the answer to a change of properties
  abbrev pub Answered : Bool → Result Failure Response × Log → Type 0
  Answered before (ok a, log) = patched log ≡ (eqb a.status 200 || before)
  Answered before (err e, log) = patched log ≡ before

  if-Answered :
      (before b : Bool) (x y : Result Failure Response × Log)
      → (b ≡ true → Answered before x)
      → (b ≡ false → Answered before y)
      → Answered before (if b then x else y)
  if-Answered before true x y h k = h refl
  if-Answered before false x y h k = k refl

  again-Answered :
      (row : String) (changes : Dict Value) (log : Log) (reply : Reply)
      → is_ok (server log (patch_page row changes)) ≡ false
      → server (patch_page row changes ∷ log) (patch_page row changes) ≡ reply
      → Answered
          (patched log)
          (of_reply server reply, patch_page row changes ∷ patch_page row changes ∷ log)
  unfolding patched
  again-Answered row changes log raised refused h = rw (h, refused) refl
  again-Answered row changes log (answered a) refused h = rw (h, refused) refl

  second_try-Answered :
      (row : String) (changes : Dict Value) (log : Log) (reply : Reply)
      → server log (patch_page row changes) ≡ reply
      → Answered (patched log) (second_try server (patch_page row changes) log reply)
  second_try-Answered row changes log raised h = unfold patched in rw h refl
  second_try-Answered row changes log (answered a) h =
      if-Answered (patched log) (eqb a.status 429 && waits a.retry_after) _ _
        (λ wait. again-Answered row changes log _ (rw h (ground arith)) refl)
        (λ over. unfold patched in rw h refl)

  pub call-Answered :
      (row : String) (changes : Dict Value) (log : Log)
      → Answered (patched log) (call server (patch_page row changes) log)
  unfolding call
  call-Answered row changes log = second_try-Answered row changes log _ refl
