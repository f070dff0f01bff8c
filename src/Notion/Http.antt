-- ===== src/Notion/Http.antt =====
-- The requests to Notion, one after the other, and what their answers are read for. The server is a
-- function outside the model: the requests so far and a request give its answer.
use ieum_agent.Base.{
  ℕ, ◌*◌, ◌^◌, String, Bool, false, not, ◌&&◌, ◌||◌, Option, none, some, List, ◌∷◌, if◌then◌else◌,
  eqb, leb,
}
use ieum_agent.Base.Dict.{Dict}
use ieum_agent.Base.Result.{Result, ok, err}
use ieum_agent.Value.{Value, Float, dyadic, dict, Entries}
use ieum_agent.Notion.Convert.{Problem}

-- The template of a new row, if it has one.
pub data Template : Type 0 where
  without default : Template
  named : String → Template

pub data Request : Type 0 where
  get_source get_page : String → Request
  post_page : String → Dict Value → Template → Option String → Request
  patch_page : String → Dict Value → Request
  patch_markdown : String → String → Request

-- `retry_after` is what float reads of the header, `body` what json.loads reads.
pub record Response : Type 0 where
  pub status : ℕ
  pub retry_after : Option Float
  pub body : Option Value

pub data Reply : Type 0 where
  raised : Reply
  answered : Response → Reply

-- the requests sent, the last one first
abbrev pub Log : Type 0
Log = List Request

abbrev pub Server : Type 0
Server = Log → Request → Reply

pub data Failure : Type 0 where
  bad_properties both_given bad_id no_row nothing_to_change exception : Failure
  api_error : ℕ → Failure
  invalid : Problem → Failure

abbrev is_short_wait : Float → Bool
is_short_wait (dyadic s m a b) = (not s || eqb m 0) && leb (m * 2 ^ a) (5 * 2 ^ b)
is_short_wait x = false

-- `_retry_after`
abbrev pub waits : Option Float → Bool
waits none = false
waits (some x) = is_short_wait x

abbrev pub M : Type 0 → Type 0
M A = Log → Result Failure A × Log

abbrev pub continue : {A B : Type 0} → (A → M B) → Result Failure A × Log → Result Failure B × Log
continue f (ok a, log) = f a log
continue f (err e, log) = (err e, log)

infixl 5 ◌>>=◌
abbrev pub ◌>>=◌ : {A B : Type 0} → M A → (A → M B) → M B
◌>>=◌ m f log = continue f (m log)

abbrev pub return : {A : Type 0} → A → M A
return a log = (ok a, log)

abbrev pub fail : {A : Type 0} → Failure → M A
fail e log = (err e, log)

module _ (server : Server) where
  abbrev pub of_reply : Reply → Result Failure Response
  of_reply raised = err exception
  of_reply (answered a) = ok a

  -- again after 429, once
  abbrev pub second_try : Request → Log → Reply → Result Failure Response × Log
  second_try r log raised = (err exception, r ∷ log)
  second_try r log (answered a) =
      if eqb a.status 429 && waits a.retry_after
      then (of_reply (server (r ∷ log) r), r ∷ r ∷ log)
      else (ok a, r ∷ log)

  -- `_call`
  unfoldable pub call : Request → M Response
  call r log = second_try r log (server log r)

abbrev pub expect_ok : Response → M Response
expect_ok a log = if eqb a.status 200 then (ok a, log) else (err (api_error a.status), log)

-- `response.json()`
abbrev pub json : Option Value → M Value
json none = fail exception
json (some v) = return v

-- `v.get` of a value that must be a dict
abbrev pub object : Value → M Entries
object (dict es) = return es
object v = fail exception

module _ (server : Server) where
  -- A request, whose answer must be 200 and JSON.
  unfoldable pub fetch : Request → M Value
  unfolding call
  fetch r = do a ← call server r; b ← expect_ok a; json b.body
