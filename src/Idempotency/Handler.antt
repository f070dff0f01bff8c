-- ===== src/Idempotency/Handler.antt =====
-- api/routes/execute.py and api/routes/actions.py: the two endpoints that run under the guard.
use ieum_agent.Base.{ℕ, String, Bool, true, false, Option, none, some, ◌&&◌, if◌then◌else◌}
use ieum_agent.Idempotency.{
  Net, Records, Claim, claimed, answer, unguarded, claim, complete, complete_raises, release,
}

-- How `run_agent` or `run_action` ends; `raised` is a BaseException (a cancellation).
pub data Outcome (A : Type 0) : Type 0 where
  returned : A → Outcome A
  raised : Outcome A

-- What the request cannot choose: the replies of Mongo, the clock, and what the rest of the system
-- does to the records while this request waits.
pub record Env (D : Type 0) : Type 0 where
  pub insert_net : Net
  pub find_net : Net
  pub final_net : Net
  pub claim_at : ℕ
  pub final_at : ℕ
  pub between : Records D → Records D
  pub during : Records D → Records D

pub record Reply (A D : Type 0) : Type 0 where
  pub outcome : Outcome A
  pub executed : Bool
  pub records : Records D

module _ {A D : Type 0} (dump : A → Option D) (restore : D → Option A) (busy : A)
    (success : A → Bool) where
  -- The end of a claimed request.
  unfoldable pub settle : Net → ℕ → String → Outcome A → Records D → Records D
  unfolding complete release
  settle net now key raised db = release net key db
  settle net now key (returned r) db =
      if success r then complete dump net now key r db else release net key db

  -- How a claimed request ends: with its run, or with the exception of `complete`.
  unfoldable pub ending : Net → Outcome A → Outcome A
  unfolding complete_raises
  ending net raised = raised
  ending net (returned r) = if success r && complete_raises dump net r then raised else returned r

  abbrev settle_key : Net → ℕ → Option String → Outcome A → Records D → Records D
  settle_key net now none run db = db
  settle_key net now (some key) run db = settle net now key run db

  abbrev pub after_claim : Env D → Option String → Outcome A → Claim A × Records D → Reply A D
  after_claim env key run (answer r, db) = record {
    outcome = returned r;
    executed = false;
    records = db;
  }
  after_claim env key run (unguarded, db) = record {
    outcome = run;
    executed = true;
    records = env.during db;
  }
  after_claim env key run (claimed, db) = record {
    outcome = ending env.final_net run;
    executed = true;
    records = settle_key env.final_net env.final_at key run (env.during db);
  }

  -- POST /v1/execute
  unfoldable pub execute : Env D → Option String → Outcome A → Records D → Reply A D
  unfolding claim settle ending
  execute env key run db =
      after_claim env key run
        (claim restore busy env.insert_net env.find_net env.claim_at env.between key db)

  -- POST /v1/actions/execute: a tool outside the catalogue is refused before any record is made;
  -- `none` is CodedHTTPException(UNKNOWN_TOOL).
  unfoldable pub execute_action :
      Bool → Env D → Option String → Outcome A → Records D → Option (Reply A D)
  unfolding execute
  execute_action false env key run db = none
  execute_action true env key run db = some (execute env key run db)
