-- ===== src/Idempotency/Interleaving.antt =====
-- Any number of requests under the guard at once: each await of db/idempotency.py and of the two
-- routes is a point where another request, the clock or Mongo's TTL may come between.
use ieum_agent.Base.{
  ℕ, ◌+◌, ◌≤◌, String, ◌≡◌, Bool, true, false, Option, none, some, List, [], ◌∷◌, ◌++◌, ◌==◌,
  string_eq, if◌then◌else◌, All,
}
use ieum_agent.Base.Dict.{lookup, erase}
use ieum_agent.Idempotency.{
  Doc, Records, Net, Inserted, inserted, duplicate, fault, claim_insert, claim_find,
}
use ieum_agent.Idempotency.Handler.{Outcome, returned, settle, ending}

-- Where a request stands: before `insert_one`, before `find_one`, in the run (with or without the
-- key, and since when), or answered.
pub data Phase (A : Type 0) : Type 0 where
  waiting : Phase A
  asking : Phase A
  running : Bool → ℕ → Phase A
  ended : Outcome A → Phase A

pub record Request (A : Type 0) : Type 0 where
  pub key : String
  pub phase : Phase A

pub record System (A D : Type 0) : Type 0 where
  pub records : Records D
  pub requests : List (Request A)
  pub now : ℕ

-- What the environment decides for the request that moves: the reply of Mongo, how its run ends.
pub record Choice (A : Type 0) : Type 0 where
  pub net : Net
  pub run : Outcome A

abbrev pub after_insert : {A D : Type 0} → ℕ → Inserted × Records D → Phase A × Records D
after_insert now (inserted, db) = (running true now, db)
after_insert now (duplicate, db) = (asking, db)
after_insert now (fault, db) = (running false now, db)

abbrev pub after_find : {A : Type 0} → ℕ → Option A → Phase A
after_find now none = running false now
after_find now (some r) = ended (returned r)

module _ {A D : Type 0} (dump : A → Option D) (restore : D → Option A) (busy : A)
    (success : A → Bool) where
  -- One move of a request, up to its next await.
  unfoldable pub advance : Choice A → ℕ → String → Phase A → Records D → Phase A × Records D
  unfolding claim_insert claim_find settle ending
  advance c now key waiting db =
      if key == ""
      then (running false now, db)
      else after_insert now (claim_insert c.net now key db)
  advance c now key asking db = (after_find now (claim_find restore busy c.net key db), db)
  advance c now key (running true since) db = (
    ended (ending dump restore busy success c.net c.run),
    settle dump restore busy success c.net now key c.run db,
  )
  advance c now key (running false since) db = (ended c.run, db)
  advance c now key (ended run) db = (ended run, db)

-- 1 for a request that runs with the key `k` it claimed.
abbrev pub holding : {A : Type 0} → String → String → Phase A → ℕ
holding k key (running true since) = if k == key then 1 else 0
holding k key _ = 0

abbrev pub holders : {A : Type 0} → String → List (Request A) → ℕ
holders k [] = 0
holders k (r ∷ rs) = holding k r.key r.phase + holders k rs

-- A claimed run has lasted at most `limit` seconds at the time `now`.
abbrev pub Within : {A : Type 0} → ℕ → ℕ → Phase A → Type 0
Within limit now (running true since) = now ≤ since + limit
Within limit now _ = Unit

-- `limit` bounds the time of a run (the agent's own timeout).
module _ {A D : Type 0} (dump : A → Option D) (restore : D → Option A) (busy : A)
    (success : A → Bool) (limit : ℕ) where
  pub data Step (s : System A D) : System A D → Type 0 where
    arrive :
        (key : String)
        → Step s (record s { requests = record { key = key; phase = waiting } ∷ s.requests })
    act :
        (before after : List (Request A)) (r : Request A) (c : Choice A)
        → s.requests ≡ before ++ r ∷ after
        → Step s (record {
          records = (advance dump restore busy success c s.now r.key r.phase s.records).1;
          requests =
              before
              ++ record {
                key = r.key;
                phase = (advance dump restore busy success c s.now r.key r.phase s.records).0;
              }
                ∷ after;
          now = s.now;
        })
    tick :
        (n : ℕ)
        → All (λ r. Within limit (s.now + n) r.phase) s.requests
        → Step s (record s { now = s.now + n })
    expire :
        (k : String) (doc : Doc D)
        → lookup k s.records ≡ some doc
        → doc.expires_at ≤ s.now
        → Step s (record s { records = erase k s.records })

  pub data Reach (s : System A D) : System A D → Type 0 where
    here : Reach s s
    next : {t u : System A D} → Reach s t → Step t u → Reach s u
