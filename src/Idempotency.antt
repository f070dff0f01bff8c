-- ===== src/Idempotency.antt =====
-- db/idempotency.py: the records behind `X-Idempotency-Key`, one function for each operation.
-- Mongo answers each call in one of three ways, chosen by the environment. The response model is
-- pydantic's: `dump` stands for `model_dump()` with its encoding by bson, `none` where that raises an
-- OverflowError, and `restore` for `model(**doc)`, which may raise.
pub mod Answered
pub mod Exclusion
pub mod Handler
pub mod Interleaving
pub mod Moves
pub mod OneRun
pub mod Replay
mod Tests
use ieum_agent.Base.{
  ℕ, ◌+◌, ◌*◌, String, Bool, true, false, Option, none, some, is_some, not, ◌==◌, string_eq,
  if◌then◌else◌,
}
use ieum_agent.Base.Dict.{Dict, lookup, insert, erase}

pub data Status : Type 0 where
  in_progress completed : Status

pub record Doc (D : Type 0) : Type 0 where
  pub status : Status
  pub response : Option D
  pub expires_at : ℕ

abbrev pub Records : Type 0 → Type 0
Records D = Dict (Doc D)

-- How a Mongo call ends: `up` is a reply, `down` a PyMongoError before the write, `lost` a
-- PyMongoError after it (the write is there, its reply is not).
pub data Net : Type 0 where
  up down lost : Net

abbrev pub in_flight_ttl_seconds : ℕ
in_flight_ttl_seconds = 10 * 60

abbrev pub completed_ttl_seconds : ℕ
completed_ttl_seconds = 60 * 60

pub data Inserted : Type 0 where
  inserted duplicate fault : Inserted

module _ {D : Type 0} where
  abbrev pub in_flight : ℕ → Doc D
  in_flight now = record {
    status = in_progress;
    response = none;
    expires_at = now + in_flight_ttl_seconds;
  }

  abbrev add_new : Option (Doc D) → String → Doc D → Records D → Records D
  add_new none key doc db = insert key doc db
  add_new (some _) key doc db = db

  abbrev clash : Option (Doc D) → Inserted
  clash none = inserted
  clash (some _) = duplicate

  -- `insert_one` under the unique `_id`
  unfoldable pub insert_one : Net → String → Doc D → Records D → Inserted × Records D
  insert_one up key doc db = (clash (lookup key db), add_new (lookup key db) key doc db)
  insert_one down key doc db = (fault, db)
  insert_one lost key doc db = (fault, add_new (lookup key db) key doc db)

  -- What the first half of `claim` decides: it has the key, has to read the record, or gives up
  -- the guard.
  unfoldable pub claim_insert : Net → ℕ → String → Records D → Inserted × Records D
  unfolding insert_one
  claim_insert net now key db = insert_one net key (in_flight now) db

  abbrev set_completed : D → ℕ → Option (Doc D) → String → Records D → Records D
  set_completed body now none key db = db
  set_completed body now (some doc) key db =
      insert key
        (record {
          status = completed;
          response = some body;
          expires_at = now + completed_ttl_seconds;
        })
        db

-- What `claim` returns: (True, None), (False, response) or (False, None).
pub data Claim (A : Type 0) : Type 0 where
  claimed : Claim A
  answer : A → Claim A
  unguarded : Claim A

abbrev pub of_find : {A : Type 0} → Option A → Claim A
of_find none = unguarded
of_find (some r) = answer r

-- `delete_one`
unfoldable pub release : {D : Type 0} → Net → String → Records D → Records D
release down key db = db
release _ key db = erase key db

abbrev pub set_dumped : {D : Type 0} → Option D → ℕ → String → Records D → Records D
set_dumped none now key db = db
set_dumped (some body) now key db = set_completed body now (lookup key db) key db

-- `update_one` with `$set`: no record, no write; and no write where the response cannot be encoded
unfoldable pub complete :
    {A D : Type 0} → (A → Option D) → Net → ℕ → String → A → Records D → Records D
complete dump down now key result db = db
complete dump _ now key result db = set_dumped (dump result) now key db

-- Whether `complete` raises: a PyMongoError is caught, an OverflowError of bson is not.
unfoldable pub complete_raises : {A D : Type 0} → (A → Option D) → Net → A → Bool
complete_raises dump down result = false
complete_raises dump _ result = not (is_some (dump result))

module _ {A D : Type 0} (restore : D → Option A) (busy : A) where
  abbrev cached : Status → Option D → Option A
  cached completed (some body) = restore body
  cached _ _ = some busy

  abbrev found : Option (Doc D) → Option A
  found none = none
  found (some doc) = cached doc.status doc.response

  -- The second half of `claim`: `find_one` and the reading of the record, `none` for (False, None).
  unfoldable pub claim_find : Net → String → Records D → Option A
  claim_find up key db = found (lookup key db)
  claim_find _ key db = none

  -- `between` is what other requests and Mongo's TTL do to the records while `claim` waits.
  abbrev claim_next :
      Net → (Records D → Records D) → String → Inserted × Records D → Claim A × Records D
  claim_next find_net between key (inserted, db) = (claimed, db)
  claim_next find_net between key (fault, db) = (unguarded, db)
  claim_next find_net between key (duplicate, db) =
      (of_find (claim_find find_net key (between db)), between db)

  unfoldable pub claim :
      Net → Net → ℕ → (Records D → Records D) → Option String → Records D → Claim A × Records D
  unfolding claim_insert claim_find
  claim insert_net find_net now between none db = (unguarded, db)
  claim insert_net find_net now between (some key) db =
      if key == ""
      then (unguarded, db)
      else claim_next find_net between key (claim_insert insert_net now key db)
