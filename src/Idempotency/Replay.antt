-- ===== src/Idempotency/Replay.antt =====
-- What a request that comes after another with the same key gets.
use ieum_agent.Base.{
  ℕ, ◌+◌, String, ◌≡◌, ◌≢◌, refl, ◌∙◌, inl, inr, Bool-cases, Bool, true, false, Option, none, some,
  is_some, not, ◌&&◌, arith, string_eq, if◌then◌else◌,
}
use ieum_agent.Base.Dict.{lookup, insert, lookup-insert_self, lookup-erase_self}
use ieum_agent.Idempotency.{
  Doc, Records, Net, claimed, of_find, up, in_flight, completed, completed_ttl_seconds, insert_one,
  claim_insert, claim_find, claim, complete, release, complete_raises, set_dumped,
}
use ieum_agent.Idempotency.Handler.{Outcome, returned, raised, Env, settle, ending, execute}

-- Nothing else in the system changes the record of `key` during the step `f`.
abbrev pub Keeps : {D : Type 0} → String → (Records D → Records D) → Type 0
Keeps {D} key f = (db : Records D) → lookup key (f db) ≡ lookup key db

module _ {A D : Type 0} (dump : A → Option D) (restore : D → Option A) (busy : A)
    (success : A → Bool) where
  abbrev left_dumped : ℕ → ℕ → Option D → Doc D
  left_dumped claim_at now none = in_flight claim_at
  left_dumped claim_at now (some body) = record {
    status = completed;
    response = some body;
    expires_at = now + completed_ttl_seconds;
  }

  -- The record that a finished run leaves: after a success its response, or the record of the claim
  -- where the response cannot be encoded; none otherwise.
  abbrev pub left_by : ℕ → ℕ → Outcome A → Option (Doc D)
  left_by claim_at now raised = none
  left_by claim_at now (returned r) =
      if success r then some (left_dumped claim_at now (dump r)) else none

  set_dumped-lookup :
      (claim_at now : ℕ) (key : String) (o : Option D) (db : Records D)
      → lookup key db ≡ some (in_flight claim_at)
      → lookup key (set_dumped o now key db) ≡ some (left_dumped claim_at now o)
  set_dumped-lookup claim_at now key none db h = h
  set_dumped-lookup claim_at now key (some body) db h = rw h (lookup-insert_self key _ db)

  settle-lookup :
      (claim_at now : ℕ) (key : String) (run : Outcome A) (db : Records D)
      → lookup key db ≡ some (in_flight claim_at)
      → lookup key (settle dump restore busy success up now key run db) ≡ left_by claim_at now run
  unfolding settle complete release
  settle-lookup claim_at now key raised db h = lookup-erase_self key db
  settle-lookup claim_at now key (returned r) db h = elim (Bool-cases (success r)) [
    | inl yes_ ↦ rw yes_ (set_dumped-lookup claim_at now key (dump r) db h)
    | inr no_ ↦ rw no_ (lookup-erase_self key db)
  ]

  -- What a claimed request ends with: its run, or the exception where the response of a success cannot
  -- be encoded.
  abbrev pub ends_as : Outcome A → Outcome A
  ends_as raised = raised
  ends_as (returned r) = if success r && not (is_some (dump r)) then raised else returned r

  ending-ends_as : (run : Outcome A) → ending dump restore busy success up run ≡ ends_as run
  unfolding ending complete_raises
  ending-ends_as raised = refl
  ending-ends_as (returned r) = refl

  claim-fresh :
      (n m : Net) (now : ℕ) (between : Records D → Records D) (key : String) (db : Records D)
      → n ≡ up
      → key ≢ ""
      → lookup key db ≡ none
      → claim restore busy n m now between (some key) db ≡ (claimed, insert key (in_flight now) db)
  unfolding claim claim_insert insert_one
  claim-fresh n m now between key db e h fresh = rw e (ground (arith, fresh))

  -- A claim that meets a record reads it, and never takes the key.
  pub claim-taken :
      (n m : Net) (now : ℕ) (between : Records D → Records D) (key : String) (db : Records D)
      (doc : Doc D)
      → n ≡ up
      → key ≢ ""
      → lookup key db ≡ some doc
      → claim restore busy n m now between (some key) db
        ≡ (of_find (claim_find restore busy m key (between db)), between db)
  unfolding claim claim_insert insert_one
  claim-taken n m now between key db doc e h there = rw e (ground (arith, there))

  -- If a request has a key that no record has, Mongo answers its insert and its last call, and nothing
  -- else changes the record of the key while it runs: it runs; it leaves its response after a success,
  -- and no record after a failure or a cancellation, so that the next attempt runs again. If the
  -- response of a success cannot be encoded, it ends with an exception and leaves the record of its
  -- claim.
  pub execute_record :
      (env : Env D) (key : String) (run : Outcome A) (db : Records D)
      → key ≢ ""
      → lookup key db ≡ none
      → env.insert_net ≡ up
      → env.final_net ≡ up
      → Keeps key env.during
      → ((execute dump restore busy success env (some key) run db).executed ≡ true)
        × ((execute dump restore busy success env (some key) run db).outcome ≡ ends_as run)
        × (lookup key (execute dump restore busy success env (some key) run db).records
            ≡ left_by env.claim_at env.final_at run)
  unfolding execute
  execute_record env key run db h fresh n1 n2 keep =
      rw (claim-fresh env.insert_net env.find_net env.claim_at env.between key db n1 h fresh, n2)
        (
          refl,
          ending-ends_as run,
          settle-lookup env.claim_at env.final_at key run _ (keep _ ∙ lookup-insert_self key _ db),
        )

  execute-completed :
      (env : Env D) (key : String) (run : Outcome A) (db : Records D) (doc : Doc D) (body : D)
      (r : A)
      → key ≢ ""
      → lookup key db ≡ some doc
      → doc.status ≡ completed
      → doc.response ≡ some body
      → restore body ≡ some r
      → env.insert_net ≡ up
      → env.find_net ≡ up
      → Keeps key env.between
      → execute dump restore busy success env (some key) run db
        ≡ record { outcome = returned r; executed = false; records = env.between db }
  unfolding execute claim_find
  execute-completed env key run db doc body r h there ended held trip n1 n2 keep =
      rw (claim-taken env.insert_net env.find_net env.claim_at env.between key db doc n1 h there)
        (rw (n2, claim_find) (rw (keep db, there, ended, held, trip)))

  -- If a request has a key that no record has, it succeeds with a response that can be encoded and
  -- restored, Mongo answers its insert and its last call, and nothing else changes the record of the
  -- key: a later request with its key whose insert and find Mongo answers, and which finds the record
  -- as the first has left it, answers with the very response of the first and does not run.
  pub execute_replay :
      (env later : Env D) (key : String) (r : A) (body : D) (run : Outcome A) (db db' : Records D)
      → key ≢ ""
      → lookup key db ≡ none
      → env.insert_net ≡ up
      → env.final_net ≡ up
      → Keeps key env.during
      → success r ≡ true
      → dump r ≡ some body
      → restore body ≡ some r
      → lookup key db'
        ≡ lookup key (execute dump restore busy success env (some key) (returned r) db).records
      → later.insert_net ≡ up
      → later.find_net ≡ up
      → Keeps key later.between
      → execute dump restore busy success later (some key) run db'
        ≡ record { outcome = returned r; executed = false; records = later.between db' }
  execute_replay env later key r body run db db' h fresh n1 n2 k1 good dumped trip same n3 n4 k2 =
      let (_, _, left) = execute_record env key (returned r) db h fresh n1 n2 k1 in
      execute-completed later key run db'
        (record {
          status = completed;
          response = some body;
          expires_at = env.final_at + completed_ttl_seconds;
        })
        body r h (same ∙ left ∙ rw (good, dumped) refl) refl refl trip n3 n4 k2
