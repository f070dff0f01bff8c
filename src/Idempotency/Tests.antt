-- ===== src/Idempotency/Tests.antt =====
-- The theorems about the guard at concrete requests.
use text.Mathlib.TextEquality.{eq_iff}
use ieum_agent.Base.{
  String, ◌≡◌, ◌≢◌, ◌≤◌, refl, Bool, true, false, Option, none, some, not, if◌then◌else◌, ◌↔◌, [],
  ◌∷◌, arith, ◌==◌, string_eq, All,
}
use ieum_agent.Base.Dict.{lookup, insert}
use ieum_agent.Idempotency.{
  Records, up, in_flight, insert_one, claim_insert, claim, complete, complete_raises,
}
use ieum_agent.Idempotency.Answered.{Answered, execute_answered_iff}
use ieum_agent.Idempotency.Handler.{returned, raised, Env, settle, ending, execute}
use ieum_agent.Idempotency.Replay.{left_by, ends_as, execute_record, execute_replay}
use ieum_agent.Idempotency.Interleaving.{
  waiting, asking, running, System, Choice, advance, holders, arrive, act, Reach, here, next,
}
use ieum_agent.Idempotency.Exclusion.{Owns}
use ieum_agent.Idempotency.OneRun.{claimed_once}

abbrev is_ok : String → Bool
is_ok r = not (r == "failed")

-- bson does not encode one of the texts
unfoldable dump_text : String → Option String
dump_text r = if r == "sent 2^80" then none else some r

abbrev restore_text : String → Option String
restore_text r = some r

abbrev quiet : Env String
quiet = record {
  insert_net = up;
  find_net = up;
  final_net = up;
  claim_at = 100;
  final_at = 120;
  between = λ db. db;
  during = λ db. db;
}

abbrev held : Records String
held = ("k", in_flight 90) ∷ []

key_given : ◌≢◌ {A = String} "k" ""
key_given = ground (arith, eq_iff "k" "")

execute_record_example :
    ((execute dump_text restore_text "busy" is_ok quiet (some "k") raised []).executed ≡ true)
    × ((execute dump_text restore_text "busy" is_ok quiet (some "k") raised []).outcome
        ≡ ends_as dump_text restore_text "busy" is_ok raised)
    × (lookup "k" (execute dump_text restore_text "busy" is_ok quiet (some "k") raised []).records
        ≡ left_by dump_text restore_text "busy" is_ok 100 120 raised)
unfolding lookup
execute_record_example =
    execute_record dump_text restore_text "busy" is_ok quiet "k" raised [] key_given refl refl refl
      (λ db. refl)

-- A success that cannot be encoded ends with an exception, and the record of its claim stays.
not_encoded :
    execute dump_text restore_text "busy" is_ok quiet (some "k") (returned "sent 2^80") []
    ≡ record { outcome = raised; executed = true; records = ("k", in_flight 100) ∷ [] }
unfolding execute claim claim_insert insert_one lookup insert settle complete ending complete_raises
    dump_text string_eq
not_encoded = refl

execute_answered_iff_example :
    (execute dump_text restore_text "busy" is_ok quiet (some "k") (returned "sent") held
      ≡ record { outcome = returned "busy"; executed = false; records = held })
    ↔ Answered dump_text restore_text "busy" is_ok quiet (some "k") held "busy"
execute_answered_iff_example =
    execute_answered_iff dump_text restore_text "busy" is_ok quiet (some "k") (returned "sent") held
      "busy"

-- The first request sends; the second gets its response.
execute_replay_example :
    execute dump_text restore_text "busy" is_ok quiet
      (some "k")
      (returned "sent again")
      (execute dump_text restore_text "busy" is_ok quiet (some "k") (returned "sent") []).records
    ≡ record {
      outcome = returned "sent";
      executed = false;
      records =
          (execute dump_text restore_text "busy" is_ok quiet
            (some "k")
            (returned "sent")
            []).records;
    }
unfolding lookup string_eq dump_text
execute_replay_example =
    execute_replay dump_text restore_text "busy" is_ok quiet quiet "k" "sent" "sent"
      (returned "sent again") []
      (execute dump_text restore_text "busy" is_ok quiet (some "k") (returned "sent") []).records
      key_given refl refl refl (λ db. refl) refl refl refl refl refl refl (λ db. refl)

abbrev start : System String String
start = record { records = []; requests = []; now = 100 }

abbrev go : Choice String
go = record { net = up; run = returned "sent" }

-- Two requests with one key arrive; both try to insert.
abbrev race : System String String
race = record {
  records = ("k", in_flight 100) ∷ [];
  requests =
      record { key = "k"; phase = asking } ∷ record { key = "k"; phase = running true 100 } ∷ [];
  now = 100;
}

race_reached : Reach dump_text restore_text "busy" is_ok 150 start race
unfolding advance string_eq lookup insert
race_reached =
    next
      (next (next (next here (arrive "k")) (arrive "k")) (
        act (record { key = "k"; phase = waiting } ∷ []) [] (record { key = "k"; phase = waiting })
          go refl))
      (act [] (record { key = "k"; phase = running true 100 } ∷ [])
        (record { key = "k"; phase = waiting }) go refl)

claimed_once_example :
    (holders "k" race.requests ≤ 1)
    × All (λ r. Owns 150 race.now race.records r.key r.phase) race.requests
claimed_once_example =
    claimed_once dump_text restore_text "busy" is_ok 150 [] 100 race "k" (omega arith) race_reached
