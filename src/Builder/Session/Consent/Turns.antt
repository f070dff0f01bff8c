-- ===== src/Builder/Session/Consent/Turns.antt =====
-- A whole turn, from the user's message on.
use ieum_agent.Base.{
  ℕ, ◌≤◌, ◌≡◌, refl, String, true, false, not, ◌&&◌, Option, none, some, List, [], ◌∷◌, ◌==◌,
  string_eq, arith, Bool-cases, inl, inr, length, All, eq_of_test,
}
use ieum_agent.Value.{Entries}
use ieum_agent.Builder.State.{node_hash}
use ieum_agent.Builder.Turn.{Pending, pick, confirm, finish_id, State, max_tests_per_turn}
use ieum_agent.Builder.Testing.{Checks, Call, confirms, is_write, how_to_test}
use ieum_agent.Builder.Start.{
  Answer, yes_answer, no_answer, other_answer, classify_reply, agrees, judge_confirmed,
  judge_turn_start,
}
use ieum_agent.Builder.Session.{Move, System, begin_turn, run_turn}
use ieum_agent.Builder.Session.Consent.{writes, Backed, Consented, run-Consented}

agrees-eq-true : (a : Answer) → agrees a ≡ true → a ≡ yes_answer
agrees-eq-true yes_answer h = refl
agrees-eq-true no_answer h = cc
agrees-eq-true other_answer h = cc

-- A consent comes from a question about this node with this hash, which was not about skipping only,
-- and a yes.
judge_confirmed_inv :
    (a : Answer) (p : Option Pending) (id h : String)
    → confirms (judge_confirmed a p) id h ≡ true
    → (p ≡ some (confirm id h false)) × (a ≡ yes_answer)
unfolding judge_confirmed
judge_confirmed_inv a none id h k = cc
judge_confirmed_inv a (some (pick id' h' choices)) id h k = cc
judge_confirmed_inv a (some (confirm id' h' skip_only)) id h k =
    elim (Bool-cases (not (id' == finish_id) && (agrees a && not skip_only))) [
      | inl b ↦
          (ground (arith, eq_of_test id' id, eq_of_test h' h), agrees-eq-true a (ground arith))
      | inr b ↦ ground arith
    ]

-- The backend's tests of one turn.
pub record Consensual (c : Checks) (open_question : Option Pending) (a : Answer) (call : Call)
    : Type 0 where
  pub hashed : call.hash ≡ node_hash c.codec call.sent
  pub asked :
      is_write (how_to_test c.catalog call.sent) ≡ true
      → (open_question ≡ some (confirm call.node_id call.hash false)) × (a ≡ yes_answer)

module _ (c : Checks) (letters : String → String) where
  Consensual-calls :
      (p : Option Pending) (a : Answer) (found : List Call)
      → All (Backed c (judge_confirmed a p)) found
      → All (Consensual c p a) found
  Consensual-calls p a [] h = tt
  Consensual-calls p a (call ∷ found) (b, h) = (
    record {
      hashed = b.hashed;
      asked = λ w. judge_confirmed_inv a p call.node_id call.hash (b.confirmed (rw b.kinded w));
    },
    Consensual-calls p a found h,
  )

  -- the end of a turn that the prompt starts
  abbrev pub turn_of : State → String → List Entries → List Entries → ℕ → List Move → System
  turn_of state prompt nodes edges now moves =
      run_turn c moves
        (begin_turn (judge_turn_start c.codec letters state prompt nodes edges) edges now)

  start-Consented :
      (state : State) (prompt : String) (nodes edges : List Entries) (now : ℕ)
      → Consented c
          (judge_confirmed (classify_reply letters prompt) state.pending)
          (begin_turn (judge_turn_start c.codec letters state prompt nodes edges) edges now)
  unfolding judge_turn_start
  start-Consented state prompt nodes edges now = record {
    same = refl;
    counted = refl;
    few = omega arith;
    unused = λ e. refl;
    once = omega arith;
    backed = tt;
  }

  -- In one turn, whatever tools run in whatever order, the backend tests at most three nodes, and at
  -- most one of these writes. Each test sends the node whose hash is recorded. A node that writes is
  -- tested only if the last turn ended with the question whether to test this node with this hash,
  -- and the user's message is a yes.
  pub write_consented :
      (state : State) (prompt : String) (nodes edges : List Entries) (now : ℕ) (moves : List Move)
      → (length (turn_of state prompt nodes edges now moves).calls ≤ max_tests_per_turn)
        × (length (writes (turn_of state prompt nodes edges now moves).calls) ≤ 1)
        × All
            (Consensual c state.pending (classify_reply letters prompt))
            (turn_of state prompt nodes edges now moves).calls
  write_consented state prompt nodes edges now moves =
      let judged = judge_turn_start c.codec letters state prompt nodes edges in
      let a = classify_reply letters prompt in
      let h =
        run-Consented c (judge_confirmed a state.pending) moves (begin_turn judged edges now)
          (start-Consented state prompt nodes edges now) in
      (omega (arith, h.counted, h.few), h.once, Consensual-calls state.pending a _ h.backed)
