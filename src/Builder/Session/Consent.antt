-- ===== src/Builder/Session/Consent.antt =====
-- A node that writes is tested only with the user's consent to it as it is, and once for each consent.
pub mod Turns
use ieum_agent.Base.{
  ℕ, suc, ◌+◌, ◌≤◌, ◌<◌, ◌≡◌, refl, sym, ap, ◌∙◌, String, Bool, true, false, not, ◌&&◌, all, Option,
  none, some, List, [], ◌∷◌, ◌==◌, string_eq, if◌then◌else◌, arith, Bool-cases, inl, inr, select,
  length, All, first,
}
use mathlib.Core.Path.{subst}
use ieum_agent.Value.{Value, Entries, get}
use ieum_agent.Validator.Branches.{is_text}
use ieum_agent.Validator.Problem.{Error}
use ieum_agent.Builder.State.{node_hash, workflow_hash, config_of}
use ieum_agent.Builder.Models.{Choice}
use ieum_agent.Builder.Turn.{
  Pending, confirm, finish_id, Confirmed, State, Turn, max_tests_per_turn, find_node, hold,
  ask_model,
}
use ieum_agent.Builder.Testing.{
  Checks, Kind, write, read, app_trigger, free, listen, Call, Begun, ended, called, Result,
  confirms, is_write, begin_test, how_to_test, was_skipped, lacks_key, workflow_errors,
}
use ieum_agent.Builder.Finish.{
  Reply, refused, answered, end_test, finish, suggest_again, finish_keyed, finish_with, remaining,
  held, missing_ids, has_any,
}
use ieum_agent.Builder.Session.{
  Move, test, answer, complete, pick_card, edit, System, add_call, pick_node, is_reasoning,
  pick_model, advance_turn, run_turn,
}
use ieum_agent.Builder.Session.Moves.{
  SameConsent, hold-SameConsent, ask_model-SameConsent, Begins, stays, calls, begin_test-Begins,
}

-- the tests of nodes that write
abbrev pub writes : List Call → List Call
writes found = select (λ (call : Call). is_write call.kind) found

module _ (c : Checks) where
  -- a tool's result that leaves the consent alone
  data Keeps (t : Turn) : State × Turn × Result → Type 0 where
    keeps : (state : State) (u : Turn) (r : Result) → SameConsent t u → Keeps t (state, u, r)

  of_Keeps : (t : Turn) (found : State × Turn × Result) → Keeps t found → SameConsent t found.1
  of_Keeps t found (keeps state u r same) = same

  if-Keeps :
      (t : Turn) (b : Bool) (x y : State × Turn × Result)
      → Keeps t x
      → Keeps t y
      → Keeps t (if b then x else y)
  if-Keeps t true x y h k = h
  if-Keeps t false x y h k = k

  suggest_again-SameConsent :
      (k : Kind) (call : Call) (t : Turn) → SameConsent t (suggest_again c k call t)
  suggest_again-SameConsent app_trigger call t = hold-SameConsent _ t
  suggest_again-SameConsent write call t = (refl, refl, refl)
  suggest_again-SameConsent read call t = (refl, refl, refl)
  suggest_again-SameConsent free call t = (refl, refl, refl)
  suggest_again-SameConsent listen call t = (refl, refl, refl)

  end_test-Keeps :
      (call : Call) (reply : Reply) (state : State) (t : Turn)
      → Keeps t (end_test c call reply state t)
  unfolding end_test
  end_test-Keeps call (refused code reason) state t =
      if-Keeps t (is_text "TEST_SAMPLE_MISSING" code) _ _
        (if-Keeps t
          (not (is_write call.kind)
            && (has_any (missing_ids reason) && all (was_skipped c state t) (missing_ids reason)))
          _ _ (keeps _ _ _ (refl, refl, refl)) (keeps _ _ _ (refl, refl, refl)))
        (keeps _ _ _ (refl, refl, refl))
  end_test-Keeps call (answered found) state t =
      if-Keeps t (is_text "SUCCESS" (get "status" (config_of found))) _ _
        (keeps _ _ _ (refl, refl, refl)) (keeps _ _ _ (suggest_again-SameConsent call.kind call t))

  finish_with-SameConsent :
      (left : List String) (errors : List Error) (t : Turn)
      → SameConsent t (finish_with c left errors t).0
  finish_with-SameConsent [] [] t =
      held_same t (hold (confirm finish_id (workflow_hash c.codec t.nodes t.edges) false) t)
        (hold-SameConsent _ t)
    where
      held_same : (t : Turn) (h : Turn × Bool) → SameConsent t h.0 → SameConsent t (held c h).0
      held_same t (u, true) same = same
      held_same t (u, false) same = same
  finish_with-SameConsent [] (e ∷ errors) t = (refl, refl, refl)
  finish_with-SameConsent (x ∷ left) errors t = (refl, refl, refl)

  finish_keyed-SameConsent :
      (now : ℕ) (loaded : Option (List Choice)) (unkeyed : Option Entries) (state : State)
      (t : Turn)
      → SameConsent t (finish_keyed c now loaded unkeyed state t).0
  finish_keyed-SameConsent now loaded (some node) state t =
      ask_model-SameConsent c.codec now loaded node t
  finish_keyed-SameConsent now loaded none state t =
      finish_with-SameConsent (remaining c state t.nodes) (workflow_errors c t) t

  pick_node-SameConsent :
      (now : ℕ) (loaded : Option (List Choice)) (node : Option Entries) (t : Turn)
      → SameConsent t (pick_node c.codec now loaded node t)
  pick_node-SameConsent now loaded none t = (refl, refl, refl)
  pick_node-SameConsent now loaded (some node) t =
      elim (Bool-cases (is_reasoning (get "event" node))) [
        | inl ai ↦ rw ai (ask_model-SameConsent c.codec now loaded node t)
        | inr other ↦ rw other (refl, refl, refl)
      ]

  -- What a call rests on: it sends the node whose hash it has, and if that node writes, the consent is
  -- to this node with this hash.
  pub record Backed (consent : Option Confirmed) (call : Call) : Type 0 where
    pub hashed : call.hash ≡ node_hash c.codec call.sent
    pub kinded : call.kind ≡ how_to_test c.catalog call.sent
    pub confirmed : is_write call.kind ≡ true → confirms consent call.node_id call.hash ≡ true

  pub record Consented (consent : Option Confirmed) (s : System) : Type 0 where
    pub same : s.turn.confirmed ≡ consent
    pub counted : length s.calls ≡ s.turn.test_runs
    pub few : s.turn.test_runs ≤ max_tests_per_turn
    pub unused : s.turn.confirm_used ≡ false → length (writes s.calls) ≡ 0
    pub once : length (writes s.calls) ≤ 1
    pub backed : All (Backed consent) s.calls

  -- A move that calls nothing and leaves the consent alone.
  quiet-Consented :
      (consent : Option Confirmed) (s : System) (state : State) (u : Turn)
      → SameConsent s.turn u
      → Consented consent s
      → Consented consent (record { state = state; turn = u; calls = s.calls })
  quiet-Consented consent s state u (a, b, d) h = record {
    same = a ∙ h.same;
    counted = omega (arith, h.counted, d);
    few = omega (arith, h.few, d);
    unused = λ e. h.unused (sym b ∙ e);
    once = h.once;
    backed = h.backed;
  }

  begun-Consented :
      (consent : Option Confirmed) (s : System) (state : State) (found : Turn × Begun)
      → Begins c s.turn found
      → Consented consent s
      → Consented consent
          (record { state = state; turn = found.0; calls = add_call found.1 s.calls })
  begun-Consented consent s state found (stays u r same) h =
      quiet-Consented consent s state u same h
  begun-Consented consent s state found (calls u call a b room hash kind writing reading) h =
      elim (Bool-cases (is_write call.kind)) [
        | inl w ↦
            let (known, free_consent, used) = writing w in
            let none_before = h.unused free_consent in
            let now_one : length (writes (call ∷ s.calls)) ≡ 1 =
              (rw w (omega (arith, none_before))) in
            record {
              same = a ∙ h.same;
              counted = omega (arith, h.counted, b);
              few = omega (arith, room, b);
              unused = λ e. cc;
              once = omega (arith, now_one);
              backed = (
                backed_here
                    (λ v. subst (λ o. confirms o call.node_id call.hash ≡ true) h.same known),
                h.backed,
              );
            }
        | inr r ↦
            let same_writes : writes (call ∷ s.calls) ≡ writes s.calls = (rw r refl) in
            record {
              same = a ∙ h.same;
              counted = omega (arith, h.counted, b);
              few = omega (arith, room, b);
              unused = λ e. ap length same_writes ∙ h.unused (sym (reading r) ∙ e);
              once = rw same_writes h.once;
              backed = (backed_here (λ v. cc), h.backed);
            }
      ]
    where
      backed_here :
          (is_write call.kind ≡ true → confirms consent call.node_id call.hash ≡ true)
          → Backed consent call
      backed_here k = record { hashed = hash; kinded = kind; confirmed = k }

  -- Every move keeps the consent.
  advance-Consented :
      (consent : Option Confirmed) (m : Move) (s : System)
      → Consented consent s
      → Consented consent (advance_turn c m s)
  unfolding advance_turn
  advance-Consented consent (test id now loaded) s h =
      let found = begin_test c now loaded id s.state s.turn in
      begun-Consented consent s found.0 (found.1, found.2)
        (begin_test-Begins c now loaded id s.state s.turn) h
  advance-Consented consent (answer call reply) s h =
      let found = end_test c call reply s.state s.turn in
      quiet-Consented consent s found.0 found.1
        (of_Keeps s.turn found (end_test-Keeps call reply s.state s.turn)) h
  advance-Consented consent (complete now loaded) s h =
      quiet-Consented consent s s.state _
        (unfold finish in
          finish_keyed-SameConsent now loaded (first lacks_key s.turn.nodes) s.state s.turn)
        h
  advance-Consented consent (pick_card id now loaded) s h =
      quiet-Consented consent s s.state _
        (unfold pick_model in pick_node-SameConsent now loaded (find_node id s.turn.nodes) s.turn) h
  advance-Consented consent (edit nodes edges) s h =
      quiet-Consented consent s s.state _ (refl, refl, refl) h

  pub run-Consented :
      (consent : Option Confirmed) (moves : List Move) (s : System)
      → Consented consent s
      → Consented consent (run_turn c moves s)
  unfolding run_turn
  run-Consented consent [] s h = h
  run-Consented consent (m ∷ moves) s h =
      run-Consented consent moves (advance_turn c m s) (advance-Consented consent m s h)
