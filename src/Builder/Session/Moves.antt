-- ===== src/Builder/Session/Moves.antt =====
-- What the moves of a turn leave alone, and what a call of the backend's test rests on.
use ieum_agent.Base.{
  ℕ, ◌+◌, ◌<◌, ◌≡◌, refl, ap, String, Bool, true, false, ◌&&◌, Option, none, some, List, [], ◌∷◌,
  string_eq, if◌then◌else◌, arith, Bool-cases, inl, inr, leb,
}
use ieum_agent.Value.{Entries}
use ieum_agent.Validator.Problem.{Error}
use ieum_agent.Builder.State.{Codec, node_hash}
use ieum_agent.Builder.Models.{Choice}
use ieum_agent.Builder.Turn.{
  Pending, State, Turn, find_node, max_tests_per_turn, hold, choices, ask_model, is_short,
  min_test_seconds, min_pick_seconds, keep_choices, choices_from, ask_with,
}
use ieum_agent.Builder.Testing.{
  Checks, Kind, write, read, app_trigger, free, listen, Call, Begun, ended, called, Result,
  confirms, is_write, spend, held, begin_call, begin_write, begin_kind, begin_node, begin_test,
  how_to_test, errors_of_node, lacks_key, call_of,
}

-- The parts of a turn that consent and the number of tests stand in.
abbrev pub SameConsent : Turn → Turn → Type 0
SameConsent t u =
    (u.confirmed ≡ t.confirmed) × (u.confirm_used ≡ t.confirm_used) × (u.test_runs ≡ t.test_runs)

pub hold-SameConsent : (p : Pending) (t : Turn) → SameConsent t (hold p t).0
unfolding hold
hold-SameConsent p t = (refl, refl, refl)

keep_choices-SameConsent :
    (loaded : Option (List Choice)) (t : Turn) → SameConsent t (keep_choices loaded t).0
keep_choices-SameConsent none t = (refl, refl, refl)
keep_choices-SameConsent (some found) t = (refl, refl, refl)

choices_from-SameConsent :
    (now : ℕ) (loaded cached : Option (List Choice)) (t : Turn)
    → SameConsent t (choices_from now loaded cached t).0
choices_from-SameConsent now loaded (some found) t = (refl, refl, refl)
choices_from-SameConsent now loaded none t = elim (Bool-cases (is_short min_pick_seconds now t)) [
  | inl short ↦ rw short (refl, refl, refl)
  | inr enough ↦ rw enough (keep_choices-SameConsent loaded t)
]

ask_with-SameConsent :
    (codec : Codec) (node : Entries) (t : Turn) (found : Turn × Option (List Choice))
    → SameConsent t found.0
    → SameConsent t (ask_with codec node found).0
unfolding hold
ask_with-SameConsent codec node t (u, none) h = h
ask_with-SameConsent codec node t (u, some []) h = h
ask_with-SameConsent codec node t (u, some (x ∷ xs)) h = h

pub ask_model-SameConsent :
    (codec : Codec) (now : ℕ) (loaded : Option (List Choice)) (node : Entries) (t : Turn)
    → SameConsent t (ask_model codec now loaded node t).0
unfolding ask_model choices
ask_model-SameConsent codec now loaded node t =
    ask_with-SameConsent codec node t (choices now loaded t)
      (choices_from-SameConsent now loaded t.model_choices t)

-- How the first half of test_node ends: without a call, or with a call that the limit of tests
-- allows and, if its node writes, an unused consent to this node as it is.
pub data Begins (c : Checks) (t : Turn) : Turn × Begun → Type 0 where
  stays : (u : Turn) (r : Result) → SameConsent t u → Begins c t (u, ended r)
  calls :
      (u : Turn) (call : Call)
      → u.confirmed ≡ t.confirmed
      → u.test_runs ≡ t.test_runs + 1
      → t.test_runs < max_tests_per_turn
      → call.hash ≡ node_hash c.codec call.sent
      → call.kind ≡ how_to_test c.catalog call.sent
      → (is_write call.kind ≡ true
          → (confirms t.confirmed call.node_id call.hash ≡ true)
            × (t.confirm_used ≡ false)
            × (u.confirm_used ≡ true))
      → (is_write call.kind ≡ false → u.confirm_used ≡ t.confirm_used)
      → Begins c t (u, called call)

module _ (c : Checks) (now : ℕ) (loaded : Option (List Choice)) where
  spend-Begins :
      (k : Kind) (call : Call) (state : State) (t : Turn)
      → call.kind ≡ k
      → t.test_runs < max_tests_per_turn
      → call.hash ≡ node_hash c.codec call.sent
      → call.kind ≡ how_to_test c.catalog call.sent
      → (is_write call.kind ≡ true
          → (confirms t.confirmed call.node_id call.hash ≡ true) × (t.confirm_used ≡ false))
      → Begins c t ((spend c now loaded k state t).1, called call)
  spend-Begins write call state t e room hash kind consent =
      calls _ call refl refl room hash kind (λ w. ((consent w).0, (consent w).1, refl))
        (λ n. cc (ap is_write e))
  spend-Begins read call state t e room hash kind consent =
      calls _ call refl refl room hash kind (λ w. cc (ap is_write e)) (λ n. refl)
  spend-Begins app_trigger call state t e room hash kind consent =
      calls _ call refl refl room hash kind (λ w. cc (ap is_write e)) (λ n. refl)
  spend-Begins free call state t e room hash kind consent =
      calls _ call refl refl room hash kind (λ w. cc (ap is_write e)) (λ n. refl)
  spend-Begins listen call state t e room hash kind consent =
      calls _ call refl refl room hash kind (λ w. cc (ap is_write e)) (λ n. refl)

  abbrev BeginsFrom : Turn → State × Turn × Begun → Type 0
  BeginsFrom t found = Begins c t (found.1, found.2)

  -- a test of the code, each branch under its answer
  if-Begins :
      (t : Turn) (b : Bool) (x y : State × Turn × Begun)
      → (b ≡ true → BeginsFrom t x)
      → (b ≡ false → BeginsFrom t y)
      → BeginsFrom t (if b then x else y)
  if-Begins t true x y h k = h refl
  if-Begins t false x y h k = k refl

  stays_here : (t : Turn) (r : Result) → Begins c t (t, ended r)
  stays_here t r = stays t r (refl, refl, refl)

  begin_call-Begins :
      (call : Call) (state : State) (t : Turn)
      → call.hash ≡ node_hash c.codec call.sent
      → call.kind ≡ how_to_test c.catalog call.sent
      → (is_write call.kind ≡ true
          → (confirms t.confirmed call.node_id call.hash ≡ true) × (t.confirm_used ≡ false))
      → BeginsFrom t (begin_call c now loaded call state t)
  unfolding begin_call
  begin_call-Begins call state t hash kind consent =
      if-Begins t (lacks_key call.sent) _ _
        (λ keyless. stays _ _ (ask_model-SameConsent c.codec now loaded call.sent t))
        (λ keyed.
          if-Begins t (leb max_tests_per_turn t.test_runs) _ _ (λ full. stays_here t _)
            (λ room.
              if-Begins t (is_short min_test_seconds now t) _ _ (λ short. stays_here t _)
                (λ enough.
                  spend-Begins call.kind call state t refl (ground arith) hash kind consent)))

  held-Begins :
      (state : State) (t u : Turn) (done : Bool)
      → SameConsent t u
      → BeginsFrom t (held c now loaded state (u, done))
  held-Begins state t u true same = stays u _ same
  held-Begins state t u false same = stays u _ same

  begin_write-Begins :
      (call : Call) (state : State) (t : Turn)
      → call.hash ≡ node_hash c.codec call.sent
      → call.kind ≡ how_to_test c.catalog call.sent
      → BeginsFrom t (begin_write c now loaded call state t)
  unfolding begin_write
  begin_write-Begins call state t hash kind =
      let known = confirms t.confirmed call.node_id call.hash in
      if-Begins t (known && t.confirm_used) _ _ (λ used. stays_here t _)
        (λ unused.
          if-Begins t known _ _
            (λ yes_known. begin_call-Begins call state t hash kind (λ w. (yes_known, ground arith)))
            (λ unknown. held-Begins state t _ _ (hold-SameConsent _ t)))

  begin_kind-Begins :
      (call : Call) (errors : List Error) (k : Kind) (state : State) (t : Turn)
      → call.kind ≡ k
      → call.hash ≡ node_hash c.codec call.sent
      → call.kind ≡ how_to_test c.catalog call.sent
      → BeginsFrom t (begin_kind c now loaded call errors k state t)
  begin_kind-Begins call errors listen state t e hash kind = stays_here t _
  begin_kind-Begins call (x ∷ errors) write state t e hash kind = stays_here t _
  begin_kind-Begins call (x ∷ errors) read state t e hash kind = stays_here t _
  begin_kind-Begins call (x ∷ errors) app_trigger state t e hash kind = stays_here t _
  begin_kind-Begins call (x ∷ errors) free state t e hash kind = stays_here t _
  begin_kind-Begins call [] write state t e hash kind = begin_write-Begins call state t hash kind
  begin_kind-Begins call [] read state t e hash kind =
      begin_call-Begins call state t hash kind (λ w. cc (ap is_write e))
  begin_kind-Begins call [] app_trigger state t e hash kind =
      begin_call-Begins call state t hash kind (λ w. cc (ap is_write e))
  begin_kind-Begins call [] free state t e hash kind =
      begin_call-Begins call state t hash kind (λ w. cc (ap is_write e))

  begin_node-Begins :
      (id : String) (node : Option Entries) (state : State) (t : Turn)
      → BeginsFrom t (begin_node c now loaded id node state t)
  begin_node-Begins id none state t = stays_here t _
  begin_node-Begins id (some node) state t =
      begin_kind-Begins (call_of c now loaded id node) (errors_of_node c t id)
        (how_to_test c.catalog node) state t refl refl refl

  pub begin_test-Begins :
      (id : String) (state : State) (t : Turn) → BeginsFrom t (begin_test c now loaded id state t)
  unfolding begin_test
  begin_test-Begins id state t = begin_node-Begins id (find_node id t.nodes) state t
