-- ===== src/Builder/Session/Ready.antt =====
-- `finish` asks only about a workflow that is ready.
use ieum_agent.Base.{
  ℕ, ◌≡◌, refl, ◌∙◌, String, Bool, true, false, Option, none, some, List, [], ◌∷◌, arith,
  Bool-cases, inl, inr, All, map, first,
}
use ieum_agent.Value.{dict, Entries}
use ieum_agent.Validator.Problem.{Error}
use ieum_agent.Validator.Workflow.{validate_workflow}
use ieum_agent.Validator.Workflow.Accepted.{Accepted, validate_workflow_sound}
use ieum_agent.Builder.State.{workflow_hash, is_done}
use ieum_agent.Builder.Models.{Choice}
use ieum_agent.Builder.Turn.{Pending, pick, confirm, finish_id, State, Turn, put_pending, hold}
use ieum_agent.Builder.Testing.{Checks, awaiting, status_of, lacks_key, workflow_errors}
use ieum_agent.Builder.Finish.{finish, finish_keyed, finish_with, remaining, held}

module _ (c : Checks) where
  -- What the question whether to finish rests on.
  pub record Ready (state : State) (t u : Turn) : Type 0 where
    pub keyed : All (λ n. lacks_key n ≡ false) t.nodes
    pub done : All (λ n. is_done (status_of c state n) ≡ true) t.nodes
    pub checked :
        validate_workflow c.catalog c.parser c.size_of (map dict t.nodes) (map dict t.edges) ≡ []
    pub accepted : Accepted c.catalog c.parser (map dict t.nodes) (map dict t.edges)
    pub question :
        u.pending ≡ some (confirm finish_id (workflow_hash c.codec t.nodes t.edges) false)

  all_keyed :
      (nodes : List Entries) → first lacks_key nodes ≡ none → All (λ n. lacks_key n ≡ false) nodes
  all_keyed [] h = tt
  all_keyed (n ∷ nodes) h = elim (Bool-cases (lacks_key n)) [
    | inl lacks ↦ ground arith
    | inr keyed ↦ (keyed, all_keyed nodes (ground arith))
  ]

  all_done :
      (state : State) (nodes : List Entries)
      → remaining c state nodes ≡ []
      → All (λ n. is_done (status_of c state n) ≡ true) nodes
  all_done state [] h = tt
  all_done state (n ∷ nodes) h = elim (Bool-cases (is_done (status_of c state n))) [
    | inl done ↦ (done, all_done state nodes (ground arith))
    | inr undone ↦ ground arith
  ]

  put_pending_new :
      (old : Option Pending) (p : Pending)
      → (put_pending old p).1 ≡ true
      → (put_pending old p).0 ≡ some p
  put_pending_new none p h = refl
  put_pending_new (some (pick id h' choices)) p h = cc
  put_pending_new (some (confirm id h' skip_only)) p h = refl

  held_awaiting :
      (u : Turn) (done : Bool)
      → (held c (u, done)).1 ≡ awaiting
      → (done ≡ true) × ((held c (u, done)).0.pending ≡ u.pending)
  held_awaiting u true h = (refl, refl)
  held_awaiting u false h = cc

  -- what `finish` asks, and when
  asks_when :
      (left : List String) (errors : List Error) (t : Turn)
      → (finish_with c left errors t).1 ≡ awaiting
      → (left ≡ [])
        × (errors ≡ [])
        × ((finish_with c left errors t).0.pending
            ≡ some (confirm finish_id (workflow_hash c.codec t.nodes t.edges) false))
  unfolding hold
  asks_when [] [] t h =
      let p = confirm finish_id (workflow_hash c.codec t.nodes t.edges) false in
      let put = put_pending t.pending p in
      let (done, same) = held_awaiting (record t { pending = put.0 }) put.1 h in
      (refl, refl, same ∙ put_pending_new t.pending p done)
  asks_when [] (e ∷ errors) t h = cc
  asks_when (x ∷ left) errors t h = cc

  Ready-keyed :
      (now : ℕ) (loaded : Option (List Choice)) (unkeyed : Option Entries) (state : State)
      (t : Turn)
      → first lacks_key t.nodes ≡ unkeyed
      → (finish_keyed c now loaded unkeyed state t).1 ≡ awaiting
      → Ready state t (finish_keyed c now loaded unkeyed state t).0
  Ready-keyed now loaded (some node) state t e h = cc
  Ready-keyed now loaded none state t e h =
      let (left, errors, asked) = asks_when (remaining c state t.nodes) (workflow_errors c t) t h in
      record {
        keyed = all_keyed t.nodes e;
        done = all_done state t.nodes left;
        checked = errors;
        accepted =
            validate_workflow_sound c.catalog c.parser c.size_of (map dict t.nodes)
              (map dict t.edges) errors;
        question = asked;
      }

  -- If `finish` asks the user whether to finish: every AI node has a key, every node is tested,
  -- skipped or as it was before, the validator finds no error in the workflow, which is thus as
  -- `Accepted` describes it, and the question is about the hash of this workflow.
  pub finish-Ready :
      (now : ℕ) (loaded : Option (List Choice)) (state : State) (t : Turn)
      → (finish c now loaded state t).1 ≡ awaiting
      → Ready state t (finish c now loaded state t).0
  unfolding finish
  finish-Ready now loaded state t h =
      Ready-keyed now loaded (first lacks_key t.nodes) state t refl h
