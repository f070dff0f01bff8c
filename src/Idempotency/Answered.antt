-- ===== src/Idempotency/Answered.antt =====
-- Which requests are answered without a run.
use mathlib.Core.Path.{subst}
use mathlib.Core.Bool.{true≢false}
use mathlib.Core.Option.{some-injective}
use ieum_agent.Base.{
  String, ◌≡◌, ◌≢◌, ◌⊎◌, ◌↔◌, refl, sym, inl, inr, Bool-cases, Bool, false, Option, none, some,
  arith, ◌==◌, string_eq, if◌then◌else◌, ap,
}
use ieum_agent.Base.Dict.{lookup}
use ieum_agent.Idempotency.{
  Doc, Status, Records, Net, unguarded, Inserted, duplicate, inserted, fault, of_find, up, down,
  lost, in_flight, in_progress, completed, cached, found, insert_one, clash, claim_insert,
  claim_find, claim_next, claim,
}
use ieum_agent.Idempotency.Handler.{Outcome, returned, Env, Reply, after_claim, execute}
use ieum_agent.Idempotency.Replay.{claim-taken}

module _ {A D : Type 0} (dump : A → Option D) (restore : D → Option A) (busy : A)
    (success : A → Bool) where
  -- The record of a finished run that restores to the answer, or that of a run in progress.
  abbrev pub Gives : Doc D → A → Type 0
  Gives doc r =
      ((body : D) × (doc.status ≡ completed) × (doc.response ≡ some body) × (restore body ≡ some r))
      ⊎ (((doc.status ≡ in_progress) ⊎ (doc.response ≡ none)) × (r ≡ busy))

  -- The request has a key, Mongo refuses its insert for a record with the key, and answers its find
  -- with a record that gives the answer.
  abbrev pub Answered : Env D → Option String → Records D → A → Type 0
  Answered env key db r =
      (k : String) × (key ≡ some k)
      × (k ≢ "")
      × (env.insert_net ≡ up)
      × ((old : Doc D) × (lookup k db ≡ some old))
      × (env.find_net ≡ up)
      × ((doc : Doc D) × (lookup k (env.between db) ≡ some doc) × Gives doc r)

  cached_iff :
      (status : Status) (o : Option D) (r : A)
      → (cached restore busy status o ≡ some r) ↔ (
          ((body : D) × (status ≡ completed) × (o ≡ some body) × (restore body ≡ some r))
          ⊎ (((status ≡ in_progress) ⊎ (o ≡ none)) × (r ≡ busy)))
  cached_iff completed (some body) r = (
    λ h. inl (body, refl, refl, h),
    λ g. elim g [
      | inl (b, s, o, h) ↦ ground (arith, h)
      | inr (inl s, e) ↦ cc
      | inr (inr o, e) ↦ cc
    ],
  )
  cached_iff completed none r = (
    λ h. inr (inr refl, ground arith),
    λ g. elim g [ inl (b, s, o, h) ↦ cc | inr (w, e) ↦ rw e refl ],
  )
  cached_iff in_progress o r = (
    λ h. inr (inl refl, ground arith),
    λ g. elim g [ inl (b, s, o, h) ↦ cc | inr (w, e) ↦ rw e refl ],
  )

  found_iff :
      (o : Option (Doc D)) (r : A)
      → (found restore busy o ≡ some r) ↔ ((doc : Doc D) × (o ≡ some doc) × Gives doc r)
  found_iff none r = (λ h. cc, λ (doc, e, g). cc)
  found_iff (some doc) r = (
    λ h. (doc, refl, (cached_iff doc.status doc.response r).0 h),
    λ (doc', e, g).
        (cached_iff doc.status doc.response r).1
          (subst (λ d. Gives d r) (sym (some-injective _ _ e)) g),
  )

  abbrev answered_by : Env D → Records D → A → Reply A D
  answered_by env db r = record { outcome = returned r; executed = false; records = env.between db }

  clash-duplicate : (o : Option (Doc D)) → clash o ≡ duplicate → (doc : Doc D) × (o ≡ some doc)
  clash-duplicate none h = cc
  clash-duplicate (some doc) h = (doc, refl)

  insert_one-duplicate :
      (n : Net) (k : String) (doc : Doc D) (db : Records D)
      → (insert_one n k doc db).0 ≡ duplicate
      → (n ≡ up) × ((old : Doc D) × (lookup k db ≡ some old))
  unfolding insert_one
  insert_one-duplicate up k doc db h = (refl, clash-duplicate (lookup k db) h)
  insert_one-duplicate down k doc db h = cc
  insert_one-duplicate lost k doc db h = cc

  claim_next-duplicate :
      (env : Env D) (k : String) (key : Option String) (run : Outcome A)
      (ins : Inserted × Records D)
      → (after_claim dump restore busy success env key run
          (claim_next restore busy env.find_net env.between k ins)).executed
        ≡ false
      → ins.0 ≡ duplicate
  claim_next-duplicate env k key run (inserted, db) h = cc
  claim_next-duplicate env k key run (fault, db) h = cc
  claim_next-duplicate env k key run (duplicate, db) h = refl

  of_find-answer :
      (env : Env D) (key : Option String) (run : Outcome A) (o : Option A) (db : Records D) (r : A)
      → (after_claim dump restore busy success env key run (of_find o, env.between db)
          ≡ answered_by env db r)
        ↔ (o ≡ some r)
  of_find-answer env key run none db r =
      (λ h. absurd (true≢false (ap (λ (x : Reply A D). x.executed) h)), λ h. cc)
  of_find-answer env key run (some a) db r =
      (λ h. same a (ap (λ (x : Reply A D). x.outcome) h), λ h. rw (some-injective _ _ h) refl)
    where
      same : (a : A) → ◌≡◌ {A = Outcome A} (returned a) (returned r) → some a ≡ some r
      same a e = cc

  claim_find_iff :
      (n : Net) (k : String) (db : Records D) (r : A)
      → (claim_find restore busy n k db ≡ some r)
        ↔ ((n ≡ up) × ((doc : Doc D) × (lookup k db ≡ some doc) × Gives doc r))
  unfolding claim_find
  claim_find_iff up k db r =
      (λ h. (refl, (found_iff (lookup k db) r).0 h), λ (n, g). (found_iff (lookup k db) r).1 g)
  claim_find_iff down k db r = (λ h. cc, λ (n, g). cc)
  claim_find_iff lost k db r = (λ h. cc, λ (n, g). cc)

  answered_taken :
      (env : Env D) (k : String) (run : Outcome A) (db : Records D) (old : Doc D) (r : A)
      → k ≢ ""
      → env.insert_net ≡ up
      → lookup k db ≡ some old
      → (execute dump restore busy success env (some k) run db ≡ answered_by env db r) ↔ (
          (env.find_net ≡ up)
          × ((doc : Doc D) × (lookup k (env.between db) ≡ some doc) × Gives doc r))
  unfolding execute
  answered_taken env k run db old r named n there =
      rw
        (claim-taken dump restore busy success env.insert_net env.find_net env.claim_at env.between
          k db old n named there)
        (
          λ h.
              (claim_find_iff env.find_net k (env.between db) r).0
                ((of_find-answer env (some k) run _ db r).0 h),
          λ g.
              (of_find-answer env (some k) run _ db r).1
                ((claim_find_iff env.find_net k (env.between db) r).1 g),
        )

  -- A request that does not run has a key, and Mongo has refused its insert for a record with the key.
  idle-taken :
      (env : Env D) (key : Option String) (run : Outcome A) (db : Records D)
      → (execute dump restore busy success env key run db).executed ≡ false
      → (k : String) × (key ≡ some k)
        × (k ≢ "")
        × (env.insert_net ≡ up)
        × ((old : Doc D) × (lookup k db ≡ some old))
  unfolding execute claim claim_insert
  idle-taken env none run db h = cc
  idle-taken env (some k) run db h =
      let ran : Bool → Type 0 = λ b.
        (after_claim dump restore busy success env (some k) run (
          if b
          then (unguarded, db)
          else claim_next restore busy env.find_net env.between k
              (insert_one env.insert_net k (in_flight env.claim_at) db))).executed
        ≡ false in
      elim (Bool-cases (k == "")) [
        | inl blank ↦ absurd (true≢false (subst ran blank h))
        | inr named ↦
            let taken = claim_next-duplicate env k (some k) run _ (subst ran named h) in
            let (n, old) = insert_one-duplicate env.insert_net k _ db taken in
            (k, refl, λ e. ground (arith, named, e), n, old)
      ]

  -- A request is answered with a response and does not run exactly if it has a key that is not empty,
  -- Mongo refuses its insert for a record with the key, and answers its find with a record that is
  -- completed and restores to the response, or that is in progress or without a response, where the
  -- response is the busy one.
  pub execute_answered_iff :
      (env : Env D) (key : Option String) (run : Outcome A) (db : Records D) (r : A)
      → (execute dump restore busy success env key run db
          ≡ record { outcome = returned r; executed = false; records = env.between db })
        ↔ Answered env key db r
  execute_answered_iff env key run db r = (to, from)
    where
      to :
          execute dump restore busy success env key run db ≡ answered_by env db r
          → Answered env key db r
      to h =
          let (k, given, named, n, (old, there)) =
            idle-taken env key run db (ap (λ (x : Reply A D). x.executed) h) in
          let (m, g) = (answered_taken env k run db old r named n there).0 (
            subst (λ x. execute dump restore busy success env x run db ≡ answered_by env db r) given
              h) in
          (k, given, named, n, (old, there), m, g)

      from :
          Answered env key db r
          → execute dump restore busy success env key run db ≡ answered_by env db r
      from (k, given, named, n, (old, there), m, g) =
          rw given ((answered_taken env k run db old r named n there).1 (m, g))
