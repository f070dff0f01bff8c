-- ===== src/Idempotency/Moves.antt =====
-- Every move of a request keeps the invariant of Exclusion.antt.
use ieum_agent.Base.{
  ℕ, ◌+◌, ◌≤◌, String, ◌≡◌, refl, Bool, true, false, Option, none, some, Option-cases, inl, inr,
  Bool-cases, List, arith, ◌==◌, string_eq, if◌then◌else◌,
}
use ieum_agent.Base.Dict.{lookup, insert, erase, lookup-insert, lookup-erase}
use ieum_agent.Idempotency.{
  Doc, Records, Net, up, down, lost, in_flight, insert_one, claim_insert, set_completed, set_dumped,
  complete, release,
}
use ieum_agent.Idempotency.Handler.{Outcome, returned, raised, settle, ending}
use ieum_agent.Idempotency.Interleaving.{
  after_insert, after_find, Phase, waiting, asking, running, ended, Request, Choice, advance,
  holding, holders,
}
use ieum_agent.Idempotency.Exclusion.{
  Owns, Owners, SameBut, Moved, Moved-idle, Moved-claim, holders_of_absent,
}

module _ {A D : Type 0} (dump : A → Option D) (restore : D → Option A) (busy : A)
    (success : A → Bool) (now : ℕ) (key : String) (db : Records D) where
  insert-SameBut : (doc : Doc D) → SameBut key db (insert key doc db)
  insert-SameBut doc j ne = ground (arith, lookup-insert j key doc db)

  erase-SameBut : SameBut key db (erase key db)
  erase-SameBut j ne = ground (arith, lookup-erase j key db)

  set_completed-SameBut :
      (body : D) (o : Option (Doc D)) → SameBut key db (set_completed body now o key db)
  set_completed-SameBut body none j ne = refl
  set_completed-SameBut body (some doc) j ne = insert-SameBut _ j ne

  set_dumped-SameBut : (o : Option D) → SameBut key db (set_dumped o now key db)
  set_dumped-SameBut none j ne = refl
  set_dumped-SameBut (some body) j ne = set_completed-SameBut body (lookup key db) j ne

  choose-SameBut :
      (b : Bool) (db1 db2 : Records D)
      → SameBut key db db1
      → SameBut key db db2
      → SameBut key db (if b then db1 else db2)
  choose-SameBut true db1 db2 h k = h
  choose-SameBut false db1 db2 h k = k

  settle-SameBut :
      (net : Net) (run : Outcome A)
      → SameBut key db (settle dump restore busy success net now key run db)
  unfolding settle complete release
  settle-SameBut up raised = erase-SameBut
  settle-SameBut lost raised = erase-SameBut
  settle-SameBut down raised = λ j ne. refl
  settle-SameBut up (returned r) =
      choose-SameBut (success r) _ _ (set_dumped-SameBut (dump r)) erase-SameBut
  settle-SameBut lost (returned r) =
      choose-SameBut (success r) _ _ (set_dumped-SameBut (dump r)) erase-SameBut
  settle-SameBut down (returned r) = choose-SameBut (success r) db db (λ j ne. refl) (λ j ne. refl)

  module _ (limit : ℕ) (c : Choice A) (xs : List (Request A)) (o : Owners limit now db xs) where
    same_records : SameBut key db db
    same_records j ne = refl

    module _ (one : (k : String) → holders k xs ≤ 1) where
      -- A phase that holds nothing, over records that did not change.
      stay :
          (ph : Phase A)
          → ((k : String) → holding k key ph ≡ 0)
          → Owns limit now db key ph
          → Moved limit now db key ph xs
      stay ph idle own = record {
        own = own;
        owners = o;
        single = λ k. omega (arith, idle k, one k);
      }

      keyless : Moved limit now db key (running false now) xs
      keyless = stay (running false now) (λ k. refl) tt

      lost_insert :
          lookup key db ≡ none
          → Moved limit now (insert key (in_flight now) db) key (running false now) xs
      lost_insert fresh =
          Moved-idle limit now db (insert key (in_flight now) db) key (running false now) xs
            (λ k. refl) tt (insert-SameBut (in_flight now))
            (holders_of_absent limit now key db xs fresh o) o one

      abbrev tried : Net → Phase A × Records D
      tried net = after_insert now (claim_insert net now key db)

      fresh-Moved :
          (net : Net) → lookup key db ≡ none → Moved limit now (tried net).1 key (tried net).0 xs
      unfolding claim_insert insert_one
      fresh-Moved up e = rw e (Moved-claim limit now db key xs e o one)
      fresh-Moved down e = keyless
      fresh-Moved lost e = rw e (lost_insert e)

      taken-Moved :
          (net : Net) (doc : Doc D)
          → lookup key db ≡ some doc
          → Moved limit now (tried net).1 key (tried net).0 xs
      unfolding claim_insert insert_one
      taken-Moved up doc e = rw e (stay asking (λ k. refl) tt)
      taken-Moved down doc e = keyless
      taken-Moved lost doc e = rw e keyless

      insert-Moved : (net : Net) → Moved limit now (tried net).1 key (tried net).0 xs
      insert-Moved net = elim (Option-cases (lookup key db)) [
        | inl e ↦ fresh-Moved net e
        | inr (doc, e) ↦ taken-Moved net doc e
      ]

      find-Moved : (r : Option A) → Moved limit now db key (after_find now r) xs
      find-Moved none = keyless
      find-Moved (some r) = stay (ended (returned r)) (λ k. refl) tt

    abbrev pub moved : Phase A → Phase A × Records D
    moved ph = advance dump restore busy success c now key ph db

    pub advance-Moved :
        (ph : Phase A)
        → Owns limit now db key ph
        → ((k : String) → holding k key ph + holders k xs ≤ 1)
        → Moved limit now (moved ph).1 key (moved ph).0 xs
    unfolding advance
    advance-Moved waiting own one = elim (Bool-cases (key == "")) [
      | inl e ↦ rw e (keyless (λ k. omega (arith, one k)))
      | inr e ↦ rw e (insert-Moved (λ k. omega (arith, one k)) c.net)
    ]
    advance-Moved asking own one = find-Moved (λ k. omega (arith, one k)) _
    advance-Moved (running true since) own one =
        Moved-idle limit now db (settle dump restore busy success c.net now key c.run db) key
          (ended (ending dump restore busy success c.net c.run)) xs (λ k. refl) tt
          (settle-SameBut c.net c.run) (ground (arith, one key)) o (λ k. omega (arith, one k))
    advance-Moved (running false since) own one =
        stay (λ k. omega (arith, one k)) (ended c.run) (λ k. refl) tt
    advance-Moved (ended run) own one = stay (λ k. omega (arith, one k)) (ended run) (λ k. refl) tt
