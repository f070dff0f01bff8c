-- ===== src/Idempotency/OneRun.antt =====
-- The guard's promise over every interleaving of requests, clock and expiry.
use ieum_agent.Base.{
  ℕ, ◌+◌, ◌≤◌, ◌<◌, String, ◌≡◌, refl, Bool, true, false, Option, List, [], ◌∷◌, ◌++◌, arith, All,
  some,
}
use ieum_agent.Base.Dict.{lookup, erase, lookup-erase}
use ieum_agent.Idempotency.{Doc, Records, in_flight_ttl_seconds}
use ieum_agent.Idempotency.Interleaving.{
  Phase, running, Request, System, Choice, advance, holding, holders, Within, Step, arrive, act,
  tick, expire, Reach, here, next,
}
use ieum_agent.Idempotency.Exclusion.{
  Owns, Owners, IsSafe, Moved, holders-append, All-before, All-after, All-join, Owners-SameBut,
}
use ieum_agent.Idempotency.Moves.{advance-Moved}

module _ {A D : Type 0} (dump : A → Option D) (restore : D → Option A) (busy : A)
    (success : A → Bool) (limit : ℕ) where
  -- The moved request back in its place.
  rejoin :
      (now : ℕ) (db : Records D) (key : String) (ph : Phase A) (before after : List (Request A))
      → Moved limit now db key ph (before ++ after)
      → IsSafe limit (record {
        records = db;
        requests = before ++ record { key = key; phase = ph } ∷ after;
        now = now;
      })
  rejoin now db key ph before after m = record {
    owns =
        All-join (λ q. Owns limit now db q.key q.phase) before
          (record { key = key; phase = ph } ∷ after)
          (All-before (λ q. Owns limit now db q.key q.phase) before after m.owners)
          (m.own, All-after (λ q. Owns limit now db q.key q.phase) before after m.owners);
    single = λ k. omega (
      arith,
      m.single k,
      holders-append k before (record { key = key; phase = ph } ∷ after),
      holders-append k before after,
    );
  }

  act-IsSafe :
      (s : System A D) (before after : List (Request A)) (r : Request A) (c : Choice A)
      → s.requests ≡ before ++ r ∷ after
      → IsSafe limit s
      → IsSafe limit (record {
        records = (advance dump restore busy success c s.now r.key r.phase s.records).1;
        requests =
            before
            ++ record {
              key = r.key;
              phase = (advance dump restore busy success c s.now r.key r.phase s.records).0;
            }
              ∷ after;
        now = s.now;
      })
  act-IsSafe s before after r c e safe =
      let o : All (λ q. Owns limit s.now s.records q.key q.phase) (before ++ r ∷ after) =
        rw (← e) safe.owns in
      let one : (k : String) → holders k (before ++ r ∷ after) ≤ 1 =
        λ k. rw (← e) (safe.single k) in
      let own = All-after (λ q. Owns limit s.now s.records q.key q.phase) before (r ∷ after) o in
      let m : Moved limit s.now
          (advance dump restore busy success c s.now r.key r.phase s.records).1 r.key
          (advance dump restore busy success c s.now r.key r.phase s.records).0 (before ++ after) =
        advance-Moved dump restore busy success s.now r.key s.records limit c (before ++ after)
          (All-join (λ q. Owns limit s.now s.records q.key q.phase) before after
            (All-before (λ q. Owns limit s.now s.records q.key q.phase) before (r ∷ after) o) own.1)
          r.phase own.0
          (λ k.
            omega
              (arith, one k, holders-append k before (r ∷ after), holders-append k before after)) in
      rejoin s.now _ r.key _ before after m

  -- Time passes for the others, within the bound of each run.
  tick_owns :
      (now n : ℕ) (db : Records D) (xs : List (Request A))
      → All (λ r. Within limit (now + n) r.phase) xs
      → Owners limit now db xs
      → Owners limit (now + n) db xs
  tick_owns now n db [] w o = tt
  tick_owns now n db (x ∷ xs) (v, w) (p, o) = (one x.phase v p, tick_owns now n db xs w o)
    where
      one :
          (ph : Phase A)
          → Within limit (now + n) ph
          → Owns limit now db x.key ph
          → Owns limit (now + n) db x.key ph
      one (running true since) v (p, q) = (p, v)
      one (running false since) v p = tt
      one _ v p = tt

  -- A record that Mongo may expire backs no claimed run, because a run ends sooner.
  expire_holders :
      (now : ℕ) (k : String) (doc : Doc D) (db : Records D) (xs : List (Request A))
      → limit < in_flight_ttl_seconds
      → lookup k db ≡ some doc
      → doc.expires_at ≤ now
      → Owners limit now db xs
      → holders k xs ≡ 0
  expire_holders now k doc db [] lt there late o = refl
  expire_holders now k doc db (x ∷ xs) lt there late (p, o) =
      omega (arith, one x.phase p, expire_holders now k doc db xs lt there late o)
    where
      one : (ph : Phase A) → Owns limit now db x.key ph → holding k x.key ph ≡ 0
      one (running true since) (p, q) = ground arith
      one (running false since) p = refl
      one _ p = refl

  Step-IsSafe :
      {s t : System A D}
      → limit < in_flight_ttl_seconds
      → Step dump restore busy success limit s t
      → IsSafe limit s
      → IsSafe limit t
  Step-IsSafe lt (arrive key) safe = record {
    owns = (tt, safe.owns);
    single = λ k. omega (arith, safe.single k);
  }
  Step-IsSafe {s} lt (act before after r c e) safe = act-IsSafe s before after r c e safe
  Step-IsSafe {s} lt (tick n w) safe = record {
    owns = tick_owns s.now n s.records s.requests w safe.owns;
    single = safe.single;
  }
  Step-IsSafe {s} lt (expire k doc there late) safe = record {
    owns =
        Owners-SameBut limit s.now k s.records (erase k s.records) s.requests
          (λ j ne. ground (arith, lookup-erase j k s.records))
          (expire_holders s.now k doc s.records s.requests lt there late safe.owns) safe.owns;
    single = safe.single;
  }

  Reach-IsSafe :
      {s t : System A D}
      → limit < in_flight_ttl_seconds
      → Reach dump restore busy success limit s t
      → IsSafe limit s
      → IsSafe limit t
  Reach-IsSafe lt here safe = safe
  Reach-IsSafe lt (next r st) safe = Step-IsSafe lt st (Reach-IsSafe lt r safe)

  -- Whatever records stand there at first, and in whatever order requests arrive, move and wait,
  -- the clock runs and Mongo expires records, fails calls or loses their replies: if a claimed run
  -- ends within a limit below the in-flight TTL, at most one request at a time runs with a claimed
  -- key, and the record of that key is the one its claim wrote.
  pub claimed_once :
      (db : Records D) (start : ℕ) (t : System A D) (k : String)
      → limit < in_flight_ttl_seconds
      → Reach dump restore busy success limit
          (record { records = db; requests = []; now = start })
          t
      → (holders k t.requests ≤ 1) × All (λ r. Owns limit t.now t.records r.key r.phase) t.requests
  claimed_once db start t k lt reach =
      let safe = Reach-IsSafe lt reach (record { owns = tt; single = λ j. omega arith }) in
      (safe.single k, safe.owns)
