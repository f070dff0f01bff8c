-- ===== src/Idempotency/Exclusion.antt =====
-- The invariant by which no two requests run with the same claimed key.
use ieum_agent.Base.{
  ℕ, ◌+◌, ◌≤◌, String, ◌≡◌, ◌≢◌, refl, ◌∙◌, true, false, none, some, List, [], ◌∷◌, ◌++◌, arith,
  ◌==◌, string_eq, if◌then◌else◌, All,
}
use ieum_agent.Base.Dict.{lookup, insert, lookup-insert}
use ieum_agent.Idempotency.{Records, in_flight}
use ieum_agent.Idempotency.Interleaving.{Phase, running, Request, System, holding, holders}

-- A claimed run is backed by the record that its own claim wrote.
abbrev pub Owns : {A D : Type 0} → ℕ → ℕ → Records D → String → Phase A → Type 0
Owns limit now db key (running true since) =
    (lookup key db ≡ some (in_flight since)) × (now ≤ since + limit)
Owns limit now db key _ = Unit

module _ {A D : Type 0} (limit : ℕ) where
  pub record IsSafe (s : System A D) : Type 0 where
    pub owns : All (λ r. Owns limit s.now s.records r.key r.phase) s.requests
    pub single : (k : String) → holders k s.requests ≤ 1

module _ {A : Type 0} where
  pub holders-append :
      (k : String) (xs ys : List (Request A)) → holders k (xs ++ ys) ≡ holders k xs + holders k ys
  holders-append k [] ys = omega arith
  holders-append k (x ∷ xs) ys = omega (arith, holders-append k xs ys)

module _ {A : Type 0} (P : A → Type 0) where
  pub All-before : (xs ys : List A) → All P (xs ++ ys) → All P xs
  All-before [] ys h = tt
  All-before (x ∷ xs) ys (p, h) = (p, All-before xs ys h)

  pub All-after : (xs ys : List A) → All P (xs ++ ys) → All P ys
  All-after [] ys h = h
  All-after (x ∷ xs) ys (p, h) = All-after xs ys h

  pub All-join : (xs ys : List A) → All P xs → All P ys → All P (xs ++ ys)
  All-join [] ys h k = k
  All-join (x ∷ xs) ys (p, h) k = (p, All-join xs ys h k)

-- Only the record of `k` differs.
abbrev pub SameBut : {D : Type 0} → String → Records D → Records D → Type 0
SameBut k db db' = (j : String) → j ≢ k → lookup j db' ≡ lookup j db

ne_of_test : (k key : String) → ◌≡◌ {A = ℕ} (if k == key then 1 else 0) 0 → key ≢ k
ne_of_test k key h = λ e. ground arith

module _ {A D : Type 0} (limit now : ℕ) where
  abbrev pub Owners : Records D → List (Request A) → Type 0
  Owners db = All (λ r. Owns limit now db r.key r.phase)

  -- No run holds a key that has no record.
  holding_of_absent :
      (k : String) (db : Records D) (key : String) (ph : Phase A)
      → lookup k db ≡ none
      → Owns limit now db key ph
      → holding k key ph ≡ 0
  holding_of_absent k db key (running true since) h p = ground arith
  holding_of_absent k db key (running false since) h p = refl
  holding_of_absent k db key _ h p = refl

  pub holders_of_absent :
      (k : String) (db : Records D) (xs : List (Request A))
      → lookup k db ≡ none
      → Owners db xs
      → holders k xs ≡ 0
  holders_of_absent k db [] h o = refl
  holders_of_absent k db (x ∷ xs) h (p, o) =
      omega (arith, holding_of_absent k db x.key x.phase h p, holders_of_absent k db xs h o)

  Owns-SameBut :
      (k : String) (db db' : Records D) (key : String) (ph : Phase A)
      → SameBut k db db'
      → holding k key ph ≡ 0
      → Owns limit now db key ph
      → Owns limit now db' key ph
  Owns-SameBut k db db' key (running true since) same z (p, q) =
      ((same key (ne_of_test k key z)) ∙ p, q)
  Owns-SameBut k db db' key (running false since) same z p = p
  Owns-SameBut k db db' key _ same z p = p

  pub Owners-SameBut :
      (k : String) (db db' : Records D) (xs : List (Request A))
      → SameBut k db db'
      → holders k xs ≡ 0
      → Owners db xs
      → Owners db' xs
  Owners-SameBut k db db' [] same z o = tt
  Owners-SameBut k db db' (x ∷ xs) same z (p, o) = (
    Owns-SameBut k db db' x.key x.phase same (omega arith) p,
    Owners-SameBut k db db' xs same (omega arith) o,
  )

  -- What a move leaves: `key` and `ph` are the moved request's, `xs` the other requests.
  pub record Moved (db : Records D) (key : String) (ph : Phase A) (xs : List (Request A))
      : Type 0 where
    pub own : Owns limit now db key ph
    pub owners : Owners db xs
    pub single : (k : String) → holding k key ph + holders k xs ≤ 1

  -- A move to a phase that holds nothing, and that changes at most a record nobody else holds.
  pub Moved-idle :
      (db db' : Records D) (key : String) (ph : Phase A) (xs : List (Request A))
      → ((k : String) → holding k key ph ≡ 0)
      → Owns limit now db' key ph
      → SameBut key db db'
      → holders key xs ≡ 0
      → Owners db xs
      → ((k : String) → holders k xs ≤ 1)
      → Moved db' key ph xs
  Moved-idle db db' key ph xs idle own same z o one = record {
    own = own;
    owners = Owners-SameBut key db db' xs same z o;
    single = λ k. omega (arith, idle k, one k);
  }

  -- The claim that wins: the record was absent, so that nobody held the key.
  pub Moved-claim :
      (db : Records D) (key : String) (xs : List (Request A))
      → lookup key db ≡ none
      → Owners db xs
      → ((k : String) → holders k xs ≤ 1)
      → Moved (insert key (in_flight now) db) key (running true now) xs
  Moved-claim db key xs fresh o one = record {
    own = (ground (arith, lookup-insert key key (in_flight {D = D} now) db), omega arith);
    owners =
        Owners-SameBut key db (insert key (in_flight now) db) xs
          (λ j ne. ground (arith, lookup-insert j key (in_flight {D = D} now) db, ne))
          (holders_of_absent key db xs fresh o) o;
    single = λ k. ground (arith, one k, holders_of_absent key db xs fresh o);
  }
