-- ===== src/Builder/Write/Keys/Distinct.antt =====
-- Each branch gets a key of its own.
use mathlib.Core.Path.{subst}
use mathlib.Core.Option.{some-injective}
use ieum_agent.Base.{
  ◌≡◌, refl, sym, ap, ◌∙◌, String, true, false, not, ◌&&◌, Option, none, some, List, [], ◌∷◌, ◌++◌,
  ◌==◌, string_eq, length, suc, contains, contains-append, Distinct, arith, Bool-cases, inl, inr,
  ◌⊎◌, if_cases, or_true, or_false, test_self, eq_of_test,
}
use ieum_agent.Base.Dict.{Dict}
use ieum_agent.Value.{Values, Value, list, text, Entries, of_values}
use ieum_agent.Builder.State.{Codec}
use ieum_agent.Builder.Write.Keys.{
  old_branches, existing_keys, keyed, reserve, and_used, kept_keys, sent_key, inherited,
  inherit_or_draw, somes, assign, branch_keys_for, all_objects, with_keys, keyed_branches,
}

module _ (codec : Codec) where
  -- Each key that is kept is not among those that were used before.
  reserve-fresh :
      (existing used : List String) (v : Value) (k : String)
      → reserve codec existing used v ≡ some k
      → contains used k ≡ false
  reserve-fresh existing used (text j) k h =
      elim (if_cases (contains existing j && not (contains used j)) h) [
        | inl (fits, e) ↦ rw (← some-injective _ _ e) (ground arith)
        | inr (other, e) ↦ cc
      ]
  reserve-fresh existing used v k h = cc

  -- No key of `used` stands in the list.
  abbrev Apart : List String → List String → Type 0
  Apart used ks = (k : String) → contains used k ≡ true → contains ks k ≡ false

  Apart-cons :
      (used : List String) (k : String) (ks : List String)
      → contains used k ≡ false
      → Apart (k ∷ used) ks
      → Apart used (k ∷ ks)
  Apart-cons used k ks fresh apart j u = elim (Bool-cases (j == k)) [
    | inl same ↦ let known = subst (λ x. contains used x ≡ true) (eq_of_test j k same) u in cc
    | inr other ↦ rw other (apart j (rw other u))
  ]

  somes-Distinct :
      (used : List String) (o : Option String) (ks : List (Option String))
      → ((k : String) → o ≡ some k → contains used k ≡ false)
      → Distinct (somes codec ks) × Apart (and_used codec o used) (somes codec ks)
      → Distinct (somes codec (o ∷ ks)) × Apart used (somes codec (o ∷ ks))
  somes-Distinct used none ks fresh h = h
  somes-Distinct used (some k) ks fresh (distinct, apart) = (
    (apart k (rw (test_self k) refl), distinct),
    Apart-cons used k (somes codec ks) (fresh k refl) apart,
  )

  kept_keys-Distinct :
      (existing : List String) (bs : List Entries) (used : List String)
      → Distinct (somes codec (kept_keys codec existing used bs))
        × Apart used (somes codec (kept_keys codec existing used bs))
  unfolding kept_keys
  kept_keys-Distinct existing [] used = (tt, λ k u. refl)
  kept_keys-Distinct existing (b ∷ bs) used =
      somes-Distinct used (reserve codec existing used (sent_key codec b)) _
        (reserve-fresh existing used (sent_key codec b))
        (kept_keys-Distinct existing bs
          (and_used codec (reserve codec existing used (sent_key codec b)) used))

  length-kept_keys :
      (existing : List String) (bs : List Entries) (used : List String)
      → length (kept_keys codec existing used bs) ≡ length bs
  unfolding kept_keys
  length-kept_keys existing [] used = refl
  length-kept_keys existing (b ∷ bs) used = ap suc (
      length-kept_keys existing bs
        (and_used codec (reserve codec existing used (sent_key codec b)) used))

  module _ (draw : List String → String)
      (drawn : (taken : List String) → contains taken (draw taken) ≡ false) where
    drawn-fresh : (existing used : List String) → contains used (draw (existing ++ used)) ≡ false
    drawn-fresh existing used =
        (or_false _ _ (
          sym (contains-append (draw (existing ++ used)) existing used)
          ∙ drawn (existing ++ used))).1

    inherit_or_draw-fresh :
        (existing used : List String) (o : Option String)
        → contains used (inherit_or_draw codec draw existing used o) ≡ false
    inherit_or_draw-fresh existing used none = drawn-fresh existing used
    inherit_or_draw-fresh existing used (some k) = elim (Bool-cases (contains used k)) [
      | inl taken ↦ rw taken (drawn-fresh existing used)
      | inr free ↦ rw free free
    ]

    -- A key that is assigned is one that was kept, or was not used before.
    abbrev Fresh : List String → List String → List String → Type 0
    Fresh kept used out =
        (k : String) → contains out k ≡ true → (contains kept k ≡ true) ⊎ (contains used k ≡ false)

    abbrev Within : List String → List String → Type 0
    Within ks used = (k : String) → contains ks k ≡ true → contains used k ≡ true

    kept-Fresh :
        (k : String) (kept used out : List String)
        → contains kept k ≡ false
        → contains used k ≡ true
        → Fresh kept used out
        → (contains out k ≡ false) × Fresh (k ∷ kept) used (k ∷ out)
    kept-Fresh k kept used out once known fresh = (
      elim (Bool-cases (contains out k)) [
        | inl again ↦ elim (fresh k again) [ inl c ↦ cc | inr c ↦ cc ]
        | inr away ↦ away
      ],
      λ j c. elim (or_true (j == k) (contains out j) c) [
        | inl same ↦ inl (rw same refl)
        | inr later ↦ elim (fresh j later) [ inl kept_too ↦ inl (ground arith) | inr new ↦ inr new ]
      ],
    )

    new-Fresh :
        (k : String) (kept used out : List String)
        → Within kept used
        → contains used k ≡ false
        → Fresh kept (k ∷ used) out
        → (contains out k ≡ false) × Fresh kept used (k ∷ out)
    new-Fresh k kept used out w new fresh = (
      elim (Bool-cases (contains out k)) [
        | inl again ↦ elim (fresh k again) [
          | inl c ↦ let known = w k c in cc
          | inr c ↦
              let differs : (k == k) ≡ false = (or_false (k == k) (contains used k) c).0 in
              let same = test_self k in cc
        ]
        | inr away ↦ away
      ],
      λ j c. elim (or_true (j == k) (contains out j) c) [
        | inl same ↦ inr (rw (eq_of_test j k same) new)
        | inr later ↦ elim (fresh j later) [
          | inl kept_too ↦ inl kept_too
          | inr other ↦ inr (or_false (j == k) (contains used j) other).1
        ]
      ],
    )

    assign-Distinct :
        (existing : List String) (names : Dict String) (used : List String) (bs : List Entries)
        (ks : List (Option String))
        → Distinct (somes codec ks)
        → Within (somes codec ks) used
        → Distinct (assign codec draw existing names used bs ks)
          × Fresh (somes codec ks) used (assign codec draw existing names used bs ks)
    unfolding assign
    assign-Distinct existing names used [] ks d w = (tt, λ k c. cc)
    assign-Distinct existing names used (b ∷ bs) [] d w = (tt, λ k c. cc)
    assign-Distinct existing names used (b ∷ bs) (some k ∷ ks) (once, d) w =
        let (distinct, fresh) =
          assign-Distinct existing names used bs ks d (λ j c. w j (ground arith)) in
        let (away, all) =
          kept-Fresh k (somes codec ks) used _ once (w k (rw (test_self k) refl)) fresh in
        ((away, distinct), all)
    assign-Distinct existing names used (b ∷ bs) (none ∷ ks) d w =
        let k = inherit_or_draw codec draw existing used (inherited codec names b) in
        let new = inherit_or_draw-fresh existing used (inherited codec names b) in
        let (distinct, fresh) =
          assign-Distinct existing names (k ∷ used) bs ks d (λ j c. ground (arith, w j c)) in
        let (away, all) = new-Fresh k (somes codec ks) used _ w new fresh in ((away, distinct), all)

    length-assign :
        (existing : List String) (names : Dict String) (used : List String) (bs : List Entries)
        (ks : List (Option String))
        → length ks ≡ length bs
        → length (assign codec draw existing names used bs ks) ≡ length bs
    unfolding assign
    length-assign existing names used [] ks h = refl
    length-assign existing names used (b ∷ bs) [] h = absurd (omega arith)
    length-assign existing names used (b ∷ bs) (some k ∷ ks) h =
        omega (arith, length-assign existing names used bs ks (omega arith))
    length-assign existing names used (b ∷ bs) (none ∷ ks) h =
        let k = inherit_or_draw codec draw existing used (inherited codec names b) in
        omega (arith, length-assign existing names (k ∷ used) bs ks (omega arith))

    branch_keys_for-Distinct :
        (old sent : List Entries)
        → (length (branch_keys_for codec draw old sent) ≡ length sent)
          × Distinct (branch_keys_for codec draw old sent)
    branch_keys_for-Distinct old sent = (
      length-assign (existing_keys old) _ _ sent _ (length-kept_keys (existing_keys old) sent []),
      (assign-Distinct (existing_keys old) _ _ sent _
          (kept_keys-Distinct (existing_keys old) sent []).0 (λ k c. c)).0,
    )

    keyed-some :
        (old : List Entries) (o : Option (List Entries)) (new : Value)
        → keyed codec draw old o ≡ some new
        → (sent : List Entries) × (o ≡ some sent)
          × (new ≡ list (of_values (with_keys codec sent (branch_keys_for codec draw old sent))))
    keyed-some old none new h = cc
    keyed-some old (some sent) new h = (sent, refl, sym (some-injective _ _ h))

    -- Where the branches that are sent are accepted, they are a list of objects, and each of them gets a
    -- key, all of them different; nothing else of them changes.
    pub keyed_branches-Distinct :
        (current new : Value) (vs : Values)
        → keyed_branches codec draw current (list vs) ≡ some new
        → (sent : List Entries) × (keys : List String) × (all_objects vs ≡ some sent)
          × (new ≡ list (of_values (with_keys codec sent keys)))
          × (length keys ≡ length sent)
          × Distinct keys
    unfolding keyed_branches
    keyed_branches-Distinct current new vs h =
        let (sent, objects, e) = keyed-some (old_branches current) (all_objects vs) new h in
        let (long, distinct) = branch_keys_for-Distinct (old_branches current) sent in
        (sent, branch_keys_for codec draw (old_branches current) sent, objects, e, long, distinct)
