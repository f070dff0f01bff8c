-- ===== src/Validator/Collect/Limits.antt =====
-- The answer is bounded, and nothing is left out of it but for a limit.
use ieum_agent.Base.{
  ℕ, ◌+◌, ◌≤◌, ◌<◌, ◌≡◌, ◌≢◌, refl, sym, ap, ◌∙◌, true, false, ◌&&◌, ◌||◌, List, [], ◌∷◌, Eq,
  contains, length, eqb, ltb, arith, In, contains-of-In, In-of-contains, Distinct, inl, inr, ◌⊎◌,
  Bool-cases,
}
use ieum_agent.Validator.Collect.{is_cons, collect_from}

abbrev pub total : {A : Type 0} → (A → ℕ) → List A → ℕ
total size_of [] = 0
total size_of (x ∷ xs) = size_of x + total size_of xs

module _ {A : Type 0} ⦃e : Eq A⦄ where
  In-head :
      (x : A) (rest : List A) (a : A) (xs : List A)
      → contains (x ∷ rest) a ≡ true
      → (In a rest → In a xs)
      → In a (x ∷ xs)
  In-head x rest a xs h later = elim (In-of-contains a (x ∷ rest) h) [
    | inl same ↦ inl same
    | inr m ↦ inr (later m)
  ]

module _ {A : Type 0} ⦃e : Eq A⦄ (size_of : A → ℕ) (limit bytes : ℕ) where
  abbrev kept : List A → ℕ → List A → List A
  kept unique size xs = collect_from size_of limit bytes unique size xs

  -- The four ways of one round.
  pub data Round (unique : List A) (size : ℕ) (x : A) (xs : List A) : Type 0 where
    again :
        contains unique x ≡ true
        → kept unique size (x ∷ xs) ≡ kept unique size xs
        → Round unique size x xs
    too_big :
        contains unique x ≡ false
        → is_cons unique ≡ true
        → bytes < size + size_of x
        → kept unique size (x ∷ xs) ≡ []
        → Round unique size x xs
    last :
        contains unique x ≡ false
        → ((is_cons unique ≡ false) ⊎ (size + size_of x ≤ bytes))
        → length (x ∷ unique) ≡ limit
        → kept unique size (x ∷ xs) ≡ x ∷ []
        → Round unique size x xs
    taken :
        contains unique x ≡ false
        → ((is_cons unique ≡ false) ⊎ (size + size_of x ≤ bytes))
        → length (x ∷ unique) ≢ limit
        → kept unique size (x ∷ xs) ≡ x ∷ kept (x ∷ unique) (size + size_of x) xs
        → Round unique size x xs

  pub round : (unique : List A) (size : ℕ) (x : A) (xs : List A) → Round unique size x xs
  unfolding collect_from
  round unique size x xs = elim (Bool-cases (contains unique x)) [
    | inl old ↦ again old (rw old)
    | inr new ↦ elim (Bool-cases (is_cons unique && ltb bytes (size + size_of x))) [
      | inl big ↦ too_big new (ground arith) (ground arith) (rw (new, big))
      | inr fits ↦ elim (Bool-cases (eqb (length (x ∷ unique)) limit)) [
        | inl full ↦ last new (ground arith) (ground arith) (rw (new, fits, full))
        | inr room ↦ taken new (ground arith) (ground arith) (rw (new, fits, room))
      ]
    ]
  ]

  pub kept-length :
      (unique : List A) (size : ℕ) (xs : List A)
      → length unique < limit
      → length unique + length (kept unique size xs) ≤ limit
  kept-length unique size [] h = unfold collect_from in omega arith
  kept-length unique size (x ∷ xs) h = elim (round unique size x xs) [
    | again old e ↦ rw e (kept-length unique size xs h)
    | too_big new some_kept big e ↦ rw e (omega arith)
    | last new fits full e ↦ rw e (omega arith)
    | taken new fits room e ↦
        let later = kept-length (x ∷ unique) (size + size_of x) xs (omega arith) in
        rw e (omega (arith, later))
  ]

  pub kept-total :
      (unique : List A) (size : ℕ) (xs : List A)
      → is_cons unique ≡ true
      → (kept unique size xs ≡ []) ⊎ (size + total size_of (kept unique size xs) ≤ bytes)
  kept-total unique size [] h = inl (unfold collect_from in refl)
  kept-total unique size (x ∷ xs) h = elim (round unique size x xs) [
    | again old e ↦ rw e (kept-total unique size xs h)
    | too_big new some_kept big e ↦ inl e
    | last new (inl none_kept) full e ↦ cc
    | last new (inr fits) full e ↦ inr (rw e (omega (arith, fits)))
    | taken new (inl none_kept) room e ↦ cc
    | taken new (inr fits) room e ↦ elim (kept-total (x ∷ unique) (size + size_of x) xs refl) [
      | inl nothing ↦ inr (rw (e, nothing) (omega (arith, fits)))
      | inr within ↦ inr (rw e (omega (arith, within)))
    ]
  ]

  -- What is kept already is not kept again.
  kept_fresh :
      (unique : List A) (size : ℕ) (xs : List A) (a : A)
      → contains unique a ≡ true
      → contains (kept unique size xs) a ≡ false
  kept_fresh unique size [] a h = unfold collect_from in refl
  kept_fresh unique size (x ∷ xs) a h = elim (round unique size x xs) [
    | again old e ↦ rw e (kept_fresh unique size xs a h)
    | too_big new some_kept big e ↦ rw e refl
    | last new fits full e ↦ rw e (ground arith)
    | taken new fits room e ↦
        let later = kept_fresh (x ∷ unique) (size + size_of x) xs a (ground arith) in
        rw e (ground (arith, later))
  ]

  pub kept-Distinct : (unique : List A) (size : ℕ) (xs : List A) → Distinct (kept unique size xs)
  kept-Distinct unique size [] = unfold collect_from in tt
  kept-Distinct unique size (x ∷ xs) = elim (round unique size x xs) [
    | again old e ↦ rw e (kept-Distinct unique size xs)
    | too_big new some_kept big e ↦ rw e tt
    | last new fits full e ↦ rw e (refl, tt)
    | taken new fits room e ↦ rw e (
      kept_fresh (x ∷ unique) (size + size_of x) xs x (contains-of-In x (x ∷ unique) (inl refl)),
      kept-Distinct (x ∷ unique) (size + size_of x) xs,
    )
  ]

  -- Why an error that was found may be missing: the number is reached, or one more did not fit.
  pub data Full (unique : List A) (size : ℕ) (found result : List A) : Type 0 where
    count_reached : length unique + length result ≡ limit → Full unique size found result
    size_reached :
        (x : A)
        → In x found
        → bytes < size + total size_of result + size_of x
        → Full unique size found result

  Full-later :
      (unique : List A) (size : ℕ) (x : A) (xs result : List A)
      → Full unique size xs result
      → Full unique size (x ∷ xs) result
  Full-later unique size x xs result (count_reached h) = count_reached h
  Full-later unique size x xs result (size_reached y m h) = size_reached y (inr m) h

  Full-taken :
      (unique : List A) (size : ℕ) (x : A) (xs result : List A)
      → Full (x ∷ unique) (size + size_of x) xs result
      → Full unique size (x ∷ xs) (x ∷ result)
  Full-taken unique size x xs result (count_reached h) = count_reached (omega arith)
  Full-taken unique size x xs result (size_reached y m h) = size_reached y (inr m) (omega arith)

  abbrev Accounted : List A → ℕ → List A → A → Type 0
  Accounted unique size xs a =
      ((contains unique a || contains (kept unique size xs) a) ≡ true)
      ⊎ Full unique size xs (kept unique size xs)

  kept_again :
      (unique : List A) (size : ℕ) (x : A) (xs : List A) (a : A)
      → contains unique x ≡ true
      → In a (x ∷ xs)
      → (In a xs → Accounted unique size xs a)
      → ((contains unique a || contains (kept unique size xs) a) ≡ true)
        ⊎ Full unique size (x ∷ xs) (kept unique size xs)
  kept_again unique size x xs a old (inl same) later = inl (rw same (ground arith))
  kept_again unique size x xs a old (inr m) later = elim (later m) [
    | inl there ↦ inl there
    | inr full ↦ inr (Full-later unique size x xs (kept unique size xs) full)
  ]

  kept_taken :
      (unique : List A) (size : ℕ) (x : A) (xs : List A) (a : A)
      → In a (x ∷ xs)
      → (In a xs → Accounted (x ∷ unique) (size + size_of x) xs a)
      → ((contains unique a || contains (x ∷ kept (x ∷ unique) (size + size_of x) xs) a) ≡ true)
        ⊎ Full unique size (x ∷ xs) (x ∷ kept (x ∷ unique) (size + size_of x) xs)
  kept_taken unique size x xs a (inl same) later = inl (ground arith)
  kept_taken unique size x xs a (inr m) later = elim (later m) [
    | inl there ↦ inl (ground arith)
    | inr full ↦ inr (Full-taken unique size x xs (kept (x ∷ unique) (size + size_of x) xs) full)
  ]

  pub kept-In :
      (unique : List A) (size : ℕ) (xs : List A) (a : A) → In a xs → Accounted unique size xs a
  kept-In unique size [] a m = elim m [ ]
  kept-In unique size (x ∷ xs) a m = elim (round unique size x xs) [
    | again old e ↦ rw e (kept_again unique size x xs a old m (kept-In unique size xs a))
    | too_big new some_kept big e ↦ rw e (inr (size_reached x (inl refl) (omega arith)))
    | last new fits full e ↦ rw e (inr (count_reached (omega (arith, full))))
    | taken new fits room e ↦
        rw e (kept_taken unique size x xs a m (kept-In (x ∷ unique) (size + size_of x) xs a))
  ]

  pub kept-Found :
      (unique : List A) (size : ℕ) (xs : List A) (a : A)
      → contains (kept unique size xs) a ≡ true
      → In a xs
  kept-Found unique size [] a h = unfold collect_from in cc
  kept-Found unique size (x ∷ xs) a h = elim (round unique size x xs) [
    | again old e ↦ inr (kept-Found unique size xs a (sym (ap (λ l. contains l a) e) ∙ h))
    | too_big new some_kept big e ↦ cc
    | last new fits full e ↦
        In-head x [] a xs (sym (ap (λ l. contains l a) e) ∙ h) (λ m. elim m [ ])
    | taken new fits room e ↦
        let rest = kept (x ∷ unique) (size + size_of x) xs in
        In-head x rest a xs (sym (ap (λ l. contains l a) e) ∙ h)
          (λ m. kept-Found (x ∷ unique) (size + size_of x) xs a (contains-of-In a rest m))
  ]
