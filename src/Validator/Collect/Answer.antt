-- ===== src/Validator/Collect/Answer.antt =====
-- What `collect` returns: bounded, each error once, and nothing left out but for a limit.
use ieum_agent.Base.{
  ℕ, ◌+◌, ◌≤◌, ◌<◌, ◌≡◌, refl, true, List, [], ◌∷◌, Eq, contains, length, arith, In, Distinct, inl,
  inr, ◌⊎◌,
}
use ieum_agent.Validator.Collect.{max_errors, max_error_bytes, collect_from, collect}
use ieum_agent.Validator.Collect.Limits.{
  total, count_reached, size_reached, again, too_big, last, taken, round, kept-length, kept-total,
  kept-Distinct, kept-In, kept-Found,
}

module _ {A : Type 0} ⦃e : Eq A⦄ (size_of : A → ℕ) where
  collect-total :
      (found : List A)
      → (total size_of (collect size_of found) ≤ max_error_bytes)
        ⊎ (length (collect size_of found) ≡ 1)
  unfolding collect
  collect-total [] = inl (unfold collect_from in omega arith)
  collect-total (x ∷ xs) = elim (round size_of max_errors max_error_bytes [] 0 x xs) [
    | again old e ↦ cc
    | too_big new some_kept big e ↦ cc
    | last new fits full e ↦ inr (rw e refl)
    | taken new fits room e ↦
        rw e
          (elim (kept-total size_of max_errors max_error_bytes (x ∷ []) (0 + size_of x) xs refl) [
            | inl nothing ↦ inr (rw nothing refl)
            | inr within ↦ inl (omega (arith, within))
          ])
  ]

  -- The answer has at most `max_errors` errors, each once, and its size is at most
  -- `max_error_bytes` unless it is a single error.
  pub collect_bounded :
      (found : List A)
      → (length (collect size_of found) ≤ max_errors)
        × Distinct (collect size_of found)
        × ((total size_of (collect size_of found) ≤ max_error_bytes)
            ⊎ (length (collect size_of found) ≡ 1))
  unfolding collect
  collect_bounded found = (
    (let h = kept-length size_of max_errors max_error_bytes [] 0 found (omega arith) in
        omega (arith, h)),
    kept-Distinct size_of max_errors max_error_bytes [] 0 found,
    collect-total found,
  )

  collect-empty : (found : List A) → collect size_of found ≡ [] → found ≡ []
  unfolding collect
  collect-empty [] h = refl
  collect-empty (x ∷ xs) h = elim (round size_of max_errors max_error_bytes [] 0 x xs) [
    | again old e ↦ cc
    | too_big new some_kept big e ↦ cc
    | last new fits full e ↦ cc
    | taken new fits room e ↦ cc
  ]

  -- An error of the answer was found. An error that was found is in the answer, unless the answer
  -- has `max_errors` errors or some error that was found does not fit into `max_error_bytes` any
  -- more. The answer is empty only if nothing was found.
  pub collect_faithful :
      (found : List A) (a : A)
      → (contains (collect size_of found) a ≡ true → In a found)
        × (In a found
            → (contains (collect size_of found) a ≡ true)
              ⊎ ((length (collect size_of found) ≡ max_errors)
                  ⊎ ((x : A) × In x found
                      × (max_error_bytes < total size_of (collect size_of found) + size_of x))))
        × (collect size_of found ≡ [] → found ≡ [])
  unfolding collect
  collect_faithful found a = (
    kept-Found size_of max_errors max_error_bytes [] 0 found a,
    λ m. elim (kept-In size_of max_errors max_error_bytes [] 0 found a m) [
      | inl there ↦ inl there
      | inr (count_reached h) ↦ inr (inl (omega (arith, h)))
      | inr (size_reached x m h) ↦ inr (inr (x, m, omega (arith, h)))
    ],
    collect-empty found,
  )
