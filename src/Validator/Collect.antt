-- ===== src/Validator/Collect.antt =====
-- The loop of `validate_workflow` that gathers the errors: each once, up to a number of errors and a
-- size of the answer. `size_of e` is `len(json.dumps(e))`; the key of an error is all its parts, so
-- that two errors with one key are equal.
pub mod Limits
pub mod Answer
use ieum_agent.Base.{
  ℕ, ◌+◌, Bool, true, false, ◌&&◌, List, [], ◌∷◌, Eq, contains, if◌then◌else◌, length, eqb, ltb,
}

abbrev pub max_errors : ℕ
max_errors = 200

abbrev pub max_error_bytes : ℕ
max_error_bytes = 200_000

abbrev pub is_cons : {A : Type 0} → List A → Bool
is_cons [] = false
is_cons (x ∷ xs) = true

module _ {A : Type 0} ⦃e : Eq A⦄ (size_of : A → ℕ) (limit bytes : ℕ) where
  -- `unique` holds the errors kept so far, the last one first, and `size` their size; the result is
  -- what is kept of the rest.
  unfoldable pub collect_from : List A → ℕ → List A → List A
  collect_from unique size [] = []
  collect_from unique size (x ∷ xs) =
      let again = collect_from unique size xs in
      let more = collect_from (x ∷ unique) (size + size_of x) xs in
      if contains unique x
      then again
      else if is_cons unique && ltb bytes (size + size_of x)
      then []
      else if eqb (length (x ∷ unique)) limit
      then x ∷ []
      else x ∷ more

-- `list(unique.values())` after the loop
unfoldable pub collect : {A : Type 0} ⦃e : Eq A⦄ → (A → ℕ) → List A → List A
collect size_of found = collect_from size_of max_errors max_error_bytes [] 0 found
