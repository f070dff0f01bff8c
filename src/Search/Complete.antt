-- ===== src/Search/Complete.antt =====
-- With the fuel that `reached` gives it the search ends with an empty stack, and what it has seen
-- holds the stack it began with and every target of what it holds.
use ieum_agent.Base.{
  ℕ, zero, suc, ◌+◌, ◌≤◌, String, ◌≡◌, true, false, ◌||◌, List, [], ◌∷◌, string_eq, contains, In,
  inl, inr, arith, Bool-cases,
}
use ieum_agent.Search.{Edge, targets, extend, search_from, unseen, length_of, reached}
use ieum_agent.Search.Reaches.{Reaches, start, step}

extend-contains :
    (v : String) (xs stack : List String)
    → contains (extend xs stack) v ≡ (contains stack v || contains xs v)
unfolding extend
extend-contains v [] stack = ground arith
extend-contains v (x ∷ xs) stack = ground (arith, extend-contains v xs (x ∷ stack))

extend-length :
    (xs stack : List String) → length_of (extend xs stack) ≡ length_of xs + length_of stack
unfolding extend
extend-length [] stack = omega arith
extend-length (x ∷ xs) stack = omega (arith, extend-length xs (x ∷ stack))

-- To see a new node uses up its edges.
unseen-cons :
    (edges : List Edge) (cur : String) (seen : List String)
    → contains seen cur ≡ false
    → unseen edges (cur ∷ seen) + length_of (targets edges cur) ≡ unseen edges seen
unfolding unseen targets
unseen-cons [] cur seen fresh = omega arith
unseen-cons ((source, target) ∷ edges) cur seen fresh =
    ground (arith, unseen-cons edges cur seen fresh)

contains-targets :
    (edges : List Edge) (a b : String) → In (a, b) edges → contains (targets edges a) b ≡ true
unfolding targets
contains-targets [] a b m = elim m [ ]
contains-targets ((source, target) ∷ edges) a b (inl e) = ground arith
contains-targets ((source, target) ∷ edges) a b (inr m) =
    ground (arith, contains-targets edges a b m)

module _ (edges : List Edge) where
  -- Each target of what is seen is seen, or waits on the stack.
  abbrev Frontier : List String → List String → Type 0
  Frontier stack seen =
      (a b : String)
      → In (a, b) edges
      → contains seen a ≡ true
      → (contains seen b || contains stack b) ≡ true

  record IsComplete (found stack seen : List String) : Type 0 where
    holds : (v : String) → (contains seen v || contains stack v) ≡ true → contains found v ≡ true
    closed : (a b : String) → In (a, b) edges → contains found a ≡ true → contains found b ≡ true

  skip_lem :
      (found stack seen : List String) (cur : String)
      → contains seen cur ≡ true
      → IsComplete found stack seen
      → IsComplete found (cur ∷ stack) seen
  skip_lem found stack seen cur old h = record {
    holds = λ v k. ground (arith, h.holds v);
    closed = h.closed;
  }

  visit_lem :
      (found stack seen : List String) (cur : String)
      → IsComplete found (extend (targets edges cur) stack) (cur ∷ seen)
      → IsComplete found (cur ∷ stack) seen
  visit_lem found stack seen cur h = record {
    holds = λ v k. ground (arith, h.holds v, extend-contains v (targets edges cur) stack);
    closed = h.closed;
  }

  skip-Frontier :
      (stack seen : List String) (cur : String)
      → contains seen cur ≡ true
      → Frontier (cur ∷ stack) seen
      → Frontier stack seen
  skip-Frontier stack seen cur old front a b m h = ground (arith, front a b m h)

  visit-Frontier :
      (stack seen : List String) (cur : String)
      → Frontier (cur ∷ stack) seen
      → Frontier (extend (targets edges cur) stack) (cur ∷ seen)
  visit-Frontier stack seen cur front a b m h = elim (string_eq.dec a cur) [
    | yes same ↦
        let there = contains-targets edges cur b (rw (← same) m) in
        ground (arith, extend-contains b (targets edges cur) stack)
    | no other ↦ ground (arith, front a b m, extend-contains b (targets edges cur) stack)
  ]

  search_from-IsComplete :
      (fuel : ℕ) (stack seen : List String)
      → length_of stack + unseen edges seen ≤ fuel
      → Frontier stack seen
      → IsComplete (search_from fuel edges stack seen) stack seen
  unfolding search_from
  search_from-IsComplete zero [] seen enough front = record {
    holds = λ v h. ground arith;
    closed = λ a b m h. ground (arith, front a b m h);
  }
  search_from-IsComplete zero (x ∷ stack) seen enough front = absurd (omega arith)
  search_from-IsComplete (suc fuel) [] seen enough front = record {
    holds = λ v h. ground arith;
    closed = λ a b m h. ground (arith, front a b m h);
  }
  search_from-IsComplete (suc fuel) (cur ∷ stack) seen enough front =
      elim (Bool-cases (contains seen cur)) [
        | inl old ↦ rw old (
            skip_lem _ stack seen cur old (
              search_from-IsComplete fuel stack seen (omega arith)
                (skip-Frontier stack seen cur old front)))
        | inr new ↦ rw new (
            visit_lem _ stack seen cur (
              search_from-IsComplete fuel (extend (targets edges cur) stack) (cur ∷ seen)
                (omega
                  (arith, unseen-cons edges cur seen new, extend-length (targets edges cur) stack))
                (visit-Frontier stack seen cur front)))
      ]

  reached-IsComplete : (stack : List String) → IsComplete (reached edges stack) stack []
  unfolding reached
  reached-IsComplete stack =
      search_from-IsComplete (length_of stack + unseen edges []) stack [] (omega arith)
        (λ a b m h. cc)

  -- Every node that a path from the stack leads to is found.
  pub reached_complete :
      (stack : List String) (a b : String)
      → contains stack a ≡ true
      → Reaches edges a b
      → contains (reached edges stack) b ≡ true
  reached_complete stack a b h start = (reached-IsComplete stack).holds a h
  reached_complete stack a b h (step {b = mid} r m) =
      (reached-IsComplete stack).closed mid b m (reached_complete stack a mid h r)
