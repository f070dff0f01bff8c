-- ===== src/Search/Sound.antt =====
-- What the search has seen is reached from its stack, whatever the fuel.
use ieum_agent.Base.{
  ℕ, zero, suc, ◌+◌, String, ◌≡◌, true, List, [], ◌∷◌, ◌==◌, string_eq, contains, In, inl, inr,
  arith, Bool-cases, All, All-if, All-In, In-of-contains, eq_of_test, test_self, ◌↔◌,
}
use ieum_agent.Search.{Edge, targets, extend, search_from, unseen, reached}
use ieum_agent.Search.Complete.{reached_complete}
use ieum_agent.Search.Reaches.{Reaches, start, step}

module _ (P : String → Type 0) where
  pub extend-All : (xs stack : List String) → All P xs → All P stack → All P (extend xs stack)
  unfolding extend
  extend-All [] stack h k = k
  extend-All (x ∷ xs) stack (p, h) k = extend-All xs (x ∷ stack) h (p, k)

  module _ (edges : List Edge) (follow : (a b : String) → In (a, b) edges → P a → P b) where
    pub targets-All :
        (rest : List Edge) (a : String)
        → ((b : String) → In (a, b) rest → P b)
        → All P (targets rest a)
    unfolding targets
    targets-All [] a h = tt
    targets-All ((source, target) ∷ rest) a h =
        let later = targets-All rest a (λ b m. h b (inr m)) in
        All-if P (source == a) (target ∷ targets rest a) (targets rest a)
          (λ e. (h target (inl (rw (eq_of_test source a e))), later)) (λ e. later)

    pub search_from-All :
        (fuel : ℕ) (stack seen : List String)
        → All P stack
        → All P seen
        → All P (search_from fuel edges stack seen)
    unfolding search_from
    search_from-All zero stack seen h k = k
    search_from-All (suc fuel) [] seen h k = k
    search_from-All (suc fuel) (cur ∷ stack) seen (p, h) k = elim (Bool-cases (contains seen cur)) [
      | inl old ↦ rw old (search_from-All fuel stack seen h k)
      | inr new ↦ rw new (
          search_from-All fuel (extend (targets edges cur) stack) (cur ∷ seen)
            (extend-All (targets edges cur) stack (targets-All edges cur (λ b m. follow cur b m p))
              h)
            (p, k))
    ]

-- Everything that is found is reached from a node of the stack.
pub reached_sound :
    (edges : List Edge) (a b : String)
    → contains (reached edges (a ∷ [])) b ≡ true
    → Reaches edges a b
unfolding reached
reached_sound edges a b h =
    All-In (Reaches edges a) b (reached edges (a ∷ []))
      (search_from-All (Reaches edges a) edges (λ x y m r. step r m) (1 + unseen edges []) (a ∷ [])
        [] (start, tt) tt)
      (In-of-contains b (reached edges (a ∷ [])) h)

-- The search from one node finds exactly the nodes that a path from it leads to.
pub reached_iff :
    (edges : List Edge) (a b : String)
    → (contains (reached edges (a ∷ [])) b ≡ true) ↔ Reaches edges a b
reached_iff edges a b =
    (reached_sound edges a b, reached_complete edges (a ∷ []) a b (ground (arith, test_self a)))
