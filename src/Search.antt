-- ===== src/Search.antt =====
-- The worklist search that core/validators/static_validator.py writes out for the nodes reached from
-- the trigger and for the ancestors of a node: a stack, and a set of the nodes seen.
pub mod Reaches
pub mod Complete
pub mod Sound
mod Tests
use ieum_agent.Base.{
  ℕ, zero, suc, ◌+◌, String, Bool, true, false, List, [], ◌∷◌, ◌==◌, string_eq, contains,
  if◌then◌else◌,
}

-- From source to target.
abbrev pub Edge : Type 0
Edge = String × String

-- `adj.get(cur, [])`
unfoldable pub targets : List Edge → String → List String
targets [] cur = []
targets ((source, target) ∷ edges) cur =
    if source == cur then target ∷ targets edges cur else targets edges cur

-- `stack.extend(xs)`; the top of the stack is the head of the list
unfoldable pub extend : List String → List String → List String
extend [] stack = stack
extend (x ∷ xs) stack = extend xs (x ∷ stack)

-- `while stack`: the rounds are at most one for each place on the stack and each edge.
unfoldable pub search_from : ℕ → List Edge → List String → List String → List String
search_from zero edges stack seen = seen
search_from (suc fuel) edges [] seen = seen
search_from (suc fuel) edges (cur ∷ stack) seen =
    let skipped = search_from fuel edges stack seen in
    let visited = search_from fuel edges (extend (targets edges cur) stack) (cur ∷ seen) in
    if contains seen cur then skipped else visited

-- The edges whose source has not been seen.
unfoldable pub unseen : List Edge → List String → ℕ
unseen [] seen = 0
unseen ((source, target) ∷ edges) seen =
    if contains seen source then unseen edges seen else suc (unseen edges seen)

abbrev pub length_of : List String → ℕ
length_of [] = 0
length_of (x ∷ xs) = suc (length_of xs)

unfoldable pub reached : List Edge → List String → List String
unfolding search_from unseen
reached edges stack = search_from (length_of stack + unseen edges []) edges stack []
