-- ===== src/Builder/Write/Said.antt =====
-- `said_literally` of core/builder/state.py: whether a text stands in what the user said, and not
-- within a longer word or address.
pub mod Standing
use ieum_agent.Base.{
  ℕ, String, Bool, true, false, not, ◌&&◌, ◌||◌, Option, none, some, List, [], ◌∷◌, ◌==◌, string_eq,
  if◌then◌else◌, eqb, leb,
}
use ieum_agent.Value.Text.{codes}

-- `[A-Za-z0-9_\-./]`
unfoldable pub is_address : ℕ → Bool
is_address c =
    leb b'0' c && leb c b'9'
    || leb b'A' c && leb c b'Z'
    || leb b'a' c && leb c b'z'
    || eqb c b'_'
    || eqb c b'-'
    || eqb c b'.'
    || eqb c b'/'

abbrev pub starts_address : List ℕ → Bool
starts_address [] = false
starts_address (c ∷ cs) = is_address c

-- what is left after `v` at the start of `s`
unfoldable pub after : List ℕ → List ℕ → Option (List ℕ)
after [] s = some s
after (c ∷ v) [] = none
after (c ∷ v) (d ∷ s) = if eqb c d then after v s else none

abbrev pub ends_here : Option (List ℕ) → Bool
ends_here none = false
ends_here (some rest) = not (starts_address rest)

-- the first argument is whether the character before is one of an address
unfoldable pub stands_in : Bool → List ℕ → List ℕ → Bool
unfolding after is_address
stands_in before v [] = false
stands_in before v (c ∷ s) =
    not before && ends_here (after v (c ∷ s)) || stands_in (is_address c) v s

unfoldable pub said_literally : String → String → Bool
unfolding stands_in codes
said_literally value user_text =
    if value == "" then false else stands_in false (codes value) (codes user_text)
