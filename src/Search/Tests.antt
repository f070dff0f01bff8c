-- ===== src/Search/Tests.antt =====
-- The search at a small graph with a cycle and a node apart.
use ieum_agent.Base.{◌≡◌, ◌↔◌, refl, true, List, [], ◌∷◌, contains, string_eq}
use ieum_agent.Search.{Edge, reached, targets, extend}
use ieum_agent.Search.Reaches.{Reaches}
use ieum_agent.Search.Sound.{reached_iff}

abbrev loop : List Edge
loop = ("a", "b") ∷ ("b", "c") ∷ ("c", "b") ∷ ("d", "a") ∷ []

reached-loop : reached loop ("a" ∷ []) ≡ "c" ∷ "b" ∷ "a" ∷ []
unfolding reached targets extend string_eq
reached-loop = refl

reached_iff_example : (contains (reached loop ("a" ∷ [])) "d" ≡ true) ↔ Reaches loop "a" "d"
reached_iff_example = reached_iff loop "a" "d"
