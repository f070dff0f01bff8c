-- ===== src/Value/Equal.antt =====
-- Python's `==` on the values. Numbers of different types compare by value, True is 1 and False is
-- 0, and dicts compare without order. A list that holds nan differs from itself here.
use ieum_agent.Base.{
  suc, ◌*◌, ◌^◌, Bool, true, false, ◌&&◌, ◌||◌, Option, none, some, ◌==◌, string_eq, eqb, length,
}
use ieum_agent.Base.Dict.{lookup}
use ieum_agent.Base.Int.{pos, negsuc}
use ieum_agent.Value.{
  Value, Values, Entries, Float, infinite, dyadic, null, bool, int, float, text, list, dict, nil,
  cons, end, entry, entries,
}

-- A number as a float without bounds.
abbrev number_of : Value → Option Float
number_of (bool true) = some (dyadic false 1 0 0)
number_of (bool false) = some (dyadic false 0 0 0)
number_of (int (pos n)) = some (dyadic false n 0 0)
number_of (int (negsuc n)) = some (dyadic true (suc n) 0 0)
number_of (float x) = some x
number_of _ = none

abbrev same_bool : Bool → Bool → Bool
same_bool true b = b
same_bool false true = false
same_bool false false = true

abbrev same_number : Option Float → Option Float → Bool
same_number (some (infinite s)) (some (infinite t)) = same_bool s t
same_number (some (dyadic s m a b)) (some (dyadic t n c d)) =
    eqb (m * 2 ^ a * 2 ^ d) (n * 2 ^ c * 2 ^ b) && (eqb m 0 || same_bool s t)
same_number _ _ = false

unfoldable mutual
  pub equal : Value → Value → Bool
  equal null null = true
  equal (text s) (text t) = s == t
  equal (list vs) (list ws) = equal_values vs ws
  equal (dict es) (dict fs) = eqb (length (entries es)) (length (entries fs)) && equal_entries es fs
  equal v w = same_number (number_of v) (number_of w)

  pub equal_values : Values → Values → Bool
  equal_values nil nil = true
  equal_values (cons v vs) (cons w ws) = equal v w && equal_values vs ws
  equal_values _ _ = false

  -- each key of the first with the value it has in the second
  pub equal_entries : Entries → Entries → Bool
  equal_entries end fs = true
  equal_entries (entry k v es) fs =
      elim (lookup k (entries fs)) [ none ↦ false | some w ↦ equal v w ] && equal_entries es fs
