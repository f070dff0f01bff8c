-- ===== src/Value.antt =====
-- The values that the Python code handles: what JSON can hold. A dict keeps its keys in order.
pub mod Text
pub mod Equal
use ieum_agent.Base.{
  ℕ, zero, ◌*◌, ◌+◌, ◌^◌, ◌/◌, ◌%◌, String, Bool, true, false, not, ◌&&◌, ◌||◌, Option, none, some,
  List, [], ◌∷◌, ◌==◌, string_eq, if◌then◌else◌, eqb,
}
use ieum_agent.Base.Dict.{Dict}
use ieum_agent.Base.Int.{ℤ, pos, negsuc, negate, pos_part, neg_part}

-- A float is exact: `dyadic s m a b` is ± m * 2^a / 2^b, negative if `s`.
pub data Float : Type 0 where
  nan : Float
  infinite : Bool → Float
  dyadic : Bool → (m a b : ℕ) → Float

mutual
  pub data Value : Type 0 where
    null : Value
    bool : Bool → Value
    int : ℤ → Value
    float : Float → Value
    text : String → Value
    list : Values → Value
    dict : Entries → Value

  pub data Values : Type 0 where
    nil : Values
    cons : Value → Values → Values

  pub data Entries : Type 0 where
    end : Entries
    entry : String → Value → Entries → Entries

abbrev pub values : Values → List Value
values nil = []
values (cons v vs) = v ∷ values vs

abbrev pub of_values : List Value → Values
of_values [] = nil
of_values (v ∷ vs) = cons v (of_values vs)

abbrev pub entries : Entries → Dict Value
entries end = []
entries (entry k v es) = (k, v) ∷ entries es

abbrev pub of_entries : Dict Value → Entries
of_entries [] = end
of_entries ((k, v) ∷ es) = entry k v (of_entries es)

-- `d.get(k)`: None for a missing key
unfoldable pub get : String → Entries → Value
get k end = null
get k (entry j v es) = if k == j then v else get k es

-- `isinstance(v, dict)` and then `v`
abbrev pub as_dict : Value → Option Entries
as_dict (dict es) = some es
as_dict _ = none

abbrev pub as_list : Value → Option (List Value)
as_list (list vs) = some (values vs)
as_list _ = none

abbrev pub as_text : Value → Option String
as_text (text s) = some s
as_text _ = none

-- `v in (None, "", [])`
unfoldable pub is_empty : Value → Bool
is_empty null = true
is_empty (text s) = s == ""
is_empty (list nil) = true
is_empty _ = false

-- `f.is_integer()` and `int(f)`
abbrev pub float_to_int : Float → Option ℤ
float_to_int (dyadic s m a b) =
    let n = m * 2 ^ a / 2 ^ b in
    if eqb (m * 2 ^ a % 2 ^ b) 0 then some (if s then negate n else pos n) else none
float_to_int _ = none

-- `bool(v)`
abbrev pub is_true : Value → Bool
is_true null = false
is_true (bool b) = b
is_true (int (pos zero)) = false
is_true (float (dyadic s zero a b)) = false
is_true (text s) = not (s == "")
is_true (list nil) = false
is_true (dict end) = false
is_true _ = true
