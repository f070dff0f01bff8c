-- ===== src/Paths.antt =====
-- core/template_registry.py: reading and writing a value at a dotted path.
pub mod ReadWrite
pub mod Frame
mod Tests
use ieum_agent.Base.{
  ℕ, zero, suc, String, Bool, true, false, Option, none, some, List, [], ◌∷◌, ◌==◌, string_eq,
  if◌then◌else◌, map, get_elem?, length, ltb,
}
use ieum_agent.Base.Dict.{lookup, insert}
use ieum_agent.Value.{
  Value, null, bool, int, float, text, list, dict, Values, nil, cons, Entries, end, entry, values,
  entries, of_values, of_entries,
}
use ieum_agent.Value.Text.{split, is_digits, number}

-- A segment of digits is an index into a list, any other a key of a dict.
pub data Segment : Type 0 where
  key : String → Segment
  index : ℕ → Segment

unfoldable pub segment : String → Segment
segment raw = if is_digits raw then index (number raw) else key raw

unfoldable pub parse : String → List Segment
unfolding segment
parse path = map segment (split b'.' path)

-- One round of `_get_by_path`; `none` is its `return None`.
unfoldable pub child : Value → Segment → Option Value
child (dict es) (key k) = lookup k (entries es)
child (list vs) (index i) = get_elem? (values vs) i
child _ _ = none

unfoldable pub get_segments : Value → List Segment → Value
get_segments cur [] = cur
get_segments cur (s ∷ rest) = elim (child cur s) [ none ↦ null | some v ↦ get_segments v rest ]

unfoldable pub get_by_path : Value → String → Value
unfolding get_segments child parse
get_by_path obj path = get_segments obj (parse path)

-- The container made for the segment that comes next.
abbrev pub fresh : Segment → Value
fresh (index i) = list nil
fresh (key k) = dict end

-- The container under a segment, before the segment that comes next: one that is there is kept; a list
-- that is too short is filled with dicts first.
abbrev pub container : Segment → Segment → Option Value → Value
container s next (some (dict es)) = dict es
container s next (some (list vs)) = list vs
container (index i) next none = dict end
container s next _ = fresh next

-- `while len(cur) <= idx: cur.append(pad)`, then `cur[idx] = v`
unfoldable pub put_index : Value → ℕ → Value → List Value → List Value
put_index pad zero v [] = v ∷ []
put_index pad zero v (x ∷ xs) = v ∷ xs
put_index pad (suc i) v [] = pad ∷ put_index pad i v []
put_index pad (suc i) v (x ∷ xs) = x ∷ put_index pad i v xs

-- A step on the way; `none` is an exception: a key into a list, or an index into a dict.
unfoldable pub put : Value → Segment → Value → Value → Option Value
unfolding put_index
put pad (key k) v (dict es) = some (dict (of_entries (insert k v (entries es))))
put pad (index i) v (list vs) = some (list (of_values (put_index pad i v (values vs))))
put pad _ v _ = none

-- How a write ends. `int_key` stands for a write of an index into a dict that is long enough: Python
-- puts an int key into the dict. A value here has no int keys: it is the object without that key, which
-- no path reads.
pub data Stored : Type 0 where
  failed : Stored
  stored int_key : Value → Stored

abbrev pub of_put : Option Value → Stored
of_put none = failed
of_put (some v) = stored v

abbrev pub of_int_put : Option Value → Stored
of_int_put none = failed
of_int_put (some v) = int_key v

-- the last step
unfoldable pub put_last : Segment → Value → Value → Stored
unfolding put
put_last (index i) v (dict es) = if ltb i (length (entries es)) then int_key (dict es) else failed
put_last s v cur = of_put (put null s v cur)

abbrev pub put_in : Segment → Value → Stored → Stored
put_in s cur failed = failed
put_in s cur (stored v) = of_put (put (dict end) s v cur)
put_in s cur (int_key v) = of_int_put (put (dict end) s v cur)

unfoldable pub set_segments : List Segment → Value → Value → Stored
unfolding put put_last child
set_segments [] value cur = stored value
set_segments (s ∷ []) value cur = put_last s value cur
set_segments (s ∷ next ∷ rest) value cur =
    put_in s cur (set_segments (next ∷ rest) value (container s next (child cur s)))

unfoldable pub set_by_path : Value → String → Value → Stored
unfolding set_segments parse
set_by_path obj path value = set_segments (parse path) value obj
