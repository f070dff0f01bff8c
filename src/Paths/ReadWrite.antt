-- ===== src/Paths/ReadWrite.antt =====
-- What is written at a path is what is read there afterwards.
use mathlib.Core.Option.{some-injective}
use ieum_agent.Base.{
  ℕ, zero, suc, String, ◌≡◌, ◌⊎◌, inl, inr, refl, sym, ◌∙◌, ap, Option, none, some, List, [], ◌∷◌,
  arith, get_elem?, length, ltb, Bool-cases,
}
use ieum_agent.Base.Dict.{lookup-insert_self}
use ieum_agent.Value.{Value, null, list, dict, end, entries, of_entries, values, of_values}
use ieum_agent.Paths.{
  Segment, key, index, parse, child, container, get_segments, get_by_path, put_index, put, Stored,
  failed, stored, int_key, of_put, of_int_put, put_last, set_segments, set_by_path, put_in,
}

pub values-of_values : (xs : List Value) → values (of_values xs) ≡ xs
values-of_values [] = refl
values-of_values (x ∷ xs) = ap (λ t. x ∷ t) (values-of_values xs)

pub entries-of_entries : (d : List (String × Value)) → entries (of_entries d) ≡ d
entries-of_entries [] = refl
entries-of_entries ((k, v) ∷ d) = ap (λ t. (k, v) ∷ t) (entries-of_entries d)

get_elem?-put_index :
    (pad : Value) (i : ℕ) (v : Value) (xs : List Value)
    → get_elem? (put_index pad i v xs) i ≡ some v
unfolding put_index
get_elem?-put_index pad zero v [] = refl
get_elem?-put_index pad zero v (x ∷ xs) = refl
get_elem?-put_index pad (suc i) v [] = get_elem?-put_index pad i v []
get_elem?-put_index pad (suc i) v (x ∷ xs) = get_elem?-put_index pad i v xs

pub child-put :
    (pad : Value) (s : Segment) (v cur cur' : Value)
    → put pad s v cur ≡ some cur'
    → child cur' s ≡ some v
unfolding put child
child-put pad (key k) v (dict es) cur' h =
    rw (← some-injective _ _ h, entries-of_entries) (lookup-insert_self k v (entries es))
child-put pad (index i) v (list vs) cur' h =
    rw (← some-injective _ _ h, values-of_values) (get_elem?-put_index pad i v (values vs))
child-put pad s v cur cur' h = ground arith

-- The object after a write.
abbrev pub object_of : Stored → Option Value
object_of failed = none
object_of (stored v) = some v
object_of (int_key v) = some v

-- what is read at the path of a write
abbrev pub read_back : Value → Stored → Value
read_back value (int_key v) = null
read_back value r = value

of_put-object : (o : Option Value) → object_of (of_put o) ≡ o
of_put-object none = refl
of_put-object (some v) = refl

of_int_put-object : (o : Option Value) → object_of (of_int_put o) ≡ o
of_int_put-object none = refl
of_int_put-object (some v) = refl

read_back-of_put : (value : Value) (o : Option Value) → read_back value (of_put o) ≡ value
read_back-of_put value none = refl
read_back-of_put value (some v) = refl

-- A write that ends has ended under its first segment, with the same read.
pub put_in-object :
    (s : Segment) (value cur cur' : Value) (inner : Stored)
    → object_of (put_in s cur inner) ≡ some cur'
    → (v : Value) × (object_of inner ≡ some v)
      × (put (dict end) s v cur ≡ some cur')
      × (read_back value (put_in s cur inner) ≡ read_back value inner)
put_in-object s value cur cur' failed h = cc
put_in-object s value cur cur' (stored v) h =
    (v, refl, sym (of_put-object _) ∙ h, read_back-of_put value (put (dict end) s v cur))
put_in-object s value cur cur' (int_key v) h =
    let e = sym (of_int_put-object _) ∙ h in (v, refl, e, rw e refl)

-- The last step puts the value under its segment, or leaves the dict to its text keys.
pub put_last-object :
    (s : Segment) (value cur cur' : Value)
    → object_of (put_last s value cur) ≡ some cur'
    → ((put null s value cur ≡ some cur') × (read_back value (put_last s value cur) ≡ value))
      ⊎ ((cur ≡ cur') × (child cur s ≡ none) × (read_back value (put_last s value cur) ≡ null))
unfolding put_last child
put_last-object (index i) value (dict es) cur' h = elim (Bool-cases (ltb i (length (entries es)))) [
  | inl long ↦ inr (ground (arith, h, long))
  | inr short ↦ ground (arith, h, short)
]
put_last-object s value cur cur' h =
    inl (
      sym (of_put-object (put null s value cur)) ∙ h,
      read_back-of_put value (put null s value cur),
    )

get-set_segments :
    (path : List Segment) (value cur cur' : Value)
    → object_of (set_segments path value cur) ≡ some cur'
    → get_segments cur' path ≡ read_back value (set_segments path value cur)
unfolding set_segments get_segments
get-set_segments [] value cur cur' h = some-injective _ _ (sym h)
get-set_segments (s ∷ []) value cur cur' h = elim (put_last-object s value cur cur' h) [
  | inl (put_there, back) ↦ rw (child-put null s value cur cur' put_there, get_segments) (sym back)
  | inr (same, absent, back) ↦ rw (← same, absent, get_segments) (sym back)
]
get-set_segments (s ∷ next ∷ rest) value cur cur' h =
    let (v, inner, outer, back) = put_in-object s value cur cur' _ h in
    rw (child-put (dict end) s v cur cur' outer, get_segments)
      (get-set_segments (next ∷ rest) value (container s next (child cur s)) v inner ∙ sym back)

-- Where a write does not raise, its path reads the value afterwards, or null if the write has put an
-- int key into a dict.
pub get-set_by_path :
    (obj obj' : Value) (path : String) (value : Value)
    → object_of (set_by_path obj path value) ≡ some obj'
    → get_by_path obj' path ≡ read_back value (set_by_path obj path value)
unfolding set_by_path get_by_path
get-set_by_path obj obj' path value h = get-set_segments (parse path) value obj obj' h
