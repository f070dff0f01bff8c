-- ===== src/Paths/Frame.antt =====
-- What a write at one path leaves alone.
use mathlib.Core.Option.{some-injective}
use ieum_agent.Base.{
  String, ◌≡◌, ◌≢◌, refl, sym, ◌∙◌, Option, none, some, List, inl, inr, [], ◌∷◌, arith,
}
use ieum_agent.Base.Dict.{lookup, lookup-insert}
use ieum_agent.Value.{Value, null, list, dict, end, entries}
use ieum_agent.Paths.{
  Segment, key, index, parse, child, fresh, container, get_segments, get_by_path, put, set_segments,
  set_by_path,
}
use ieum_agent.Paths.ReadWrite.{
  entries-of_entries, child-put, object_of, put_in-object, put_last-object,
}

-- Two paths that part at two keys of one dict.
pub data Diverges : List Segment → List Segment → Type 0 where
  apart : {k j : String} {p q : List Segment} → k ≢ j → Diverges (key k ∷ p) (key j ∷ q)
  along : {s : Segment} {p q : List Segment} → Diverges p q → Diverges (s ∷ p) (s ∷ q)

put_key-child :
    (pad : Value) (k j : String) (v cur cur' : Value)
    → k ≢ j
    → put pad (key k) v cur ≡ some cur'
    → child cur' (key j) ≡ child cur (key j)
unfolding put child
put_key-child pad k j v (dict es) cur' ne h =
    rw (← some-injective _ _ h, entries-of_entries)
      (ground (arith, lookup-insert j k v (entries es), ne))
put_key-child pad k j v cur cur' ne h = ground arith

abbrev read : Option Value → List Segment → Value
read none q = null
read (some v) q = get_segments v q

get_segments-cons :
    (cur : Value) (s : Segment) (q : List Segment) → get_segments cur (s ∷ q) ≡ read (child cur s) q
unfolding get_segments
get_segments-cons cur s q = ground arith

get_segments-no_child :
    (cur : Value) (s : Segment) (q : List Segment)
    → child cur s ≡ none
    → get_segments cur (s ∷ q) ≡ null
get_segments-no_child cur s q h = get_segments-cons cur s q ∙ rw h

fresh-child : (next t : Segment) → child (fresh next) t ≡ none
unfolding child lookup
fresh-child (key k) (key j) = refl
fresh-child (key k) (index j) = refl
fresh-child (index i) (key j) = refl
fresh-child (index i) (index j) = refl

-- A container made for the path reads as the missing one did.
container-read :
    (s next t : Segment) (q : List Segment) (o : Option Value)
    → get_segments (container s next o) (t ∷ q) ≡ read o (t ∷ q)
container-read (key k) next t q none = get_segments-no_child (fresh next) t q (fresh-child next t)
container-read (index i) next t q none =
    get_segments-no_child (dict end) t q (fresh-child (key "") t)
container-read s next t q (some (dict es)) = refl
container-read s next t q (some (list vs)) = refl
container-read s next t q (some v) =
    get_segments-no_child (fresh next) t q (fresh-child next t)
    ∙ sym (get_segments-no_child v t q (unfold child in refl))

-- The first step of a write leaves what stands under another key.
first_step :
    (k j : String) (p : List Segment) (value cur cur' : Value)
    → k ≢ j
    → object_of (set_segments (key k ∷ p) value cur) ≡ some cur'
    → child cur' (key j) ≡ child cur (key j)
unfolding set_segments
first_step k j [] value cur cur' ne h = elim (put_last-object (key k) value cur cur' h) [
  | inl (put_there, back) ↦ put_key-child null k j value cur cur' ne put_there
  | inr (same, absent, back) ↦ rw same
]
first_step k j (next ∷ p) value cur cur' ne h =
    let (v, inner, outer, back) = put_in-object (key k) value cur cur' _ h in
    put_key-child (dict end) k j v cur cur' ne outer

-- Under a shared segment the question is the one for the child.
under :
    (s next t : Segment) (p q : List Segment) (value cur cur' : Value)
    → ((v : Value)
        → object_of (set_segments (next ∷ p) value (container s next (child cur s))) ≡ some v
        → get_segments v (t ∷ q) ≡ get_segments (container s next (child cur s)) (t ∷ q))
    → object_of (set_segments (s ∷ next ∷ p) value cur) ≡ some cur'
    → get_segments cur' (s ∷ t ∷ q) ≡ get_segments cur (s ∷ t ∷ q)
unfolding set_segments
under s next t p q value cur cur' same h =
    let (v, inner, outer, back) = put_in-object s value cur cur' _ h in
    get_segments-cons cur' s (t ∷ q)
    ∙ rw (child-put (dict end) s v cur cur' outer) (
        same v inner
        ∙ container-read s next t q (child cur s)
        ∙ sym (get_segments-cons cur s (t ∷ q)))

set_segments-frame :
    {p q : List Segment} (value cur cur' : Value)
    → Diverges p q
    → object_of (set_segments p value cur) ≡ some cur'
    → get_segments cur' q ≡ get_segments cur q
set_segments-frame value cur cur' (apart {k} {j} {p} {q} ne) h =
    get_segments-cons cur' (key j) q
    ∙ rw (first_step k j p value cur cur' ne h) (sym (get_segments-cons cur (key j) q))
set_segments-frame value cur cur' (along {s} (apart {k} {j} {p} {q} ne)) h =
    under s (key k) (key j) p q value cur cur' (λ v e. set_segments-frame value _ v (apart ne) e) h
set_segments-frame value cur cur' (along {s} (along {s = t} {p} {q} d)) h =
    under s t t p q value cur cur' (λ v e. set_segments-frame value _ v (along d) e) h

-- A write that does not raise leaves every path alone that parts from its path at a key.
pub get-set_by_path_ne :
    (obj obj' : Value) (path other : String) (value : Value)
    → Diverges (parse path) (parse other)
    → object_of (set_by_path obj path value) ≡ some obj'
    → get_by_path obj' other ≡ get_by_path obj other
unfolding set_by_path get_by_path
get-set_by_path_ne obj obj' path other value d h = set_segments-frame value obj obj' d h
