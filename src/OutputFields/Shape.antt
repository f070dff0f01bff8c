-- ===== src/OutputFields/Shape.antt =====
-- What the fields are that `validate_output_fields` lets through.
use Prim.Native.String.{count}
use ieum_agent.Base.{
  ℕ, ◌+◌, ◌≤◌, String, ◌≡◌, ◌≢◌, refl, Bool, true, false, Option, none, some, List, [], ◌∷◌, arith,
  string_eq, contains, All, Distinct, length, ltb,
}
use ieum_agent.Base.Result.{ok, ◌>>=◌, bind-ok}
use ieum_agent.Value.{Value, Values, Entries, text, list, dict, get, values, cons}
use ieum_agent.OutputFields.{
  OutputField, max_fields, max_description, is_key, reserved_keys, is_sensitive, read_key,
  read_type, read_description, vet_key, read_field, read_fields, validate_output_fields,
  is_react_type,
}

-- A declared field as the rules of the module want it.
pub record IsAllowed (f : OutputField) : Type 0 where
  pub key_form : is_key f.key ≡ true
  pub free : contains reserved_keys f.key ≡ false
  pub open_key : is_sensitive f.key ≡ false
  pub described : (d : String) → f.description ≡ some d → (d ≢ "") × (count d ≤ max_description)

read_key-form : (i : ℕ) (v : Value) (key : String) → read_key i v ≡ ok key → is_key key ≡ true
unfolding read_key
read_key-form i (text s) key h = ground arith
read_key-form i v key h = ground arith

read_description-form :
    (key : String) (v : Value) (o : Option String) (d : String)
    → read_description key v ≡ ok o
    → o ≡ some d
    → (d ≢ "") × (count d ≤ max_description)
unfolding read_description
read_description-form key (text s) o d h e = ground arith
read_description-form key v o d h e = ground arith

vet_key-free :
    (seen : List String) (key : String) (u : Unit {0})
    → vet_key seen key ≡ ok u
    → (contains seen key ≡ false)
      × (contains reserved_keys key ≡ false)
      × (is_sensitive key ≡ false)
unfolding vet_key
vet_key-free seen key u h = ground arith

-- A field that is read has passed each part.
read_field-parts :
    (i : ℕ) (seen : List String) (es : Entries) (f : OutputField)
    → read_field i seen (dict es) ≡ ok f
    → (read_key i (get "key" es) ≡ ok f.key)
      × (vet_key seen f.key ≡ ok tt)
      × (read_type f.key (get "type" es) ≡ ok f.ftype)
      × (read_description f.key (get "description" es) ≡ ok f.description)
read_field-parts i seen es f h = unfold read_field in ground arith

read_field-IsAllowed :
    (i : ℕ) (seen : List String) (v : Value) (f : OutputField)
    → read_field i seen v ≡ ok f
    → IsAllowed f × (contains seen f.key ≡ false)
read_field-IsAllowed i seen (dict es) f h =
    let (read, vetted, typed, described) = read_field-parts i seen es f h in
    let (fresh, free, safe) = vet_key-free seen f.key tt vetted in
    (
      record {
        key_form = read_key-form i (get "key" es) f.key read;
        free = free;
        open_key = safe;
        described =
            λ d e. read_description-form f.key (get "description" es) f.description d described e;
      },
      fresh,
    )
read_field-IsAllowed i seen v f h = unfold read_field in ground arith

abbrev pub keys_of : List OutputField → List String
keys_of [] = []
keys_of (f ∷ fs) = f.key ∷ keys_of fs

abbrev Fresh : List String → List OutputField → Type 0
Fresh seen = All (λ f. contains seen f.key ≡ false)

keys_of-Fresh :
    (k : String) (seen : List String) (fs : List OutputField)
    → Fresh (k ∷ seen) fs
    → (contains (keys_of fs) k ≡ false) × Fresh seen fs
keys_of-Fresh k seen [] h = (refl, tt)
keys_of-Fresh k seen (f ∷ fs) (p, h) =
    let (later, rest) = keys_of-Fresh k seen fs h in (ground arith, (ground arith, rest))

read_fields-cons :
    (i : ℕ) (seen : List String) (v : Value) (vs : List Value) (fs : List OutputField)
    → read_fields i seen (v ∷ vs) ≡ ok fs
    → (f : OutputField) × (rest : List OutputField) × (read_field i seen v ≡ ok f)
      × (read_fields (i + 1) (f.key ∷ seen) vs ≡ ok rest)
      × (fs ≡ f ∷ rest)
unfolding read_fields
read_fields-cons i seen v vs fs h =
    let (f, read, h1) =
      bind-ok (read_field i seen v)
        (λ f. read_fields (i + 1) (f.key ∷ seen) vs >>= λ fs. ok (f ∷ fs)) h in
    let (rest, more, h2) = bind-ok (read_fields (i + 1) (f.key ∷ seen) vs) (λ fs. ok (f ∷ fs)) h1 in
    (f, rest, read, more, ground arith)

read_fields-IsAllowed :
    (i : ℕ) (seen : List String) (vs : List Value) (fs : List OutputField)
    → read_fields i seen vs ≡ ok fs
    → (length fs ≡ length vs) × All IsAllowed fs × Fresh seen fs × Distinct (keys_of fs)
read_fields-IsAllowed i seen [] fs h =
    let e : fs ≡ [] = unfold read_fields in ground arith in rw e (refl, tt, tt, tt)
read_fields-IsAllowed i seen (v ∷ vs) fs h =
    let (f, rest, read, more, e) = read_fields-cons i seen v vs fs h in
    let (allowed, fresh) = read_field-IsAllowed i seen v f read in
    let (same, all_allowed, all_fresh, distinct) =
      read_fields-IsAllowed (i + 1) (f.key ∷ seen) vs rest more in
    let (new, old_fresh) = keys_of-Fresh f.key seen rest all_fresh in
    rw e (omega arith, (allowed, all_allowed), (fresh, old_fresh), (new, distinct))

validate-parts :
    (v : Value) (vs : Values) (tools : Bool) (agent_type : Option String)
    (fields : List OutputField)
    → validate_output_fields (list (cons v vs)) tools agent_type ≡ ok (some fields)
    → (ltb max_fields (length (v ∷ values vs)) ≡ false)
      × (tools ≡ false)
      × (is_react_type agent_type ≡ false)
      × (read_fields 1 [] (v ∷ values vs) ≡ ok fields)
unfolding validate_output_fields
validate-parts v vs tools agent_type fields h = ground arith

not_react :
    (agent_type : Option String) → is_react_type agent_type ≡ false → agent_type ≢ some "react"
not_react none h = λ e. cc
not_react (some s) h = λ e. ground arith

-- The fields that are let through: as many as were declared and at most twenty, each with a key of
-- the right form that is neither reserved nor sensitive, and a description that is absent or has
-- 1 to 500 characters; no key stands twice. The node has no tools and is not a react node.
pub validate_output_fields_sound :
    (value : Value) (tools : Bool) (agent_type : Option String) (fields : List OutputField)
    → validate_output_fields value tools agent_type ≡ ok (some fields)
    → ((vs : Values) × (value ≡ list vs) × (length fields ≡ length (values vs)))
      × (length fields ≤ max_fields)
      × All IsAllowed fields
      × Distinct (keys_of fields)
      × (tools ≡ false)
      × (agent_type ≢ some "react")
unfolding validate_output_fields
validate_output_fields_sound (list (cons v vs)) tools agent_type fields h =
    let (few, no_tools, simple, read) = validate-parts v vs tools agent_type fields h in
    let (same, allowed, fresh, distinct) = read_fields-IsAllowed 1 [] (v ∷ values vs) fields read in
    (
      (cons v vs, refl, same),
      ground (arith, same),
      allowed,
      distinct,
      no_tools,
      not_react agent_type simple,
    )
validate_output_fields_sound value tools agent_type fields h = cc
