-- ===== src/OutputFields/Answer/Accepted.antt =====
-- Which answers are accepted, and what is made of them.
use mathlib.Core.List.{append-nil, append_assoc}
use ieum_agent.Base.{
  ℕ, String, ◌≡◌, ◌↔◌, refl, ◌∙◌, Bool, true, false, Option, none, some, List, [], ◌∷◌, ◌++◌, arith,
  string_eq, contains, All, Distinct,
}
use ieum_agent.Base.Dict.{Dict, insert, lookup, lookup-insert}
use ieum_agent.Base.Int.{ℤ, ◌≤ℤ◌}
use ieum_agent.Base.Result.{ok, bind-ok}
use ieum_agent.Value.{
  Value, nan, infinite, dyadic, null, bool, int, float, text, dict, Entries, get,
}
use ieum_agent.OutputFields.{FieldType, text_type, number_type, boolean_type, OutputField}
use ieum_agent.OutputFields.Shape.{keys_of}
use ieum_agent.OutputFields.Answer.{
  int64_min, int64_max, type_ok, normal, judge, read_answer, read_answers, parse_structured_output,
}

-- The JSON values of each declared type: a number is a finite float or an int of 64 bits.
pub data HasType : FieldType → Value → Type 0 where
  a_text : (s : String) → HasType text_type (text s)
  a_boolean : (b : Bool) → HasType boolean_type (bool b)
  an_int : (n : ℤ) → int64_min ≤ℤ n → n ≤ℤ int64_max → HasType number_type (int n)
  a_float : (s : Bool) (m a b : ℕ) → HasType number_type (float (dyadic s m a b))

abbrev pub Answers : Entries → OutputField → Type 0
Answers es f = HasType f.ftype (get f.key es)

-- The declared keys in order, each with its value.
abbrev pub answers : Entries → List OutputField → Dict Value
answers es [] = []
answers es (f ∷ fs) = (f.key, normal f.ftype (get f.key es)) ∷ answers es fs

type_ok_sound : (t : FieldType) (v : Value) → type_ok t v ≡ true → HasType t v
unfolding type_ok
type_ok_sound text_type (text s) h = a_text s
type_ok_sound boolean_type (bool b) h = a_boolean b
type_ok_sound number_type (int n) h = an_int n (ground arith) (ground arith)
type_ok_sound number_type (float (dyadic s m a b)) h = a_float s m a b
type_ok_sound number_type (float nan) h = cc
type_ok_sound number_type (float (infinite s)) h = cc
type_ok_sound t v h = cc

type_ok_complete : (t : FieldType) (v : Value) → HasType t v → type_ok t v ≡ true
unfolding type_ok
type_ok_complete t v (a_text s) = refl
type_ok_complete t v (a_boolean b) = refl
type_ok_complete t v (an_int n p q) = ground arith
type_ok_complete t v (a_float s m a b) = refl

judge-ok :
    (key : String) (t : FieldType) (v w : Value)
    → judge key t v ≡ ok w
    → (type_ok t v ≡ true) × (w ≡ normal t v)
judge-ok key t null w h = unfold judge in cc
judge-ok key t v w h = unfold judge in ground arith

judge-HasType :
    (key : String) (t : FieldType) (v : Value) → HasType t v → judge key t v ≡ ok (normal t v)
unfolding judge
judge-HasType key t v (a_text s) = refl
judge-HasType key t v (a_boolean b) = refl
judge-HasType key t v (an_int n p q) = rw (type_ok_complete number_type (int n) (an_int n p q))
judge-HasType key t v (a_float s m a b) = refl

read_answer-ok :
    (es : Entries) (f : OutputField) (v : Value)
    → read_answer es f ≡ ok v
    → Answers es f × (v ≡ normal f.ftype (get f.key es))
read_answer-ok es f v h =
    let (typed, e) = judge-ok f.key f.ftype (get f.key es) v (unfold read_answer in h) in
    (type_ok_sound f.ftype (get f.key es) typed, e)

-- A new key goes to the end.
insert-new :
    (k : String) (v : Value) (out : Dict Value)
    → lookup k out ≡ none
    → insert k v out ≡ out ++ (k, v) ∷ []
unfolding insert lookup
insert-new k v [] h = refl
insert-new k v ((j, w) ∷ out) h = ground (arith, insert-new k v out)

abbrev New : Dict Value → List OutputField → Type 0
New out = All (λ f. lookup f.key out ≡ none)

New-insert :
    (k : String) (v : Value) (out : Dict Value) (fs : List OutputField)
    → contains (keys_of fs) k ≡ false
    → New out fs
    → New (insert k v out) fs
New-insert k v out [] h n = tt
New-insert k v out (f ∷ fs) h (p, n) =
    (ground (arith, lookup-insert f.key k v out), New-insert k v out fs (ground arith) n)

read_answers-ok :
    (es : Entries) (out result : Dict Value) (fs : List OutputField)
    → Distinct (keys_of fs)
    → New out fs
    → read_answers es out fs ≡ ok result
    → All (Answers es) fs × (result ≡ out ++ answers es fs)
unfolding read_answers
read_answers-ok es out result [] d n h = (tt, rw append-nil (ground arith))
read_answers-ok es out result (f ∷ fs) (fresh, d) (new, n) h =
    let (v, read, more) =
      bind-ok (read_answer es f) (λ v. read_answers es (insert f.key v out) fs) h in
    let (has, e) = read_answer-ok es f v read in
    let (all, same) =
      read_answers-ok es (insert f.key v out) result fs d (New-insert f.key v out fs fresh n)
        more in
    ((has, all), same ∙ rw (insert-new f.key v out new, append_assoc, e))

read_answers-All :
    (es : Entries) (out : Dict Value) (fs : List OutputField)
    → Distinct (keys_of fs)
    → New out fs
    → All (Answers es) fs
    → read_answers es out fs ≡ ok (out ++ answers es fs)
unfolding read_answers
read_answers-All es out [] d n a = rw append-nil
read_answers-All es out (f ∷ fs) (fresh, d) (new, n) (p, a) =
    rw (judge-HasType f.key f.ftype (get f.key es) p) (
      read_answers-All es (insert f.key (normal f.ftype (get f.key es)) out) fs d
        (New-insert f.key (normal f.ftype (get f.key es)) out fs fresh n) a
      ∙ rw (insert-new f.key (normal f.ftype (get f.key es)) out new, append_assoc))

New-nil : (fs : List OutputField) → New [] fs
New-nil [] = tt
New-nil (f ∷ fs) = (unfold lookup in refl, New-nil fs)

-- For declared fields whose keys differ: an answer is accepted exactly when it is a JSON object in
-- which each declared key has a value of the declared type, and the result then holds the declared
-- keys in their order and nothing else, each with its value in normal form.
pub parse_structured_output_iff :
    (data_ : Option Value) (fields : List OutputField) (out : Dict Value)
    → Distinct (keys_of fields)
    → (parse_structured_output data_ fields ≡ ok out) ↔ (
        (es : Entries) × (data_ ≡ some (dict es))
        × All (Answers es) fields
        × (out ≡ answers es fields))
unfolding parse_structured_output
parse_structured_output_iff data_ fields out d = (to data_, from data_)
  where
    to :
        (o : Option Value)
        → parse_structured_output o fields ≡ ok out
        → (es : Entries) × (o ≡ some (dict es))
          × All (Answers es) fields
          × (out ≡ answers es fields)
    to none h = cc
    to (some (dict es)) h =
        let (all, e) = read_answers-ok es [] out fields d (New-nil fields) h in (es, refl, all, e)
    to (some v) h = cc

    from :
        (o : Option Value)
        → ((es : Entries) × (o ≡ some (dict es))
            × All (Answers es) fields
            × (out ≡ answers es fields))
        → parse_structured_output o fields ≡ ok out
    from o (es, e, all, same) = rw (e, same) (read_answers-All es [] fields d (New-nil fields) all)
