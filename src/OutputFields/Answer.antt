-- ===== src/OutputFields/Answer.antt =====
-- core/output_fields.py: the answer of the model, checked against the declared fields. `json.loads`
-- is the caller's: its result is an argument, `none` where it raises.
pub mod Accepted
use ieum_agent.Base.{
  ℕ, ◌-◌, ◌^◌, String, Bool, true, false, ◌&&◌, Option, none, some, List, [], ◌∷◌, if◌then◌else◌,
}
use ieum_agent.Base.Result.{Result, ok, err, ◌>>=◌}
use ieum_agent.Base.Dict.{Dict, insert}
use ieum_agent.Base.Int.{ℤ, pos, negsuc, leb_ℤ}
use ieum_agent.Value.{
  Value, Float, nan, infinite, dyadic, null, bool, int, float, text, list, dict, Entries, get,
  float_to_int,
}
use ieum_agent.OutputFields.{FieldType, text_type, number_type, boolean_type, OutputField}

-- Why `OutputMismatchError` is raised.
pub data Mismatch : Type 0 where
  not_json not_an_object : Mismatch
  missing wrong_type : String → Mismatch

abbrev pub Answered : Type 0 → Type 0
Answered = Result Mismatch

-- -2^63 and 2^63 - 1
abbrev pub int64_min : ℤ
int64_min = negsuc (2 ^ 63 - 1)

abbrev pub int64_max : ℤ
int64_max = pos (2 ^ 63 - 1)

abbrev pub is_int64 : ℤ → Bool
is_int64 n = leb_ℤ int64_min n && leb_ℤ n int64_max

unfoldable pub type_ok : FieldType → Value → Bool
type_ok text_type (text s) = true
type_ok boolean_type (bool b) = true
type_ok number_type (int n) = is_int64 n
type_ok number_type (float (dyadic s m a b)) = true
type_ok _ _ = false

abbrev whole : Float → Option ℤ → Value
whole x none = float x
whole x (some n) = if is_int64 n then int n else float x

-- A float that stands for a whole number in the int64 range becomes that int.
unfoldable pub normal : FieldType → Value → Value
normal number_type (float x) = whole x (float_to_int x)
normal t v = v

-- The value of one field; None is a missing one.
unfoldable pub judge : String → FieldType → Value → Answered Value
unfolding type_ok normal
judge key t null = err (missing key)
judge key t v = if type_ok t v then ok (normal t v) else err (wrong_type key)

unfoldable pub read_answer : Entries → OutputField → Answered Value
unfolding judge
read_answer es f = judge f.key f.ftype (get f.key es)

unfoldable pub read_answers : Entries → Dict Value → List OutputField → Answered (Dict Value)
unfolding read_answer
read_answers es out [] = ok out
read_answers es out (f ∷ fs) = do v ← read_answer es f; read_answers es (insert f.key v out) fs

unfoldable pub parse_structured_output : Option Value → List OutputField → Answered (Dict Value)
unfolding read_answers
parse_structured_output none fields = err not_json
parse_structured_output (some (dict es)) fields = read_answers es [] fields
parse_structured_output (some _) fields = err not_an_object
