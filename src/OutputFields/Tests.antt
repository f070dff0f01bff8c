-- ===== src/OutputFields/Tests.antt =====
-- Declared fields and an answer of the model.
use ieum_agent.Value.{Values, values}
use ieum_agent.Base.{
  String, ◌≡◌, ◌≢◌, ◌≤◌, ◌↔◌, refl, false, Option, none, some, List, [], ◌∷◌, All, Distinct, length,
  string_eq,
}
use ieum_agent.Base.Dict.{insert}
use ieum_agent.Base.Int.{pos}
use ieum_agent.Base.Result.{ok}
use ieum_agent.Value.{Value, Entries, dyadic, text, float, list, dict, nil, cons, end, entry, get}
use ieum_agent.OutputFields.{
  text_type, number_type, OutputField, max_fields, is_key, is_sensitive, validate_output_fields,
  field_type,
}
use ieum_agent.OutputFields.Shape.{IsAllowed, keys_of, validate_output_fields_sound}
use ieum_agent.OutputFields.Answer.{parse_structured_output}
use ieum_agent.OutputFields.Answer.Accepted.{Answers, answers, parse_structured_output_iff}

abbrev declared : Value
declared = list (
    cons (dict (entry "key" (text "summary") (entry "type" (text "text") end))) (
      cons
        (dict (
          entry "key" (text "score")
            (entry "type" (text "number") (entry "description" (text "0 to 10") end))))
        nil))

abbrev fields : List OutputField
fields =
    record { key = "summary"; ftype = text_type; description = none }
    ∷ record { key = "score"; ftype = number_type; description = some "0 to 10" }
    ∷ []

declared_passes : validate_output_fields declared false none ≡ ok (some fields)
unfolding validate_output_fields get is_key is_sensitive field_type string_eq
declared_passes = refl

validate_output_fields_sound_example :
    ((vs : Values) × (declared ≡ list vs) × (length fields ≡ length (values vs)))
    × (length fields ≤ max_fields)
    × All IsAllowed fields
    × Distinct (keys_of fields)
    × (false ≡ false)
    × ◌≢◌ {A = Option String} none (some "react")
validate_output_fields_sound_example =
    validate_output_fields_sound declared false none fields declared_passes

abbrev reply : Entries
reply = entry "score" (float (dyadic false 4 0 0)) (entry "summary" (text "fine") end)

reply_parsed :
    parse_structured_output (some (dict reply)) fields
    ≡ ok (("summary", text "fine") ∷ ("score", Value.int (pos 4)) ∷ [])
unfolding parse_structured_output get insert string_eq
reply_parsed = refl

fields-Distinct : Distinct (keys_of fields)
unfolding string_eq
fields-Distinct = (refl, (refl, tt))

parse_structured_output_iff_example :
    (parse_structured_output (some (dict reply)) fields ≡ ok (answers reply fields)) ↔ (
      (es : Entries) × (some (dict reply) ≡ some (dict es))
      × All (Answers es) fields
      × (answers reply fields ≡ answers es fields))
parse_structured_output_iff_example =
    parse_structured_output_iff (some (dict reply)) fields (answers reply fields) fields-Distinct
