-- ===== src/Builder/Clean.antt =====
-- `clean` of core/builder/fields.py: a text for the answers of the tools.
use Prim.Native.Char.{code}
use Prim.Native.String
use Prim.Native.String.{[], ◌∷◌}
use ieum_agent.Base.{ℕ, Bool, false, ◌||◌, string_eq, if◌then◌else◌, leb, eqb}
use ieum_agent.Value.{Value, text}
use ieum_agent.Value.Text.{◌<>◌, strip, take_text}
use ieum_agent.Builder.State.{Codec}

-- `_CONTROL`
abbrev pub is_control : ℕ → Bool
is_control c = leb c 31 || eqb c 127

-- `_CONTROL.sub(" ", s)`: a run of control characters is one space
replace_controls : Bool → String.String → String.String
replace_controls in_run [] = ""
replace_controls in_run (c ∷ s) =
    let rest = replace_controls (is_control (code c)) s in
    if is_control (code c) then (if in_run then rest else " " <> rest) else c ∷ rest

-- `str(value)`
abbrev pub to_text : Codec → Value → String.String
to_text codec (text s) = s
to_text codec v = codec.str v

unfoldable pub clean : Codec → ℕ → Value → String.String
unfolding replace_controls strip take_text
clean codec limit value = take_text limit (strip (replace_controls false (to_text codec value)))
