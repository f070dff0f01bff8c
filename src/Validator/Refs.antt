-- ===== src/Validator/Refs.antt =====
-- `_ref_errors` of core/validators/static_validator.py: the references `{{nodes.<id>.output.<path>}}`
-- in the config of a node.
pub mod Errors
pub mod Sound
pub mod Unread
pub mod Upstream
use Prim.Native.Char.{code}
use Prim.Native.String
use Prim.Native.String.{[], ◌∷◌}
use ieum_agent.Base.{
  ℕ, zero, suc, ◌+◌, Bool, true, false, not, ◌&&◌, ◌||◌, Option, none, some, List, ◌++◌, ◌==◌,
  string_eq, contains, if◌then◌else◌, any, map, first, select, eqb, leb, ltb, length,
}
use ieum_agent.Value.Text.{◌<>◌, starts_with, drop_text, codes}

abbrev is_id_char : ℕ → Bool
is_id_char c =
    leb b'0' c && leb c b'9' || leb b'A' c && leb c b'Z' || leb b'a' c && leb c b'z' || eqb c b'-'

abbrev is_path_char : ℕ → Bool
is_path_char c =
    leb b'0' c && leb c b'9'
    || leb b'A' c && leb c b'Z'
    || leb b'a' c && leb c b'z'
    || eqb c b'_'
    || eqb c b'.'

-- The longest prefix of characters that `p` holds of, and the rest.
unfoldable pub span : (ℕ → Bool) → String.String → String.String × String.String
span p [] = ("", "")
span p (c ∷ s) = let (body, rest) = span p s in if p (code c) then (c ∷ body, rest) else ("", c ∷ s)

abbrev is_no_brace : ℕ → Bool
is_no_brace c = not (eqb c b'{' || eqb c b'}')

-- The bodies that `_REF_RE` finds, from the left, each after the one before it. A round reads at
-- least one character.
unfoldable pub bodies_from : ℕ → String.String → List String.String
unfolding span
bodies_from zero s = List.[]
bodies_from (suc fuel) [] = List.[]
bodies_from (suc fuel) (c ∷ s) =
    let (body, rest) = span is_no_brace (drop_text 1 s) in
    let later = bodies_from fuel s in
    let found = List.◌∷◌ body (bodies_from fuel (drop_text 2 rest)) in
    if starts_with (c ∷ s) "{{" && starts_with rest "}}" then found else later

unfoldable pub bodies : String.String → List String.String
unfolding bodies_from
bodies s = bodies_from (length (codes s)) s

abbrev output_of :
    String.String → String.String × String.String → Option (String.String × String.String)
output_of id (path, rest) = if path == "" || not (rest == "") then none else some (id, path)

abbrev after_id : String.String × String.String → Option (String.String × String.String)
after_id (id, rest) =
    if not (id == "") && starts_with rest ".output."
    then output_of id (span is_path_char (drop_text 8 rest))
    else none

-- `REF_BODY_RE.fullmatch`: the id of the node and the path in its output
unfoldable pub parse_ref : String.String → Option (String.String × String.String)
unfolding span
parse_ref body =
    if starts_with body "nodes." then after_id (span is_id_char (drop_text 6 body)) else none

last_from : ℕ → String.String → String.String → ℕ → ℕ
last_from i [] t found = found
last_from i (c ∷ s) t found = last_from (i + 1) s t (if starts_with (c ∷ s) t then i else found)

-- `s.rfind(t)`, counted from 1, with 0 for -1
unfoldable pub last_index : String.String → String.String → ℕ
unfolding last_from
last_index s t = last_from 1 s t 0

-- `s.split(".", 1)[0]`
unfoldable pub head_part : String.String → String.String
unfolding span
head_part s = (span (λ c. not (eqb c b'.')) s).0

-- `loc == p or loc.startswith(p + ".")`
abbrev pub is_under : String.String → String.String → Bool
is_under loc p = loc == p || starts_with loc (p <> ".")
