-- ===== src/Value/Text.antt =====
-- What the code does with texts: characters are code points, as in Python.
use Prim.Native.Char.{code}
use Prim.Native.String
use Prim.Native.String.{[], ◌∷◌, count}
use ieum_agent.Base.{
  ℕ, zero, suc, ◌+◌, ◌/◌, ◌%◌, String, Bool, true, false, ◌&&◌, ◌||◌, if◌then◌else◌, eqb, leb, ltb,
  ◌*◌, ◌-◌, List,
}

-- `s + t`
infixr 60 ◌<>◌
abbrev pub ◌<>◌ : String → String → String
s <> t = String.◌++◌ s t

-- `s[:n]`
unfoldable pub take_text : ℕ → String → String
take_text zero s = ""
take_text (suc n) [] = ""
take_text (suc n) (c ∷ s) = c ∷ take_text n s

-- `s[n:]`
unfoldable pub drop_text : ℕ → String → String
drop_text zero s = s
drop_text (suc n) [] = ""
drop_text (suc n) (c ∷ s) = drop_text n s

abbrev pub digit : ℕ → String
digit n =
    if eqb n 0
    then "0"
    else if eqb n 1
    then "1"
    else if eqb n 2
    then "2"
    else if eqb n 3
    then "3"
    else if eqb n 4
    then "4"
    else if eqb n 5
    then "5"
    else if eqb n 6
    then "6"
    else if eqb n 7
    then "7"
    else if eqb n 8
    then "8"
    else "9"

-- `str(n)`: the fuel `n` is enough, since each round divides by ten
decimal : ℕ → ℕ → String
decimal zero n = digit n
decimal (suc fuel) n =
    let more = decimal fuel (n / 10) <> digit (n % 10) in if ltb n 10 then digit n else more

unfoldable pub show : ℕ → String
unfolding decimal
show n = decimal n n

-- `s.split(sep)` for a separator of one character, given by its code.
split_from : ℕ → String → String → List String
split_from sep cur [] = List.◌∷◌ cur List.[]
split_from sep cur (c ∷ s) =
    let closed = List.◌∷◌ cur (split_from sep "" s) in
    let longer = split_from sep (cur <> (c ∷ [])) s in if eqb (code c) sep then closed else longer

unfoldable pub split : ℕ → String → List String
unfolding split_from
split sep s = split_from sep "" s

abbrev pub is_digit : ℕ → Bool
is_digit c = leb b'0' c && leb c b'9'

all_digits : String → Bool
all_digits [] = true
all_digits (c ∷ s) = is_digit (code c) && all_digits s

-- `s.isdigit()`, for the ASCII digits that the paths of the catalogue use
unfoldable pub is_digits : String → Bool
unfolding all_digits
is_digits [] = false
is_digits (c ∷ s) = all_digits (c ∷ s)

number_from : ℕ → String → ℕ
number_from n [] = n
number_from n (c ∷ s) = number_from (n * 10 + (code c - b'0')) s

-- `int(s)` of a text of digits
unfoldable pub number : String → ℕ
unfolding number_from
number s = number_from 0 s

-- The code points of a text.
unfoldable pub codes : String → List ℕ
codes [] = List.[]
codes (c ∷ s) = List.◌∷◌ (code c) (codes s)

-- `s.lower()` on the letters A-Z
abbrev pub lower_code : ℕ → ℕ
lower_code c = if leb b'A' c && leb c b'Z' then c + 32 else c

unfoldable pub starts_codes : List ℕ → List ℕ → Bool
starts_codes s List.[] = true
starts_codes List.[] (List.◌∷◌ d t) = false
starts_codes (List.◌∷◌ c s) (List.◌∷◌ d t) = eqb c d && starts_codes s t

-- `t in s`
unfoldable pub has_codes : List ℕ → List ℕ → Bool
unfolding starts_codes
has_codes List.[] t = starts_codes List.[] t
has_codes (List.◌∷◌ c s) t = starts_codes (List.◌∷◌ c s) t || has_codes s t

-- `str.isspace` of one character
abbrev pub is_space : ℕ → Bool
is_space c =
    leb 9 c && leb c 13
    || leb 28 c && leb c 32
    || leb 8192 c && leb c 8202
    || eqb c 133
    || eqb c 160
    || eqb c 5760
    || eqb c 8232
    || eqb c 8233
    || eqb c 8239
    || eqb c 8287
    || eqb c 12288

-- `s.strip() == ""`
unfoldable pub is_blank : String → Bool
is_blank [] = true
is_blank (c ∷ s) = is_space (code c) && is_blank s

abbrev is_nil : String → Bool
is_nil [] = true
is_nil (c ∷ s) = false

strip_left : String → String
strip_left [] = ""
strip_left (c ∷ s) = if is_space (code c) then strip_left s else c ∷ s

strip_right : String → String
strip_right [] = ""
strip_right (c ∷ s) =
    let rest = strip_right s in if is_space (code c) && is_nil rest then "" else c ∷ rest

-- `s.strip()`
unfoldable pub strip : String → String
unfolding strip_left strip_right
strip s = strip_right (strip_left s)

abbrev pub eq_codes : List ℕ → List ℕ → Bool
eq_codes List.[] List.[] = true
eq_codes (List.◌∷◌ c s) (List.◌∷◌ d t) = eqb c d && eq_codes s t
eq_codes _ _ = false

-- `s.startswith(t)`
unfoldable pub starts_with : String → String → Bool
unfolding codes starts_codes
starts_with s t = starts_codes (codes s) (codes t)

-- `"{{" in s`
unfoldable pub has_ref : String → Bool
unfolding codes has_codes
has_ref s = has_codes (codes s) (codes "{{")
