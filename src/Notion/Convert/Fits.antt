-- ===== src/Notion/Convert/Fits.antt =====
-- Whatever the value, what is sent for a property has the shape that its kind wants.
use mathlib.Core.Option.{some-injective}
use ieum_agent.Base.{
  if_cases, ◌≡◌, refl, sym, ap, ◌≤◌, ◌⊎◌, inl, inr, ℕ, suc, String, Bool, true, false, not, ◌&&◌,
  ◌||◌, Option, none, some, List, [], ◌∷◌, All, arith, length, leb, leb→le, any, select,
}
use ieum_agent.Base.Result.{Result, ok, err, ◌>>=◌, bind-ok, ok-injective}
use ieum_agent.Base.Int.{ℤ}
use ieum_agent.Value.{
  Value, Float, null, bool, int, float, text, list, dict, Entries, end, entry, get, of_values,
}
use ieum_agent.Value.Text.{codes, strip}
use ieum_agent.Notion.Segments.{text_segments}
use ieum_agent.Notion.Values.{items, Python, blank, dates_only, is_word, to_text}
use ieum_agent.Notion.Convert.{
  is_date, takes_list, PropertyKind, title, rich_text, number, checkbox, select_one, status,
  multi_select, people, relation, date, url, email, phone_number, Problem, is_dict, is_list,
  options_of, has_option, pick_option, option, read_number, to_number, dates, to_checkbox, to_date,
  max_items, to_short, options, id_values, some_items, checked_items, some_list, by_kind, convert,
}

abbrev IsNumber : Value → Type 0
IsNumber v = ((n : ℤ) × (v ≡ int n)) ⊎ ((x : Float) × (v ≡ float x))

-- an option that the property has, by its id or its name
abbrev IsOption : Entries → Value → Type 0
IsOption prop v =
    (os : List Entries) × (s : String) × (options_of prop ≡ ok os)
    × (((has_option "id" s os ≡ true) × (v ≡ dict (entry "id" (text s) end)))
        ⊎ ((has_option "name" s os ≡ true) × (v ≡ dict (entry "name" (text s) end))))

abbrev IsChoice : Value → Type 0
IsChoice v =
    (s : String) × ((v ≡ dict (entry "id" (text s) end)) ⊎ (v ≡ dict (entry "name" (text s) end)))

abbrev IsId : Value → Type 0
IsId v = (s : String) × (v ≡ dict (entry "id" (text s) end))

-- one to a hundred values, each of the kind
abbrev IsList : (Value → Type 0) → Value → Type 0
IsList P v =
    (x : Value) × (xs : List Value) × (v ≡ list (of_values (x ∷ xs)))
    × (length (x ∷ xs) ≤ max_items)
    × All P (x ∷ xs)

abbrev IsShort : ℕ → Value → Type 0
IsShort limit v = (s : String) × (v ≡ text s) × (length (codes s) ≤ limit)

abbrev IsDates : Value → Type 0
IsDates v = (s : String) × (es : Entries) × (v ≡ dict (entry "start" (text s) es))

abbrev pub Fits : Entries → PropertyKind → Value → Type 0
Fits prop title v = (s : String) × (v ≡ list (of_values (text_segments s)))
Fits prop rich_text v = (s : String) × (v ≡ list (of_values (text_segments s)))
Fits prop number v = IsNumber v
Fits prop checkbox v = (b : Bool) × (v ≡ bool b)
Fits prop select_one v = IsChoice v
Fits prop status v = IsOption prop v
Fits prop multi_select v = IsList IsChoice v
Fits prop people v = IsList IsId v
Fits prop relation v = IsList IsId v
Fits prop date v = IsDates v
Fits prop url v = IsShort 2000 v
Fits prop email v = IsShort 200 v
Fits prop phone_number v = IsShort 200 v

pick_option_cases :
    (create : Bool) (s : String) (os : List Entries) (w : Value)
    → pick_option create s os ≡ ok w
    → ((has_option "id" s os ≡ true) × (w ≡ dict (entry "id" (text s) end)))
      ⊎ (((create || has_option "name" s os) ≡ true) × (w ≡ dict (entry "name" (text s) end)))
pick_option_cases create s os w h = elim (if_cases (has_option "id" s os) h) [
  | inl (here, e) ↦ inl (here, sym (ok-injective e))
  | inr (other, rest) ↦ elim (if_cases (create || has_option "name" s os) rest) [
    | inl (named, e) ↦ inr (named, sym (ok-injective e))
    | inr (missing, e) ↦ cc
  ]
]

module _ (py : Python) (prop : Entries) where
  option-IsChoice : (v w : Value) → option py prop true v ≡ ok w → IsChoice w
  unfolding option
  option-IsChoice v w h =
      let (os, read, picked) = bind-ok (options_of prop) _ h in
      elim (pick_option_cases true _ os w picked) [
        | inl (here, e) ↦ (_, inl e)
        | inr (here, e) ↦ (_, inr e)
      ]

  option-IsOption : (v w : Value) → option py prop false v ≡ ok w → IsOption prop w
  unfolding option
  option-IsOption v w h =
      let (os, read, picked) = bind-ok (options_of prop) _ h in
      (os, _, read, pick_option_cases false _ os w picked)

  read_number-IsNumber :
      (n : Option ℤ) (x : Option Float) (w : Value) → read_number n x ≡ ok w → IsNumber w
  read_number-IsNumber (some n) x w h = inl (n, sym (ok-injective h))
  read_number-IsNumber none (some x) w h = inr (x, sym (ok-injective h))
  read_number-IsNumber none none w h = cc

  to_number-IsNumber : (v w : Value) → to_number py v ≡ ok w → IsNumber w
  unfolding to_number
  to_number-IsNumber (int n) w h = inl (n, sym (ok-injective h))
  to_number-IsNumber (float x) w h = inr (x, sym (ok-injective h))
  to_number-IsNumber (text s) w h = read_number-IsNumber _ _ w h
  to_number-IsNumber v w h = cc

  to_checkbox-bool : (v w : Value) → to_checkbox v ≡ ok w → (b : Bool) × (w ≡ bool b)
  unfolding to_checkbox
  to_checkbox-bool (bool b) w h = (b, sym (ok-injective h))
  to_checkbox-bool (text s) w h = elim (if_cases (is_word "true" s) h) [
    | inl (is_it, e) ↦ (true, sym (ok-injective e))
    | inr (other, rest) ↦ elim (if_cases (is_word "false" s) rest) [
      | inl (is_it, e) ↦ (false, sym (ok-injective e))
      | inr (neither, e) ↦ cc
    ]
  ]
  to_checkbox-bool v w h = cc

  dates-IsDates : (start finish w : Value) → dates py start finish ≡ some w → IsDates w
  dates-IsDates start finish w h = elim (if_cases (blank start) h) [
    | inl (is_blank, e) ↦ cc
    | inr (full, rest) ↦ elim (if_cases (blank finish) rest) [
      | inl (alone, e) ↦ (_, _, sym (some-injective _ _ e))
      | inr (both, e) ↦ (_, _, sym (some-injective _ _ e))
    ]
  ]

  to_date-IsDates : (v w : Value) → to_date py v ≡ ok (some w) → IsDates w
  unfolding to_date
  to_date-IsDates (dict es) w h = elim (if_cases (dates_only es) h) [
    | inl (only, e) ↦ dates-IsDates (get "start" es) (get "end" es) w (ok-injective e)
    | inr (other, e) ↦ cc
  ]
  to_date-IsDates null w h = dates-IsDates null null w (ok-injective h)
  to_date-IsDates v w h = dates-IsDates v null w (ok-injective h)

  to_short-IsShort : (limit : ℕ) (v w : Value) → to_short py limit v ≡ ok (some w) → IsShort limit w
  to_short-IsShort limit v w h =
      elim (if_cases (leb (length (codes (strip (to_text py v)))) limit) h) [
        | inl (fits, e) ↦ (_, sym (some-injective _ _ (ok-injective e)), leb→le _ _ fits)
        | inr (long, e) ↦ cc
      ]

  options-All :
      (vs ws : List Value) → options py prop vs ≡ ok ws → All IsChoice ws × (length ws ≡ length vs)
  unfolding options
  options-All [] ws h = rw (← ok-injective h) (tt, refl)
  options-All (v ∷ vs) ws h =
      let (o, first, others) = bind-ok (option py prop true v) _ h in
      let (rest, all, last) = bind-ok (options py prop vs) _ others in
      let (choices, same) = options-All vs rest all in
      rw (← ok-injective last) ((option-IsChoice v o first, choices), ap suc same)

  ids-All : (vs : List Value) → All IsId (id_values py vs) × (length (id_values py vs) ≡ length vs)
  ids-All [] = (tt, refl)
  ids-All (v ∷ vs) = let (all, same) = ids-All vs in (((_, refl), all), ap suc same)

  checked_items-le : (vs ws : List Value) → checked_items vs ≡ ok ws → length ws ≤ max_items
  checked_items-le vs ws h = elim (if_cases (any (λ x. is_dict x || is_list x) vs) h) [
    | inl (nested, e) ↦ cc
    | inr (flat, rest) ↦ elim (if_cases (leb (length vs) max_items) rest) [
      | inl (fits, e) ↦ rw (← ok-injective e) (leb→le _ _ fits)
      | inr (long, e) ↦ cc
    ]
  ]

  some_items-le : (v : Value) (vs : List Value) → some_items py v ≡ ok vs → length vs ≤ max_items
  unfolding some_items
  some_items-le v vs h = checked_items-le (select (λ x. not (blank x)) (items py v)) vs h

  some_list-IsList :
      (P : Value → Type 0) (xs : List Value) (w : Value)
      → All P xs
      → length xs ≤ max_items
      → some_list xs ≡ some w
      → IsList P w
  some_list-IsList P [] w all le h = cc
  some_list-IsList P (x ∷ xs) w all le h = (x, xs, sym (some-injective _ _ h), le, all)

  sent : (m : Result Problem Value) (w : Value) → (m >>= λ n. ok (some n)) ≡ ok (some w) → m ≡ ok w
  sent (ok v) w h = ap ok (some-injective _ _ (ok-injective h))
  sent (err reason) w h = cc

  ids-Fits :
      (v w : Value)
      → (some_items py v >>= λ vs. ok (some_list (id_values py vs))) ≡ ok (some w)
      → IsList IsId w
  ids-Fits v w h =
      let (vs, read, last) = bind-ok (some_items py v) _ h in
      let (all, same) = ids-All vs in
      some_list-IsList IsId (id_values py vs) w all (omega (arith, same, some_items-le v vs read))
        (ok-injective last)

  choices-Fits :
      (v w : Value)
      → (some_items py v >>= λ vs. options py prop vs >>= λ os. ok (some_list os)) ≡ ok (some w)
      → IsList IsChoice w
  choices-Fits v w h =
      let (vs, read, rest) = bind-ok (some_items py v) _ h in
      let (os, picked, last) = bind-ok (options py prop vs) _ rest in
      let (all, same) = options-All vs os picked in
      some_list-IsList IsChoice os w all (omega (arith, same, some_items-le v vs read))
        (ok-injective last)

  by_kind-Fits :
      (kind : PropertyKind) (v w : Value) → by_kind py prop v kind ≡ ok (some w) → Fits prop kind w
  by_kind-Fits title v w h = (_, sym (some-injective _ _ (ok-injective h)))
  by_kind-Fits rich_text v w h = (_, sym (some-injective _ _ (ok-injective h)))
  by_kind-Fits number v w h = to_number-IsNumber v w (sent _ w h)
  by_kind-Fits checkbox v w h = to_checkbox-bool v w (sent _ w h)
  by_kind-Fits select_one v w h = option-IsChoice v w (sent _ w h)
  by_kind-Fits status v w h = option-IsOption v w (sent _ w h)
  by_kind-Fits date v w h = to_date-IsDates v w h
  by_kind-Fits url v w h = to_short-IsShort 2000 v w h
  by_kind-Fits email v w h = to_short-IsShort 200 v w h
  by_kind-Fits phone_number v w h = to_short-IsShort 200 v w h
  by_kind-Fits multi_select v w h = choices-Fits v w h
  by_kind-Fits people v w h = ids-Fits v w h
  by_kind-Fits relation v w h = ids-Fits v w h

  -- What is sent for a property of each kind: a title or a rich text is the pieces of a text, a number a
  -- number, a checkbox a boolean; a choice is an id or a name, and a status one that the property has;
  -- several choices, people and relations are a list of one to a hundred; a date has a start; an
  -- address has at most 2,000 characters, and an email address and a phone number at most 200.
  pub convert-Fits :
      (kind : PropertyKind) (v w : Value) → convert py prop kind v ≡ ok (some w) → Fits prop kind w
  unfolding convert
  convert-Fits kind v w h = elim (if_cases (is_dict v && not (is_date kind)) h) [
    | inl (object, e) ↦ cc
    | inr (plain, rest) ↦ elim (if_cases (is_list v && not (takes_list kind)) rest) [
      | inl (listed, e) ↦ cc
      | inr (fine, e) ↦ by_kind-Fits kind v w e
    ]
  ]
