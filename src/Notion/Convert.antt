-- ===== src/Notion/Convert.antt =====
-- `_convert` and what it calls: a simple value as the value of a property.
pub mod Fits
use ieum_agent.Base.{
  ℕ, String, Bool, true, false, not, ◌&&◌, ◌||◌, Option, none, some, List, [], ◌∷◌, ◌==◌, string_eq,
  if◌then◌else◌, any, map, select, length, leb,
}
use ieum_agent.Base.Int.{ℤ}
use ieum_agent.Base.Result.{Result, ok, err, ◌>>=◌}
use ieum_agent.Value.{
  Value, null, bool, int, float, text, list, dict, Values, nil, cons, Entries, Float, end, entry,
  get, is_true, values, of_values,
}
use ieum_agent.Value.Text.{codes, strip}
use ieum_agent.Validator.Branches.{is_text}
use ieum_agent.Notion.Segments.{text_segments}
use ieum_agent.Notion.Values.{Python, dates_only, blank, to_text, items, is_word, needs_zone}

-- `_WRITABLE`
pub data PropertyKind : Type 0 where
  title rich_text number checkbox select_one status multi_select people relation date url email
        phone_number :
      PropertyKind

unfoldable pub kind_of : String → Option PropertyKind
kind_of s =
    if s == "title"
    then some title
    else if s == "rich_text"
    then some rich_text
    else if s == "number"
    then some number
    else if s == "checkbox"
    then some checkbox
    else if s == "select"
    then some select_one
    else if s == "status"
    then some status
    else if s == "multi_select"
    then some multi_select
    else if s == "people"
    then some people
    else if s == "relation"
    then some relation
    else if s == "date"
    then some date
    else if s == "url"
    then some url
    else if s == "email"
    then some email
    else if s == "phone_number"
    then some phone_number
    else none

-- What is said to the user, without its wording; `crashed` is any other exception.
pub data Problem : Type 0 where
  no_state no_number no_bool no_dates no_object no_list too_long no_nested too_many : Problem
  unknown_key twice read_only : String → Problem
  crashed : Problem

abbrev dicts_in : Values → List Entries
dicts_in nil = []
dicts_in (cons (dict es) vs) = es ∷ dicts_in vs
dicts_in (cons v vs) = dicts_in vs

-- the objects in `value or []`
abbrev listed : Value → Result Problem (List Entries)
listed (list vs) = ok (dicts_in vs)
listed (dict es) = ok []
listed (text s) = ok []
listed v = if is_true v then err crashed else ok []

abbrev options_in : Value → Result Problem (List Entries)
options_in (dict es) = listed (get "options" es)
options_in v = if is_true v then err crashed else ok []

-- the options of a property, which stand under its type
unfoldable pub options_of : Entries → Result Problem (List Entries)
unfolding get
options_of prop = by_type (get "type" prop)
  where
    by_type : Value → Result Problem (List Entries)
    by_type (text t) = options_in (get t prop)
    by_type v = err crashed

abbrev pub has_option : String → String → List Entries → Bool
has_option attr s options = any (λ o. is_text s (get attr o)) options

abbrev pub pick_option : Bool → String → List Entries → Result Problem Value
pick_option create s options =
    if has_option "id" s options
    then ok (dict (entry "id" (text s) end))
    else if create || has_option "name" s options
    then ok (dict (entry "name" (text s) end))
    else err no_state

unfoldable pub option : Python → Entries → Bool → Value → Result Problem Value
unfolding options_of strip get
option py prop create v = do
  options ← options_of prop
  pick_option create (strip (to_text py v)) options

abbrev pub read_number : Option ℤ → Option Float → Result Problem Value
read_number (some n) x = ok (int n)
read_number none (some x) = ok (float x)
read_number none none = err no_number

-- `_number`
unfoldable pub to_number : Python → Value → Result Problem Value
unfolding strip
to_number py (int n) = ok (int n)
to_number py (float x) = ok (float x)
to_number py (text s) = read_number (py.read_int (strip s)) (py.read_finite (strip s))
to_number py v = err no_number

-- `_checkbox`
unfoldable pub to_checkbox : Value → Result Problem Value
unfolding codes strip
to_checkbox (bool b) = ok (bool b)
to_checkbox (text s) =
    if is_word "true" s
    then ok (bool true)
    else if is_word "false" s
    then ok (bool false)
    else err no_bool
to_checkbox v = err no_bool

abbrev zone : Bool → Entries
zone true = entry "time_zone" (text "Asia/Seoul") end
zone false = end

abbrev date_text : Python → Value → String
date_text py v = strip (to_text py v)

abbrev pub dates : Python → Value → Value → Option Value
dates py start finish =
    if blank start
    then none
    else if blank finish
    then some (
        dict
          (entry "start" (text (date_text py start)) (zone (needs_zone py (date_text py start)))))
    else some (
        dict (
          entry "start" (text (date_text py start)) (
            entry "end" (text (date_text py finish))
              (zone (needs_zone py (date_text py start) || needs_zone py (date_text py finish))))))

-- `_date`
unfoldable pub to_date : Python → Value → Result Problem (Option Value)
unfolding blank get strip needs_zone
to_date py (dict es) =
    if dates_only es then ok (dates py (get "start" es) (get "end" es)) else err no_dates
to_date py v = ok (dates py v null)

abbrev pub is_dict : Value → Bool
is_dict (dict es) = true
is_dict v = false

abbrev pub is_list : Value → Bool
is_list (list vs) = true
is_list v = false

abbrev pub takes_list : PropertyKind → Bool
takes_list multi_select = true
takes_list people = true
takes_list relation = true
takes_list _ = false

abbrev pub is_date : PropertyKind → Bool
is_date date = true
is_date _ = false

abbrev pub max_items : ℕ
max_items = 100

abbrev pub to_short : Python → ℕ → Value → Result Problem (Option Value)
to_short py limit v =
    if leb (length (codes (strip (to_text py v)))) limit
    then ok (some (text (strip (to_text py v))))
    else err too_long

unfoldable pub options : Python → Entries → List Value → Result Problem (List Value)
unfolding option
options py prop [] = ok []
options py prop (v ∷ vs) = do o ← option py prop true v; rest ← options py prop vs; ok (o ∷ rest)

abbrev pub id_values : Python → List Value → List Value
id_values py vs = map (λ v. dict (entry "id" (text (strip (to_text py v))) end)) vs

abbrev pub checked_items : List Value → Result Problem (List Value)
checked_items vs =
    if any (λ x. is_dict x || is_list x) vs
    then err no_nested
    else if leb (length vs) max_items
    then ok vs
    else err too_many

-- the items that are not blank, if they are at most 100 and none of them is a container
unfoldable pub some_items : Python → Value → Result Problem (List Value)
unfolding items blank
some_items py v = checked_items (select (λ x. not (blank x)) (items py v))

abbrev pub some_list : List Value → Option Value
some_list [] = none
some_list (v ∷ vs) = some (list (of_values (v ∷ vs)))

abbrev pub by_kind : Python → Entries → Value → PropertyKind → Result Problem (Option Value)
by_kind py prop v title = ok (some (list (of_values (text_segments (to_text py v)))))
by_kind py prop v rich_text = ok (some (list (of_values (text_segments (to_text py v)))))
by_kind py prop v number = do n ← to_number py v; ok (some n)
by_kind py prop v checkbox = do b ← to_checkbox v; ok (some b)
by_kind py prop v select_one = do o ← option py prop true v; ok (some o)
by_kind py prop v status = do o ← option py prop false v; ok (some o)
by_kind py prop v date = to_date py v
by_kind py prop v url = to_short py 2000 v
by_kind py prop v email = to_short py 200 v
by_kind py prop v phone_number = to_short py 200 v
by_kind py prop v multi_select = do vs ← some_items py v; os ← options py prop vs; ok (some_list os)
by_kind py prop v people = do vs ← some_items py v; ok (some_list (id_values py vs))
by_kind py prop v relation = do vs ← some_items py v; ok (some_list (id_values py vs))

-- `_convert`: `none` is a value that is not sent
unfoldable pub convert : Python → Entries → PropertyKind → Value → Result Problem (Option Value)
unfolding option to_number to_checkbox to_date options some_items text_segments strip codes
convert py prop kind v =
    if is_dict v && not (is_date kind)
    then err no_object
    else if is_list v && not (takes_list kind)
    then err no_list
    else by_kind py prop v kind
