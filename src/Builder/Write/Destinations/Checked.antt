-- ===== src/Builder/Write/Destinations/Checked.antt =====
-- What the checks of an address have seen to.
use ieum_agent.Base.{
  ◌≡◌, refl, ℕ, String, Bool, true, false, not, ◌||◌, ◌⊎◌, Option, none, some, List, [], ◌∷◌, ◌==◌,
  string_eq, contains, In, In-of-contains, All, all, arith, inl, inr, if_cases, or_true, or_false,
  and_left, and_right, eq_of_test,
}
use ieum_agent.Value.{Value, text}
use ieum_agent.Value.Text.{codes, has_ref}
use ieum_agent.Builder.Write.Said.{said_literally}
use ieum_agent.Builder.Write.Said.Standing.{Stands, said_literally_iff}
use ieum_agent.Builder.Write.Destinations.{
  Urls, cut_scheme, authority_of, is_http, is_nil, is_bad_authority, check_host, check_parts,
  check_url, addresses, is_said, check_emails,
}

-- empty, or said by the user
abbrev pub Said : String → String → Type 0
Said user_text address = (address ≡ "") ⊎ Stands false (codes address) (codes user_text)

is_said-Said :
    (user_text address : String) → is_said user_text address ≡ true → Said user_text address
is_said-Said user_text address h =
    elim (or_true (address == "") (said_literally address user_text) h) [
      | inl empty ↦ inl (eq_of_test address "" empty)
      | inr said ↦ inr ((said_literally_iff address user_text).0 said).1
    ]

all-Said :
    (user_text : String) (xs : List String)
    → all (is_said user_text) xs ≡ true
    → All (Said user_text) xs
all-Said user_text [] h = tt
all-Said user_text (x ∷ xs) h = (
  is_said-Said user_text x (and_left (is_said user_text x) (all (is_said user_text) xs) h),
  all-Said user_text xs (and_right (is_said user_text x) (all (is_said user_text) xs) h),
)

-- A text without a reference, all of whose addresses the user has said.
abbrev pub SaidEmails : String → Value → Type 0
SaidEmails user_text v =
    (s : String) × (v ≡ text s) × (has_ref s ≡ false) × All (Said user_text) (addresses s)

pub check_emails-Said :
    (user_text : String) (v : Value) → check_emails user_text v ≡ none → SaidEmails user_text v
unfolding check_emails
check_emails-Said user_text (text s) h = elim (if_cases (has_ref s) h) [
  | inl (ref, e) ↦ cc
  | inr (plain, rest) ↦ elim (if_cases (all (is_said user_text) (addresses s)) rest) [
    | inl (said, e) ↦ (s, refl, plain, all-Said user_text (addresses s) said)
    | inr (unsaid, e) ↦ cc
  ]
]
check_emails-Said user_text v h = cc

-- An http or https address whose host is one of the user's, and whose authority is a plain one.
abbrev pub SaidUrl : Urls → List String → Value → Type 0
SaidUrl urls hosts v =
    (s : String) × (scheme : List ℕ) × (rest : List ℕ) × (host : String) × (v ≡ text s)
    × (cut_scheme (codes s) ≡ some (scheme, rest))
    × (is_http scheme ≡ true)
    × (is_bad_authority (authority_of rest) ≡ false)
    × (urls s ≡ some host)
    × In host hosts

true_of_not : (b : Bool) → not b ≡ false → b ≡ true
true_of_not b h = ground arith

check_host-In :
    (hosts : List String) (o : Option String)
    → check_host hosts o ≡ none
    → (host : String) × (o ≡ some host) × In host hosts
check_host-In hosts none h = cc
check_host-In hosts (some host) h = elim (if_cases (host == "" || not (contains hosts host)) h) [
  | inl (bad, e) ↦ cc
  | inr (fine, e) ↦ (
    host,
    refl,
    In-of-contains host hosts (
        true_of_not (contains hosts host)
          (or_false (host == "") (not (contains hosts host)) fine).1),
  )
]

check_parts-Said :
    (hosts : List String) (host : Option String) (o : Option (List ℕ × List ℕ))
    → check_parts hosts host o ≡ none
    → (scheme : List ℕ) × (rest : List ℕ) × (o ≡ some (scheme, rest))
      × (is_http scheme ≡ true)
      × (is_bad_authority (authority_of rest) ≡ false)
      × (check_host hosts host ≡ none)
check_parts-Said hosts host none h = cc
check_parts-Said hosts host (some (scheme, rest)) h = elim (if_cases (not (is_http scheme)) h) [
  | inl (other, e) ↦ cc
  | inr (http, more) ↦
      elim (if_cases (is_nil (authority_of rest) || is_bad_authority (authority_of rest)) more) [
        | inl (bad, e) ↦ cc
        | inr (fine, last) ↦ (
          scheme,
          rest,
          refl,
          true_of_not (is_http scheme) http,
          (or_false (is_nil (authority_of rest)) (is_bad_authority (authority_of rest)) fine).1,
          last,
        )
      ]
]

pub check_url-Said :
    (urls : Urls) (hosts : List String) (v : Value)
    → check_url urls hosts v ≡ none
    → SaidUrl urls hosts v
unfolding check_url
check_url-Said urls hosts (text s) h =
    let (scheme, rest, cut, http, fine, checked) =
      check_parts-Said hosts (urls s) (cut_scheme (codes s)) h in
    let (host, known, member) = check_host-In hosts (urls s) checked in
    (s, scheme, rest, host, refl, cut, http, fine, known, member)
check_url-Said urls hosts v h = cc
