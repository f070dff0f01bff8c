-- ===== src/Validator/Refs/Unread.antt =====
-- Which texts of a config are not checked: those of fields that the run does not read.
use mathlib.Core.Path.{subst}
use text.Mathlib.TextEquality.{eq_iff}
use mathlib.Core.Option.{some-injective}
use mathlib.Core.Bool.{true≢false}
use ieum_agent.Base.{
  ◌≡◌, ◌⊎◌, refl, sym, ◌∙◌, String, Bool, true, false, ◌&&◌, Option, none, some, List, [], ◌∷◌,
  ◌==◌, string_eq, contains, All, any, select, map, inl, inr, Bool-cases, Option-cases, arith,
  if◌then◌else◌, or_true, eq_of_test,
}
use ieum_agent.Value.{dict, Entries}
use ieum_agent.Paths.{get_by_path}
use ieum_agent.Catalog.{Catalog, Entry, info, match_entry}
use ieum_agent.Validator.Branches.{is_branched}
use ieum_agent.Validator.Conditions.{right_unused}
use ieum_agent.Validator.Fields.{alias, is_legacy, is_filled, unused_field}
use ieum_agent.Validator.Refs.{is_under}
use ieum_agent.Validator.Refs.Errors.{with_aliases, unused_of}

-- The field at a path is not read: in a condition with branches, one of the old fields or of their
-- second names; in a condition whose operator takes no right side, the right side; in a request with a
-- stored webhook, the URL.
abbrev pub Unread : Entry → Entries → String → Type 0
Unread e node p =
    ((e.node_type ≡ "CONDITION")
      × (is_branched node ≡ true)
      × (contains
            ("config.operator" ∷ "config.left" ∷ "config.right" ∷ "config.leftValue"
              ∷ "config.rightValue" ∷ [])
            p
          ≡ true))
    ⊎ (((e.node_type ≡ "CONDITION")
          × (right_unused (get_by_path (dict node) "config.operator") ≡ true)
          × (contains ("config.right" ∷ "config.rightValue" ∷ []) p ≡ true))
        ⊎ ((e.node_type ≡ "HTTP")
            × (is_filled (get_by_path (dict node) "config.webhookCredentialId") ≡ true)
            × (p ≡ "config.url")))

-- `_unused_field` by its three conditions
by_cases :
    (condition legacy branched right idle url http filled : Bool)
    → (if condition && legacy && branched
        then true
        else if right && condition
        then idle
        else if url && http
        then filled
        else false)
      ≡ true
    → ((condition ≡ true) × (legacy ≡ true) × (branched ≡ true))
      ⊎ (((condition ≡ true) × (right ≡ true) × (idle ≡ true))
          ⊎ ((url ≡ true) × (http ≡ true) × (filled ≡ true)))
by_cases true true true right idle url http filled h = inl (refl, refl, refl)
by_cases true true false true idle url http filled h = inr (inl (refl, refl, h))
by_cases true false branched true idle url http filled h = inr (inl (refl, refl, h))
by_cases condition legacy branched right idle true true filled h =
    inr (inr (refl, refl, ground arith))
by_cases condition legacy branched right idle url http filled h = ground arith

is_legacy-listed :
    (p : String)
    → is_legacy p ≡ true
    → contains
        ("config.operator" ∷ "config.left" ∷ "config.right" ∷ "config.leftValue"
          ∷ "config.rightValue" ∷ [])
        p
      ≡ true
is_legacy-listed p h = ground (arith, h)

unused_field-Unread :
    (e : Entry) (node : Entries) (p : String) → unused_field e node p ≡ true → Unread e node p
unfolding unused_field
unused_field-Unread e node p h =
    elim (by_cases (e.node_type == "CONDITION") (is_legacy p) (is_branched node)
      (p == "config.right") (right_unused (get_by_path (dict node) "config.operator"))
      (p == "config.url") (e.node_type == "HTTP")
      (is_filled (get_by_path (dict node) "config.webhookCredentialId")) h) [
        | inl (c, l, b) ↦ inl (eq_of_test _ _ c, b, is_legacy-listed p l)
        | inr (inl (c, r, i)) ↦ inr (inl (eq_of_test _ _ c, i, rw r refl))
        | inr (inr (u, w, f)) ↦ inr (inr (eq_of_test _ _ w, f, eq_of_test _ _ u))
      ]

-- The second name of a field that is not read is not read either.
alias_left :
    (e : Entry) (node : Entries)
    → unused_field e node "config.left" ≡ true
    → Unread e node "config.leftValue"
unfolding string_eq
alias_left e node h = elim (unused_field-Unread e node "config.left" h) [
  | inl (c, b, l) ↦ inl (c, b, refl)
  | inr (inl (c, i, r)) ↦ absurd (true≢false (sym r))
  | inr (inr (w, f, u)) ↦ absurd (ground (arith, eq_iff "config.left" "config.url", u))
]

alias_right :
    (e : Entry) (node : Entries)
    → unused_field e node "config.right" ≡ true
    → Unread e node "config.rightValue"
unfolding string_eq
alias_right e node h = elim (unused_field-Unread e node "config.right" h) [
  | inl (c, b, l) ↦ inl (c, b, refl)
  | inr (inl (c, i, r)) ↦ inr (inl (c, i, refl))
  | inr (inr (w, f, u)) ↦ absurd (ground (arith, eq_iff "config.right" "config.url", u))
]

alias-Unread :
    (e : Entry) (node : Entries) (p other : String)
    → unused_field e node p ≡ true
    → alias p ≡ some other
    → Unread e node other
alias-Unread e node p other h named = elim (Bool-cases (p == "config.left")) [
  | inl left ↦
      let value : alias p ≡ some "config.leftValue" = rw left refl in
      subst (Unread e node) (some-injective _ _ (sym value ∙ named))
        (alias_left e node (subst (λ x. unused_field e node x ≡ true) (eq_of_test p _ left) h))
  | inr not_left ↦ elim (Bool-cases (p == "config.right")) [
    | inl right ↦
        let value : alias p ≡ some "config.rightValue" = rw (not_left, right) refl in
        subst (Unread e node) (some-injective _ _ (sym value ∙ named))
          (alias_right e node (subst (λ x. unused_field e node x ≡ true) (eq_of_test p _ right) h))
    | inr other_path ↦
        let value : alias p ≡ none = rw (not_left, other_path) refl in
        absurd (nothing (sym value ∙ named))
  ]
]
  where
    nothing : ◌≡◌ {A = Option String} none (some other) → ⊥
    nothing e = cc

-- A path under which a text is not read.
abbrev pub UnreadUnder : Entry → Entries → String → Type 0
UnreadUnder e node loc = (p : String) × (is_under loc p ≡ true) × Unread e node p

with_aliases-Unread :
    (e : Entry) (node : Entries) (loc : String) (ps : List String)
    → All (λ p. unused_field e node p ≡ true) ps
    → any (is_under loc) (with_aliases ps) ≡ true
    → UnreadUnder e node loc
with_aliases-Unread e node loc [] u h = absurd (true≢false (sym h))
with_aliases-Unread e node loc (p ∷ ps) (u, us) h =
    let shape : Option String → Type 0 = λ o.
      any (is_under loc)
        (elim o [ none ↦ p ∷ with_aliases ps | some other ↦ p ∷ other ∷ with_aliases ps ])
      ≡ true in
    elim (Option-cases (alias p)) [
      | inl none_named ↦ elim (or_true _ _ (subst shape none_named h)) [
        | inl here ↦ (p, here, unused_field-Unread e node p u)
        | inr later ↦ with_aliases-Unread e node loc ps us later
      ]
      | inr (other, named) ↦ elim (or_true _ _ (subst shape named h)) [
        | inl here ↦ (p, here, unused_field-Unread e node p u)
        | inr more ↦ elim (or_true _ _ more) [
          | inl second ↦ (other, second, alias-Unread e node p other u named)
          | inr later ↦ with_aliases-Unread e node loc ps us later
        ]
      ]
    ]

select-holds : (q : String → Bool) (ps : List String) → All (λ p. q p ≡ true) (select q ps)
select-holds q [] = tt
select-holds q (p ∷ ps) = elim (Bool-cases (q p)) [
  | inl holds ↦ rw holds (holds, select-holds q ps)
  | inr fails ↦ rw fails (select-holds q ps)
]

-- The text at a place belongs to a field that is not read.
abbrev pub IsUnread : Catalog → Entries → String → Type 0
IsUnread catalog node loc =
    (e : Entry) × (match_entry catalog node ≡ some e) × UnreadUnder e node loc

pub unused_of-IsUnread :
    (catalog : Catalog) (node : Entries) (loc : String)
    → any (is_under loc) (unused_of node (match_entry catalog node)) ≡ true
    → IsUnread catalog node loc
unused_of-IsUnread catalog node loc h = elim (Option-cases (match_entry catalog node)) [
  | inl unknown ↦
      absurd
        (true≢false (sym (subst (λ o. any (is_under loc) (unused_of node o) ≡ true) unknown h)))
  | inr (e, known) ↦ (
    e,
    known,
    with_aliases-Unread e node loc _
        (select-holds (unused_field e node) (map (λ f. (info f).path) e.input_fields))
        (subst (λ o. any (is_under loc) (unused_of node o) ≡ true) known h),
  )
]
