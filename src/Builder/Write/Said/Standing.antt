-- ===== src/Builder/Write/Said/Standing.antt =====
-- What `said_literally` finds.
use mathlib.Core.Path.{subst}
use mathlib.Core.Option.{some-injective}
use ieum_agent.Base.{
  ◌≡◌, refl, ap, ℕ, String, Bool, true, false, not, ◌&&◌, Option, none, some, List, [], ◌∷◌, ◌++◌,
  string_eq, if◌then◌else◌, eqb, arith, or_true, and_left, and_right, length, ◌≢◌, test_of_ne,
  test_self, ◌↔◌, inl, inr, if_cases,
}
use Prim.Native.Char.{Char, code}
use ieum_agent.Value.Text.{codes}
use ieum_agent.Builder.Write.Said.{
  is_address, starts_address, after, ends_here, stands_in, said_literally,
}

abbrev last_address : Bool → List ℕ → Bool
last_address before [] = before
last_address before (c ∷ cs) = last_address (is_address c) cs

-- The codes stand in the text, and no character of an address is next to them.
abbrev pub Stands : Bool → List ℕ → List ℕ → Type 0
Stands before v s =
    (left : List ℕ) × (right : List ℕ) × (s ≡ left ++ v ++ right)
    × (last_address before left ≡ false)
    × (starts_address right ≡ false)

after-append : (v s rest : List ℕ) → after v s ≡ some rest → s ≡ v ++ rest
unfolding after
after-append [] s rest h = some-injective _ _ h
after-append (c ∷ v) [] rest h = cc
after-append (c ∷ v) (d ∷ s) rest h = elim (if_cases (eqb c d) h) [
  | inl (same, more) ↦ ground (arith, after-append v s rest more)
  | inr (other, e) ↦ cc
]

after-left : (v rest : List ℕ) → after v (v ++ rest) ≡ some rest
unfolding after
after-left [] rest = refl
after-left (c ∷ v) rest = ground (arith, after-left v rest)

ends_here-some :
    (o : Option (List ℕ))
    → ends_here o ≡ true
    → (rest : List ℕ) × (o ≡ some rest) × (starts_address rest ≡ false)
ends_here-some none h = cc
ends_here-some (some rest) h = (rest, refl, ground arith)

false_of_not : (b : Bool) → not b ≡ true → b ≡ false
false_of_not b h = ground arith

stands_in-Stands : (before : Bool) (v s : List ℕ) → stands_in before v s ≡ true → Stands before v s
unfolding stands_in
stands_in-Stands before v [] h = cc
stands_in-Stands before v (c ∷ s) h =
    elim (or_true (not before && ends_here (after v (c ∷ s))) (stands_in (is_address c) v s) h) [
      | inl here ↦
          let (rest, found, apart) = ends_here-some _ (and_right _ _ here) in
          let fresh = and_left (not before) (ends_here (after v (c ∷ s))) here in
          ([], rest, after-append v (c ∷ s) rest found, false_of_not before fresh, apart)
      | inr later ↦
          let (left, right, e, f, g) = stands_in-Stands (is_address c) v s later in
          (c ∷ left, right, ap (λ t. c ∷ t) e, f, g)
    ]

Stands-stands_in :
    (before : Bool) (x : ℕ) (v left right : List ℕ)
    → last_address before left ≡ false
    → starts_address right ≡ false
    → stands_in before (x ∷ v) (left ++ (x ∷ v) ++ right) ≡ true
unfolding stands_in
Stands-stands_in before x v [] right f g = rw (after-left (x ∷ v) right, f, g) refl
Stands-stands_in before x v (c ∷ left) right f g =
    ground (arith, Stands-stands_in (is_address c) x v left right f g)

stands_in_iff : (x : ℕ) (v s : List ℕ) → (stands_in false (x ∷ v) s ≡ true) ↔ Stands false (x ∷ v) s
stands_in_iff x v s = (
  stands_in-Stands false (x ∷ v) s,
  λ (left, right, e, f, g). rw e (Stands-stands_in false x v left right f g),
)

full_text : (c : Char) (s : String) → String.◌∷◌ c s ≢ ""
unfolding codes
full_text c s e = absurd (omega (arith, ap (λ (t : String). length (codes t)) e))

-- The user has said a value literally exactly if it is not empty and stands in the user's text with no
-- character of an address next to it.
pub said_literally_iff :
    (value user_text : String)
    → (said_literally value user_text ≡ true)
      ↔ ((value ≢ "") × Stands false (codes value) (codes user_text))
unfolding said_literally
said_literally_iff String.[] user_text = (
  λ h.
      let no_text =
        subst (λ b. (if b then false else stands_in false (codes "") (codes user_text)) ≡ true)
          (test_self {A = String} "") h in
      cc,
  λ (full, s). absurd (full refl),
)
said_literally_iff (String.◌∷◌ c s) user_text =
    let other = test_of_ne (String.◌∷◌ c s) "" (full_text c s) in
    let (to, from) = stands_in_iff (code c) (codes s) (codes user_text) in
    (
      λ h. (
        full_text c s,
        unfold codes in
            to (
              subst
                (λ b.
                  (if b then false else stands_in false (codes (String.◌∷◌ c s)) (codes user_text))
                  ≡ true)
                other h),
      ),
      λ (full, t). rw other (unfold codes in from t),
    )
