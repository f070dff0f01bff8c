-- ===== src/Base/Result.antt =====
-- What a function that may raise returns: a value, or the reason of its exception.
use mathlib.Core.Path.{◌≡◌, refl}
use mathlib.Core.Bool.{Bool, true, false}
use package.ieum_agent.Base.Tests.{if◌then◌else◌}

pub data Result (E A : Type 0) : Type 0 where
  ok : A → Result E A
  err : E → Result E A

module _ {E : Type 0} where
  infixl 5 ◌>>=◌ ◌>>◌
  abbrev pub ◌>>=◌ : {A B : Type 0} → Result E A → (A → Result E B) → Result E B
  err reason >>= next = err reason
  ok value >>= next = next value

  abbrev pub ◌>>◌ : {B : Type 0} → Result E (Unit {0}) → Result E B → Result E B
  first >> second = first >>= λ _. second

  -- `if b: raise e`
  abbrev pub raise_if : Bool → E → Result E (Unit {0})
  raise_if true reason = err reason
  raise_if false reason = ok tt

  -- A block that returns has returned from its first part.
  pub bind-ok :
      {A B : Type 0} (first : Result E A) (next : A → Result E B) {result : B}
      → (first >>= next) ≡ ok result
      → (value : A) × (first ≡ ok value) × (next value ≡ ok result)
  bind-ok (err reason) next returned = cc
  bind-ok (ok value) next returned = (value, refl, returned)

  -- So has a block behind a guard, and the guard has let it through.
  pub if-ok :
      {A : Type 0} (b : Bool) (reason : E) (next : Result E A) {result : A}
      → (if b then err reason else next) ≡ ok result
      → (b ≡ false) × (next ≡ ok result)
  if-ok true reason next returned = cc
  if-ok false reason next returned = (refl, returned)

  pub ok-injective : {A : Type 0} {a b : A} → ◌≡◌ {A = Result E A} (ok a) (ok b) → a ≡ b
  ok-injective h = cc
