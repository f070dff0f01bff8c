-- ===== src/Sheets/Columns/Letters.antt =====
-- The letters of a column stand for it.
use mathlib.Core.List.{append-nil}
use ieum_agent.Base.{
  ℕ, zero, suc, ◌+◌, ◌-◌, ◌*◌, ◌/◌, ◌%◌, ◌≡◌, ◌≤◌, ◌<◌, refl, ap, ◌∙◌, false, List, [], ◌∷◌, ◌++◌,
  eqb, arith, Bool-cases, inl, inr,
}
use ieum_agent.Sheets.Columns.{col_from, col, index_from, col_index}

index_from-col_from :
    (fuel i : ℕ) (letters : List ℕ)
    → i ≤ fuel
    → index_from 0 (col_from fuel i letters) ≡ index_from i letters
unfolding col_from
index_from-col_from zero i letters h = let e : i ≡ 0 = omega arith in rw e refl
index_from-col_from (suc fuel) i letters h = elim (Bool-cases (eqb i 0)) [
  | inl done ↦ let e : i ≡ 0 = ground arith in rw e refl
  | inr more ↦
      let pos : 0 < i = ground arith in
      let ih =
        index_from-col_from fuel ((i - 1) / 26) ((65 + (i - 1) % 26) ∷ letters) (omega arith) in
      let step : (i - 1) / 26 * 26 + (65 + (i - 1) % 26) - 64 ≡ i = omega arith in
      rw more (ih ∙ unfold index_from in ap (λ n. index_from n letters) step)
]

-- The letters of a column lead back to it.
pub col_index-col : (i : ℕ) → col_index (col i) ≡ i
unfolding col_index col
col_index-col i =
    let back = index_from-col_from (i + 1) (i + 1) [] (omega arith) in
    rw back (unfold index_from in omega arith)

-- Enough rounds give one result.
col_from-fuel :
    (f g i : ℕ) (letters : List ℕ) → i ≤ f → i ≤ g → col_from f i letters ≡ col_from g i letters
unfolding col_from
col_from-fuel zero zero i letters h k = refl
col_from-fuel zero (suc g) i letters h k = let e : i ≡ 0 = omega arith in rw e refl
col_from-fuel (suc f) zero i letters h k = let e : i ≡ 0 = omega arith in rw e refl
col_from-fuel (suc f) (suc g) i letters h k = elim (Bool-cases (eqb i 0)) [
  | inl done ↦ rw done refl
  | inr more ↦
      let pos : 0 < i = ground arith in
      rw more (
        col_from-fuel f g ((i - 1) / 26) ((65 + (i - 1) % 26) ∷ letters) (omega arith)
          (omega arith))
]

abbrev pub AreLetters : List ℕ → Type 0
AreLetters [] = Unit
AreLetters (c ∷ cs) = (65 ≤ c) × (c ≤ 90) × AreLetters cs

col_from-step :
    (m : ℕ) (letters : List ℕ)
    → col_from (suc m) (suc m) letters ≡ col_from m (m / 26) ((65 + m % 26) ∷ letters)
unfolding col_from
col_from-step m letters =
    let less : suc m - 1 ≡ m = omega arith in
    let more : eqb (suc m) 0 ≡ false = ground arith in rw (more, less) refl

-- One letter more is one round more.
col_from-suc :
    (n c m : ℕ) (letters : List ℕ)
    → 65 ≤ c
    → c ≤ 90
    → suc m ≡ n * 26 + c - 64
    → col_from (suc m) (suc m) letters ≡ col_from n n (c ∷ letters)
col_from-suc n c m letters h k e =
    let quotient : m / 26 ≡ n = omega arith in
    let letter : 65 + m % 26 ≡ c = omega arith in
    col_from-step m letters
    ∙ rw (quotient, letter) (col_from-fuel m n n (c ∷ letters) (omega arith) (omega arith))

col_from-index_from :
    (cs : List ℕ) (n : ℕ) (letters : List ℕ)
    → AreLetters cs
    → col_from (index_from n cs) (index_from n cs) letters ≡ col_from n n (cs ++ letters)
unfolding index_from
col_from-index_from [] n letters h = refl
col_from-index_from (c ∷ cs) n letters (low, high, rest) =
    col_from-index_from cs (n * 26 + c - 64) letters rest
    ∙ (let e : n * 26 + c - 64 ≡ suc (n * 26 + c - 65) = omega arith in
        rw e (col_from-suc n c (n * 26 + c - 65) (cs ++ letters) low high (omega arith)))

index_from-pos : (cs : List ℕ) (n : ℕ) → AreLetters cs → 0 < n → 0 < index_from n cs
unfolding index_from
index_from-pos [] n h k = k
index_from-pos (c ∷ cs) n (low, high, rest) k =
    index_from-pos cs (n * 26 + c - 64) rest (omega arith)

-- Letters from A to Z are those of the column that they stand for.
pub col-col_index : (c : ℕ) (cs : List ℕ) → AreLetters (c ∷ cs) → col (col_index (c ∷ cs)) ≡ c ∷ cs
unfolding col col_index
col-col_index c cs (low, high, rest) =
    let pos : 0 < index_from 0 (c ∷ cs) =
      unfold index_from in index_from-pos cs (0 * 26 + c - 64) rest (omega arith) in
    let back : index_from 0 (c ∷ cs) - 1 + 1 ≡ index_from 0 (c ∷ cs) = omega arith in
    rw back (col_from-index_from (c ∷ cs) 0 [] (low, high, rest) ∙ append-nil (c ∷ cs))
