-- ===== src/Notion/Segments.antt =====
-- `_text_segments` of tools/notion.py without a link and annotations: a text in pieces of at most
-- 2,000 characters.
use Prim.Native.String
use Prim.Native.String.{[], ◌∷◌}
use package.text.Mathlib.TextLemmas.{nil-append, cons-append}
use ieum_agent.Base.{
  ℕ, ◌-◌, zero, suc, ◌≤◌, ◌≡◌, refl, ap, ◌∙◌, String, List, length, map, All, arith,
}
use ieum_agent.Value.{Value, text, dict, end, entry}
use ieum_agent.Value.Text.{◌<>◌, take_text, drop_text, codes}

abbrev pub rich_text_limit : ℕ
rich_text_limit = 2000

-- each round takes at least one character
unfoldable pub chunks_from : ℕ → ℕ → String.String → List String.String
chunks_from limit zero s = List.[]
chunks_from limit (suc fuel) [] = List.[]
chunks_from limit (suc fuel) (c ∷ s) =
    List.◌∷◌ (take_text limit (c ∷ s)) (chunks_from limit fuel (drop_text limit (c ∷ s)))

unfoldable pub chunks : ℕ → String.String → List String.String
unfolding chunks_from
chunks limit s = chunks_from limit (length (codes s)) s

abbrev pub text_segment : String.String → Value
text_segment chunk =
    dict (entry "type" (text "text") (entry "text" (dict (entry "content" (text chunk) end)) end))

unfoldable pub text_segments : String.String → List Value
unfolding chunks
text_segments s = map text_segment (chunks rich_text_limit s)

-- `"".join(parts)`
abbrev pub join : List String.String → String.String
join List.[] = ""
join (List.◌∷◌ s parts) = s <> join parts

take-drop : (n : ℕ) (s : String.String) → take_text n s <> drop_text n s ≡ s
unfolding take_text drop_text
take-drop zero s = nil-append s
take-drop (suc n) [] = nil-append ""
take-drop (suc n) (c ∷ s) =
    cons-append c (take_text n s) (drop_text n s)
    ∙ ap (λ (t : String.String). c ∷ t) (take-drop n s)

length-drop :
    (n : ℕ) (s : String.String) → length (codes (drop_text (suc n) s)) ≤ length (codes s) - 1
unfolding drop_text codes
length-drop n [] = omega arith
length-drop zero (c ∷ s) = omega arith
length-drop (suc n) (c ∷ s) = omega (arith, length-drop n s)

length-take_text : (n : ℕ) (s : String.String) → length (codes (take_text n s)) ≤ n
unfolding take_text codes
length-take_text zero s = omega arith
length-take_text (suc n) [] = omega arith
length-take_text (suc n) (c ∷ s) = omega (arith, length-take_text n s)

join-chunks_from :
    (n fuel : ℕ) (s : String.String)
    → length (codes s) ≤ fuel
    → join (chunks_from (suc n) fuel s) ≡ s
unfolding chunks_from codes
join-chunks_from n zero [] h = refl
join-chunks_from n zero (c ∷ s) h = absurd (omega arith)
join-chunks_from n (suc fuel) [] h = refl
join-chunks_from n (suc fuel) (c ∷ s) h =
    ap (λ (t : String.String). take_text (suc n) (c ∷ s) <> t)
      (join-chunks_from n fuel (drop_text (suc n) (c ∷ s)) (omega (arith, length-drop n (c ∷ s))))
    ∙ take-drop (suc n) (c ∷ s)

-- The pieces, one after the other, are the text, and each has at most 2,000 characters.
pub join-chunks :
    (s : String.String)
    → (join (chunks rich_text_limit s) ≡ s)
      × All (λ t. length (codes t) ≤ rich_text_limit) (chunks rich_text_limit s)
unfolding chunks
join-chunks s =
    (join-chunks_from 1999 (length (codes s)) s (omega arith), short 2000 (length (codes s)) s)
  where
    short :
        (n fuel : ℕ) (s : String.String) → All (λ t. length (codes t) ≤ n) (chunks_from n fuel s)
    short n zero s = tt
    short n (suc fuel) [] = tt
    short n (suc fuel) (c ∷ s) = (length-take_text n (c ∷ s), short n fuel (drop_text n (c ∷ s)))
