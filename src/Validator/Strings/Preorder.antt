-- ===== src/Validator/Strings/Preorder.antt =====
-- The stack gives the texts in the order of the recursion that it replaces.
use ieum_agent.Base.{ℕ, zero, suc, ◌+◌, ◌≤◌, ◌≡◌, refl, ap, ◌∙◌, String, List, [], ◌∷◌, ◌++◌, arith}
use mathlib.Core.List.{append_assoc, append-nil}
use ieum_agent.Value.{
  Value, null, bool, int, float, text, list, dict, Values, nil, cons, Entries, end, entry,
}
use ieum_agent.Value.Text.{show}
use ieum_agent.Validator.Strings.{
  Place, at, push_entries, push_values, pop_all, size, size_values, size_entries, iter_strings,
}

-- The texts of a value in preorder, by recursion.
unfoldable mutual
  pub strings : String → Value → List (String × String)
  strings loc (text s) = (loc, s) ∷ []
  strings loc (list vs) = value_strings loc 0 vs
  strings loc (dict es) = entry_strings loc es
  strings loc v = []

  pub value_strings : String → ℕ → Values → List (String × String)
  value_strings loc i nil = []
  value_strings loc i (cons v vs) = strings (at loc (show i)) v ++ value_strings loc (i + 1) vs

  pub entry_strings : String → Entries → List (String × String)
  entry_strings loc end = []
  entry_strings loc (entry k v es) = strings (at loc k) v ++ entry_strings loc es

abbrev stack_size : List Place → ℕ
stack_size [] = 0
stack_size ((loc, v) ∷ stack) = size v + stack_size stack

abbrev stack_strings : List Place → List (String × String)
stack_strings [] = []
stack_strings ((loc, v) ∷ stack) = strings loc v ++ stack_strings stack

stack_size-push_entries :
    (loc : String) (es : Entries) (stack : List Place)
    → stack_size (push_entries loc es stack) ≡ size_entries es + stack_size stack
unfolding push_entries size
stack_size-push_entries loc end stack = omega arith
stack_size-push_entries loc (entry k v es) stack =
    omega (arith, stack_size-push_entries loc es stack)

stack_size-push_values :
    (loc : String) (i : ℕ) (vs : Values) (stack : List Place)
    → stack_size (push_values loc i vs stack) ≡ size_values vs + stack_size stack
unfolding push_values size
stack_size-push_values loc i nil stack = omega arith
stack_size-push_values loc i (cons v vs) stack =
    omega (arith, stack_size-push_values loc (i + 1) vs stack)

stack_strings-push_entries :
    (loc : String) (es : Entries) (stack : List Place)
    → stack_strings (push_entries loc es stack) ≡ entry_strings loc es ++ stack_strings stack
unfolding push_entries strings
stack_strings-push_entries loc end stack = refl
stack_strings-push_entries loc (entry k v es) stack =
    simp (stack_strings-push_entries loc es stack, append_assoc)

stack_strings-push_values :
    (loc : String) (i : ℕ) (vs : Values) (stack : List Place)
    → stack_strings (push_values loc i vs stack) ≡ value_strings loc i vs ++ stack_strings stack
unfolding push_values strings
stack_strings-push_values loc i nil stack = refl
stack_strings-push_values loc i (cons v vs) stack =
    simp (stack_strings-push_values loc (i + 1) vs stack, append_assoc)

size_pos : (v : Value) → 1 ≤ size v
unfolding size
size_pos null = omega arith
size_pos (bool b) = omega arith
size_pos (int n) = omega arith
size_pos (float x) = omega arith
size_pos (text s) = omega arith
size_pos (list vs) = omega arith
size_pos (dict es) = omega arith

pop_all-eq :
    (fuel : ℕ) (stack : List Place)
    → stack_size stack ≤ fuel
    → pop_all fuel stack ≡ stack_strings stack
unfolding pop_all strings size
pop_all-eq zero [] h = refl
pop_all-eq zero ((loc, v) ∷ stack) h = absurd (omega (arith, size_pos v))
pop_all-eq (suc fuel) [] h = refl
pop_all-eq (suc fuel) ((loc, text s) ∷ stack) h =
    ap (λ l. (loc, s) ∷ l) (pop_all-eq fuel stack (omega arith))
pop_all-eq (suc fuel) ((loc, dict es) ∷ stack) h =
    pop_all-eq fuel (push_entries loc es stack)
      (omega (arith, stack_size-push_entries loc es stack))
    ∙ stack_strings-push_entries loc es stack
pop_all-eq (suc fuel) ((loc, list vs) ∷ stack) h =
    pop_all-eq fuel (push_values loc 0 vs stack)
      (omega (arith, stack_size-push_values loc 0 vs stack))
    ∙ stack_strings-push_values loc 0 vs stack
pop_all-eq (suc fuel) ((loc, null) ∷ stack) h = pop_all-eq fuel stack (omega arith)
pop_all-eq (suc fuel) ((loc, bool b) ∷ stack) h = pop_all-eq fuel stack (omega arith)
pop_all-eq (suc fuel) ((loc, int n) ∷ stack) h = pop_all-eq fuel stack (omega arith)
pop_all-eq (suc fuel) ((loc, float x) ∷ stack) h = pop_all-eq fuel stack (omega arith)

-- The loop ends with every text of the value, each once and at its place, in the order in which a
-- recursion over the value meets them.
pub iter_strings-eq-strings : (v : Value) (path : String) → iter_strings v path ≡ strings path v
unfolding iter_strings
iter_strings-eq-strings v path =
    pop_all-eq (size v) ((path, v) ∷ []) (omega arith) ∙ append-nil (strings path v)
