-- ===== src/Validator/Strings.antt =====
-- `_iter_strings` of core/validators/static_validator.py: the texts in a value, each with its place,
-- by a stack in place of recursion.
pub mod Preorder
use ieum_agent.Base.{ℕ, zero, suc, ◌+◌, String, List, [], ◌∷◌, ◌++◌}
use ieum_agent.Value.{
  Value, null, bool, int, float, text, list, dict, Values, nil, cons, Entries, end, entry,
}
use ieum_agent.Value.Text.{◌<>◌, show, take_text}

abbrev pub Place : Type 0
Place = String × Value

abbrev pub max_loc : ℕ
max_loc = 256

-- `f"{loc}.{part}"[:_MAX_LOC]`
unfoldable pub at : String → String → String
unfolding take_text
at loc part = take_text max_loc (loc <> "." <> part)

-- `stack.extend(… for … in reversed(…))`; the top of the stack is the head of the list
unfoldable pub push_entries : String → Entries → List Place → List Place
push_entries loc end stack = stack
push_entries loc (entry k v es) stack = (at loc k, v) ∷ push_entries loc es stack

unfoldable pub push_values : String → ℕ → Values → List Place → List Place
push_values loc i nil stack = stack
push_values loc i (cons v vs) stack = (at loc (show i), v) ∷ push_values loc (i + 1) vs stack

-- `while stack`: each round takes one place, and each value is a place once.
unfoldable pub pop_all : ℕ → List Place → List (String × String)
pop_all zero stack = []
pop_all (suc fuel) [] = []
pop_all (suc fuel) ((loc, text s) ∷ stack) = (loc, s) ∷ pop_all fuel stack
pop_all (suc fuel) ((loc, dict es) ∷ stack) = pop_all fuel (push_entries loc es stack)
pop_all (suc fuel) ((loc, list vs) ∷ stack) = pop_all fuel (push_values loc 0 vs stack)
pop_all (suc fuel) (_ ∷ stack) = pop_all fuel stack

-- The number of values in a value.
unfoldable mutual
  pub size : Value → ℕ
  size (list vs) = suc (size_values vs)
  size (dict es) = suc (size_entries es)
  size v = 1

  pub size_values : Values → ℕ
  size_values nil = 0
  size_values (cons v vs) = size v + size_values vs

  pub size_entries : Entries → ℕ
  size_entries end = 0
  size_entries (entry k v es) = size v + size_entries es

unfoldable pub iter_strings : Value → String → List (String × String)
iter_strings v path = pop_all (size v) ((path, v) ∷ [])
