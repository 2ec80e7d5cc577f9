-- ===== src/Variables/Sets.antt =====
-- src/Variable.cpp: sets of variables, as vectors of pointers.
mod Count
pub mod Laws
use hipsmith.Prelude.{
  ℕ, zero, suc, ◌+◌, ◌<◌, ◌≤◌, ◌≡◌, Bool, true, false, not, ◌&&◌, ◌||◌, Option, none, some, List,
  [], ◌∷◌, ◌++◌, ◌==◌, leb, if◌then◌else◌, length, elem,
}
use hipsmith.Variables.Store.{Store, matches, is_aggregate}
use mathlib.Core.Option
pub use Count.*

-- The position of the first variable that matches `v`; -1 is `none`.
unfoldable pub find_variable_in_set : Store → List ℕ → ℕ → Option ℕ
find_variable_in_set m [] v = none
find_variable_in_set m (x ∷ xs) v =
    if matches m x v then some 0 else Option.map suc (find_variable_in_set m xs v)

unfoldable pub is_variable_in_set : List ℕ → ℕ → Bool
is_variable_in_set set v = elem v set

-- The set afterwards, and whether it has changed.
unfoldable pub add_variable_to_set : List ℕ → ℕ → List ℕ × Bool
unfolding is_variable_in_set
add_variable_to_set set v =
    if not (is_variable_in_set set v) then (set ++ v ∷ [], true) else (set, false)

unfoldable pub add_variables_to_set : List ℕ → List ℕ → List ℕ × Bool
unfolding add_variable_to_set
add_variables_to_set set [] = (set, false)
add_variables_to_set set (v ∷ vs) =
    let one = add_variable_to_set set v in
    let rest = add_variables_to_set one.0 vs in (rest.0, one.1 || rest.1)

-- The loop of the two tests below.
unfoldable pub all_in_set : List ℕ → List ℕ → Bool
unfolding is_variable_in_set
all_in_set [] set2 = true
all_in_set (x ∷ set1) set2 = if not (is_variable_in_set set2 x) then false else all_in_set set1 set2

unfoldable pub equal_variable_sets : List ℕ → List ℕ → Bool
unfolding all_in_set
equal_variable_sets set1 set2 = if length set1 == length set2 then all_in_set set1 set2 else false

unfoldable pub sub_variable_sets : List ℕ → List ℕ → Bool
unfolding all_in_set
sub_variable_sets set1 set2 =
    if leb (length set1) (length set2) then all_in_set set1 set2 else false

-- The loop of `combine_variable_sets`: what is added to a copy of the first set.
unfoldable pub not_matched : Store → List ℕ → List ℕ → List ℕ
unfolding find_variable_in_set
not_matched m set1 [] = []
not_matched m set1 (v ∷ vs) = elim (find_variable_in_set m set1 v) [
  | none ↦ v ∷ not_matched m set1 vs
  | some i ↦ not_matched m set1 vs
]

unfoldable pub combine_variable_sets : Store → List ℕ → List ℕ → List ℕ
unfolding not_matched
combine_variable_sets m set1 set2 = set1 ++ not_matched m set1 set2
