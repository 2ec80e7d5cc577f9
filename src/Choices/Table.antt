-- ===== src/Choices/Table.antt =====
-- src/ProbabilityTable.h: the entries of a table, sorted by their keys; a failing assertion is
-- `none`.
pub mod Sorted
use hipsmith.Prelude.{
  ℕ, ◌≡◌, Bool, true, false, not, Option, none, some, List, [], ◌∷◌, ltb, if◌then◌else◌,
}

pub record TableEntry : Type 0 where
  pub key : ℕ
  pub value : ℕ

pub record ProbabilityTable : Type 0 where
  pub curr_max_key : ℕ
  pub table : List TableEntry

unfoldable pub empty_table : ProbabilityTable
empty_table = record { curr_max_key = 0; table = [] }

-- Before the first entry with a greater key, or at the end.
unfoldable pub insert_before : TableEntry → List TableEntry → List TableEntry
insert_before t [] = t ∷ []
insert_before t (x ∷ xs) = if ltb t.key x.key then t ∷ x ∷ xs else x ∷ insert_before t xs

-- Whether the loop of `sorted_insert` finds an entry with a greater key.
unfoldable pub has_greater : ℕ → List TableEntry → Bool
has_greater k [] = false
has_greater k (x ∷ xs) = if ltb k x.key then true else has_greater k xs

unfoldable pub sorted_insert : ProbabilityTable → TableEntry → ProbabilityTable
unfolding insert_before has_greater
sorted_insert p t = record {
  curr_max_key = if has_greater t.key p.table then p.curr_max_key else t.key;
  table = insert_before t p.table;
}

unfoldable pub add_elem : ProbabilityTable → ℕ → ℕ → ProbabilityTable
unfolding sorted_insert
add_elem p k v = sorted_insert p (record { key = k; value = v })

-- The value of the first entry with a greater key.
unfoldable pub first_greater : ℕ → List TableEntry → Option ℕ
first_greater k [] = none
first_greater k (x ∷ xs) = if ltb k x.key then some x.value else first_greater k xs

unfoldable pub get_value : ProbabilityTable → ℕ → Option ℕ
unfolding first_greater
get_value p k = if ltb k p.curr_max_key then first_greater k p.table else none
