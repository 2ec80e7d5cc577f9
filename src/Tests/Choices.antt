-- ===== src/Tests/Choices.antt =====
-- Weighted and filtered choices at small inputs.
use hipsmith.Prelude.{ℕ, ◌≡◌, refl, true, false, some, none, [], ◌∷◌, ltb, if◌then◌else◌, arith}
use hipsmith.Choices.Distribution.{
  DistributionTable, IsDistribution, key_to_prob, rnd_num_to_key, sum,
}
use hipsmith.Choices.Distribution.Shares.{hits, hits-rnd_num_to_key}
use hipsmith.Choices.Table.{ProbabilityTable, empty_table, add_elem, get_value}
use hipsmith.Choices.Table.Sorted.{IsTable, add_elem-IsTable, get_value_iff, last_key}
use hipsmith.Choices.Filter.{Mode, VectorFilter}

-- The key 7 with probability 3 and the key 9 with probability 2.
abbrev shares : DistributionTable
shares = record { max_prob = 5; keys = 7 ∷ 9 ∷ []; probs = 3 ∷ 2 ∷ [] }

shares-IsDistribution : IsDistribution shares
unfolding sum
shares-IsDistribution = record { paired = refl; summed = refl }

draws_run : (rnd_num_to_key shares 2 ≡ some 7) × (rnd_num_to_key shares 3 ≡ some 9)
unfolding rnd_num_to_key
draws_run = (refl, refl)

hits-rnd_num_to_key_example : hits (rnd_num_to_key shares) 9 0 5 ≡ key_to_prob shares 9
hits-rnd_num_to_key_example = hits-rnd_num_to_key shares 9 shares-IsDistribution (refl, (refl, tt))

abbrev sorted_table : ProbabilityTable
sorted_table = record {
  curr_max_key = 30;
  table = record { key = 10; value = 1 } ∷ record { key = 30; value = 2 } ∷ [];
}

sorted_table-IsTable : IsTable sorted_table
unfolding last_key
sorted_table-IsTable = record { sorted = (omega arith, (omega arith, tt)); maximal = refl }

values_run :
    (get_value (add_elem sorted_table 20 5) 10 ≡ some 5) × (get_value sorted_table 30 ≡ none)
unfolding get_value add_elem
values_run = (refl, refl)

add_elem-IsTable_example : IsTable empty_table × IsTable (add_elem sorted_table 20 5)
add_elem-IsTable_example = add_elem-IsTable sorted_table 20 5 sorted_table-IsTable

get_value_iff_example : (v : ℕ) × (get_value sorted_table 20 ≡ (if ltb 20 30 then some v else none))
get_value_iff_example = get_value_iff sorted_table 20 sorted_table-IsTable

abbrev mode : Mode
mode = record { random_based = true; dfs_exhaustive = false }

abbrev vector_filter : VectorFilter
vector_filter = record {
  kinds = record { for_default = true; for_dfs = true };
  vs = 7 ∷ [];
  ptable = some shares;
  filter_out = true;
}
