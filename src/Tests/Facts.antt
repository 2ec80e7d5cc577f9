-- ===== src/Tests/Facts.antt =====
-- The facts at small inputs.
use hipsmith.Prelude.{◌≡◌, refl, ◌↔◌, ◌⊎◌, true, false, not, List, [], ◌∷◌}
use hipsmith.Prelude.Int.{pos}
use hipsmith.Variables.Sets.{add_variables_to_set, sub_variable_sets, equal_variable_sets}
use hipsmith.Facts.Defs.{Fact, point_to, union_write, is_related, imply, join, bottom}
use hipsmith.Facts.Lattice.{imply-join}
use hipsmith.Facts.Env.{
  find_related_fact, merge_facts, renew_facts, combine_facts, all_covered, AllWf,
}
use hipsmith.Facts.Env.Merge.{merge_facts_changed, merge_facts_idem}
use hipsmith.Facts.Env.Unique.{Unique, env-Unique}

-- The pointer 5 may point to 1 or 2, or to 2 or 3.
abbrev one_two : Fact
one_two = point_to 5 (1 ∷ 2 ∷ [])

abbrev two_three : Fact
two_three = point_to 5 (2 ∷ 3 ∷ [])

abbrev env : List Fact
env = one_two ∷ union_write 6 (pos 0) ∷ []

abbrev news : List Fact
news = union_write 6 (pos 1) ∷ two_three ∷ []

join_runs : join one_two two_three ≡ (point_to 5 (1 ∷ 2 ∷ 3 ∷ []), true)
unfolding join add_variables_to_set
join_runs = refl

merge_runs : merge_facts env news ≡ (point_to 5 (2 ∷ 3 ∷ 1 ∷ []) ∷ union_write 6 bottom ∷ [], true)
unfolding merge_facts imply is_related join sub_variable_sets add_variables_to_set
merge_runs = refl

imply-join_example : (imply (point_to 5 (1 ∷ 2 ∷ 3 ∷ [])) (join one_two two_three).0 ≡ true) ↔ (
    (imply (point_to 5 (1 ∷ 2 ∷ 3 ∷ [])) one_two ≡ true)
    × (imply (point_to 5 (1 ∷ 2 ∷ 3 ∷ [])) two_three ≡ true))
unfolding is_related
imply-join_example =
    imply-join one_two two_three (point_to 5 (1 ∷ 2 ∷ 3 ∷ [])) (refl, (refl, tt)) (refl, (refl, tt))
      refl

abbrev env-AllWf : AllWf env
env-AllWf = ((refl, (refl, tt)), (tt, tt))

abbrev news-AllWf : AllWf news
news-AllWf = (tt, ((refl, (refl, tt)), tt))

merge_facts_changed_example :
    ((merge_facts env news).1 ≡ not (all_covered news env))
    × (((merge_facts env news).0 ≡ env) ⊎ ((merge_facts env news).1 ≡ true))
merge_facts_changed_example = merge_facts_changed env news

merge_facts_idem_example :
    merge_facts (merge_facts env news).0 news ≡ ((merge_facts env news).0, false)
merge_facts_idem_example = merge_facts_idem env news env-AllWf news-AllWf

env-Unique_example :
    Unique (merge_facts env news).0
    × Unique (renew_facts env news).0
    × Unique (combine_facts 9 env news)
unfolding find_related_fact is_related
env-Unique_example = env-Unique 9 env news (refl, (refl, tt))

-- The sizes are compared first, and a set with a duplicate deceives the test.
duplicates_deceive : equal_variable_sets (1 ∷ 1 ∷ []) (1 ∷ 2 ∷ []) ≡ true
unfolding equal_variable_sets
duplicates_deceive = refl
