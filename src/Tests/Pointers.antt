-- ===== src/Tests/Pointers.antt =====
-- Points-to sets and unions at small inputs.
use hipsmith.Prelude.{
  ℕ, ◌+◌, ◌⊎◌, inl, inr, Bool-cases, arith, ◌≡◌, ◌↔◌, refl, ◌&&◌, ◌||◌, not, true, false, Bool,
  Option, some, none, List, [], ◌∷◌, ◌==◌, leb, if◌then◌else◌, elem,
}
use hipsmith.Prelude.Int.{pos}
use hipsmith.Variables.Store.{
  Store, TypeDesc, simple, pointer, union, IsStore, is_union, has_type, matches, is_aggregate,
}
use hipsmith.Variables.Sets.{NoDup}
use hipsmith.Facts.Defs.{Fact, point_to, union_write, imply, top, is_related}
use hipsmith.Facts.Env.{find_related_fact}
use hipsmith.Facts.PointTo.{
  Specials, mark_func_end, mark_dead_var, is_valid_ptr, is_dangling_ptr, opportunistic_validate,
  merge_pointees_of_pointer, merge_pointees_of_pointers, update_ptr_aliases,
}
use hipsmith.Facts.PointTo.Marked.{any_of, count, after_func_end, elem-mark_func_end}
use hipsmith.Facts.PointTo.Pointees.{
  no_risk, all_known, reached, opportunistic_validate_iff, merge_pointees_of_pointers_all,
}
use hipsmith.Facts.Unions.{is_nonreadable_field, join_var_facts, set_var}
use hipsmith.Facts.Unions.Readable.{union_field, is_nonreadable_field_iff}
use hipsmith.Facts.Unions.Joined.{imply-join_var_facts}

-- Variable 0 is a union with the fields 1 and 2; 3 and 4 are pointers; 5, 6 and 7 are special.
abbrev type_of : ℕ → Option TypeDesc
type_of v =
    if v == 0
    then some union
    else if leb v 2
    then some simple
    else if leb v 4
    then some pointer
    else none

abbrev field_of : ℕ → Option ℕ
field_of v = if (v == 1) || (v == 2) then some 0 else none

abbrev fields_of : ℕ → List ℕ
fields_of v = if v == 0 then 1 ∷ 2 ∷ [] else []

abbrev store : Store
store = record {
  type = type_of;
  field_var_of = field_of;
  field_vars = fields_of;
  collective = λ v. v;
  is_array = λ v. false;
  is_global = λ v. true;
  is_const = λ v. false;
  is_volatile = λ v. false;
  is_access_once = λ v. false;
}

abbrev specials : Specials
specials = record { null_ptr = 5; garbage_ptr = 6; tbd_ptr = 7 }

abbrev env : List Fact
env = point_to 3 (4 ∷ 5 ∷ []) ∷ point_to 4 (1 ∷ 2 ∷ []) ∷ union_write 0 (pos 1) ∷ []

-- The two fields leave the stack.
abbrev on_stack : ℕ → Bool
on_stack v = (v == 1) || (v == 2)

func_end_runs :
    mark_func_end store specials on_stack 3 (1 ∷ 4 ∷ 2 ∷ []) ≡ some (point_to 3 (6 ∷ 4 ∷ []))
unfolding mark_func_end matches
func_end_runs = refl

dead_var_runs :
    mark_dead_var store specials (λ vars v. none) 3 (1 ∷ 4 ∷ []) 4 ≡ some (point_to 3 (1 ∷ 6 ∷ []))
unfolding mark_dead_var matches is_aggregate
dead_var_runs = refl

pointees_run : merge_pointees_of_pointer store specials env 3 2 ≡ some (1 ∷ 2 ∷ [])
unfolding merge_pointees_of_pointer is_related
pointees_run = refl

aliases_run :
    update_ptr_aliases store
      (point_to 3 (4 ∷ []) ∷ point_to 3 (4 ∷ 1 ∷ []) ∷ [])
      (record { ptrs = []; aliases = [] })
    ≡ record { ptrs = 3 ∷ []; aliases = (4 ∷ 1 ∷ []) ∷ [] }
unfolding update_ptr_aliases matches is_aggregate
aliases_run = refl

elem-mark_func_end_example :
    (elem 6 (after_func_end (1 ∷ 4 ∷ []) (mark_func_end store specials on_stack 3 (1 ∷ 4 ∷ []))) ≡ (
      if 6 == 6
      then elem 6 (1 ∷ 4 ∷ []) || any_of on_stack (1 ∷ 4 ∷ [])
      else elem 6 (1 ∷ 4 ∷ []) && not (on_stack 6)))
    × ((mark_func_end store specials on_stack 3 (1 ∷ 4 ∷ []) ≡ none)
        ↔ (any_of on_stack (1 ∷ 4 ∷ []) ≡ false))
    × (count 6 (after_func_end (1 ∷ 4 ∷ []) (mark_func_end store specials on_stack 3 (1 ∷ 4 ∷ [])))
        ≡ (if 6 == 6
            then count 6 (1 ∷ 4 ∷ [])
              + (if not (elem 6 (1 ∷ 4 ∷ [])) && any_of on_stack (1 ∷ 4 ∷ []) then 1 else 0)
            else if on_stack 6
            then 0
            else count 6 (1 ∷ 4 ∷ [])))
unfolding has_type
elem-mark_func_end_example = elem-mark_func_end store specials refl on_stack refl 3 6 (1 ∷ 4 ∷ [])

opportunistic_validate_iff_example :
    (opportunistic_validate store specials false false env 4 1 0
      ≡ (if leb 1 0 then 1 else if is_valid_ptr store specials no_risk env 4 then 1 else 0))
    × (is_valid_ptr store specials no_risk env 4 && is_dangling_ptr store specials no_risk env 4
        ≡ false)
opportunistic_validate_iff_example = opportunistic_validate_iff store specials env 4 1 0

merge_pointees_of_pointers_all_example :
    (r : List ℕ) × (merge_pointees_of_pointers store specials env (3 ∷ 4 ∷ 5 ∷ []) ≡ some r)
    × NoDup r
    × ((a : ℕ) → elem a r ≡ reached store specials env a (3 ∷ 4 ∷ 5 ∷ []))
unfolding all_known is_related
merge_pointees_of_pointers_all_example =
    merge_pointees_of_pointers_all store specials env (3 ∷ 4 ∷ 5 ∷ []) refl

field_of-cases : (v u : ℕ) → field_of v ≡ some u → (u ≡ 0) × ((v ≡ 1) ⊎ (v ≡ 2))
field_of-cases v u e = elim (Bool-cases (v == 1)) [
  | inl y ↦ (ground (arith, e, y), inl (ground (arith, y)))
  | inr n ↦ elim (Bool-cases (v == 2)) [
    | inl y ↦ (ground (arith, e, y), inr (ground (arith, y)))
    | inr k ↦ absurd (ground (arith, e, n, k))
  ]
]

store-IsStore : IsStore store
unfolding is_aggregate
store-IsStore = record {
  earlier = λ v u e. let c = field_of-cases v u e in ground (arith, c);
  aggregate = λ v u e. rw (field_of-cases v u e).0 refl;
  typed = λ v u e. elim (field_of-cases v u e).1 [
    | inl y ↦ (simple, rw y refl)
    | inr y ↦ (simple, rw y refl)
  ];
}

is_nonreadable_field_iff_example :
    (is_nonreadable_field store env 2 ≡ false)
    ↔ (find_related_fact env (union_write 0 top) ≡ some (union_write 0 (pos 1)))
unfolding is_union
is_nonreadable_field_iff_example =
    is_nonreadable_field_iff store env 2 2 0 1 store-IsStore (union_field refl refl)
      (refl, (refl, tt)) refl

imply-join_var_facts_example :
    (r : Fact) × (join_var_facts env (3 ∷ 0 ∷ []) ≡ some r)
    × (imply (set_var r 0) (union_write 0 (pos 1)) ≡ true)
unfolding find_related_fact is_related
imply-join_var_facts_example = imply-join_var_facts env (3 ∷ 0 ∷ []) 0 refl refl
