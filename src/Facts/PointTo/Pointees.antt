-- ===== src/Facts/PointTo/Pointees.antt =====
-- src/FactPointTo.cpp: the variables that pointers reach, and whether a pointer is valid.
use hipsmith.Prelude.{
  ℕ, ◌≡◌, refl, Bool, true, false, ◌&&◌, ◌||◌, none, some, List, [], ◌∷◌, leb, if◌then◌else◌, elem,
  arith, Bool-cases, Option-cases, inl, inr,
}
use hipsmith.Variables.Store.{Store}
use hipsmith.Variables.Sets.{NoDup, add_variables_to_set}
use hipsmith.Variables.Sets.Laws.{elem-add_variables_to_set, NoDup-add_variables_to_set}
use hipsmith.Facts.Defs.{Fact}
use hipsmith.Facts.PointTo.{
  Specials, Risks, is_special_ptr, fact_of, is_valid_ptr, is_dangling_ptr, opportunistic_validate,
  point_to_vars, merge_pointees_from, merge_pointees_of_pointers,
}

abbrev pub no_risk : Risks
no_risk = record { null_pointer_dereference_prob = 0; dead_pointer_dereference_prob = 0 }

module _ (m : Store) (s : Specials) (facts : List Fact) where
  -- Where neither flip of a coin overlooks the check, a pointer that is to be dereferenced passes
  -- `opportunistic_validate` exactly if `is_valid_ptr` holds of it without any risk, and then it is
  -- not dangling.
  pub opportunistic_validate_iff :
      (v level type_level : ℕ)
      → (opportunistic_validate m s false false facts v level type_level ≡ (
          if leb level type_level
          then 1
          else if is_valid_ptr m s no_risk facts (m.collective v)
          then 1
          else 0))
        × (is_valid_ptr m s no_risk facts (m.collective v)
              && is_dangling_ptr m s no_risk facts (m.collective v)
            ≡ false)
  unfolding opportunistic_validate is_valid_ptr is_dangling_ptr
  opportunistic_validate_iff v level type_level =
      elim (Option-cases (fact_of m s facts (m.collective v))) [
        | inl e ↦ ground (arith, e)
        | inr (f, e) ↦ ground (arith, e)
      ]

  -- Every pointer that is not special has a fact.
  unfoldable pub all_known : List ℕ → Bool
  unfolding is_special_ptr fact_of
  all_known [] = true
  all_known (p ∷ ptrs) =
      (is_special_ptr s p || elim (fact_of m s facts p) [ none ↦ false | some f ↦ true ])
      && all_known ptrs

  -- What the facts say that one pointer may point to.
  unfoldable pub pointees : ℕ → List ℕ
  unfolding is_special_ptr fact_of point_to_vars
  pointees p =
      if is_special_ptr s p
      then []
      else elim (fact_of m s facts p) [ none ↦ [] | some f ↦ point_to_vars f ]

  unfoldable pub reached : ℕ → List ℕ → Bool
  unfolding pointees
  reached a [] = false
  reached a (p ∷ ptrs) = elem a (pointees p) || reached a ptrs

  merge_pointees_from_all :
      (acc ptrs : List ℕ)
      → NoDup acc
      → all_known ptrs ≡ true
      → (r : List ℕ) × (merge_pointees_from m s facts acc ptrs ≡ some r)
        × NoDup r
        × ((a : ℕ) → elem a r ≡ elem a acc || reached a ptrs)
  unfolding merge_pointees_from all_known reached pointees
  merge_pointees_from_all acc [] d k = (acc, refl, d, λ a. ground arith)
  merge_pointees_from_all acc (p ∷ ptrs) d k = elim (Bool-cases (is_special_ptr s p)) [
    | inl e ↦
        let (r, eq, dr, el) = merge_pointees_from_all acc ptrs d (ground (arith, k)) in
        (r, ground (arith, e, eq), dr, λ a. ground (arith, e, el a))
    | inr e ↦ elim (Option-cases (fact_of m s facts p)) [
      | inl n ↦ absurd (ground (arith, e, n, k))
      | inr (f, h) ↦
          let acc' = (add_variables_to_set acc (point_to_vars f)).0 in
          let (r, eq, dr, el) =
            merge_pointees_from_all acc' ptrs (NoDup-add_variables_to_set acc (point_to_vars f) d)
              (ground (arith, k)) in
          (
            r,
            ground (arith, e, h, eq),
            dr,
            λ a. ground (arith, e, h, el a, elem-add_variables_to_set a acc (point_to_vars f)),
          )
    ]
  ]

  -- Where every pointer that is not special has a fact, `merge_pointees_of_pointers` meets no failing
  -- assertion, and gives exactly the variables that some of the pointers may point to, each once.
  pub merge_pointees_of_pointers_all :
      (ptrs : List ℕ)
      → all_known ptrs ≡ true
      → (r : List ℕ) × (merge_pointees_of_pointers m s facts ptrs ≡ some r)
        × NoDup r
        × ((a : ℕ) → elem a r ≡ reached a ptrs)
  unfolding merge_pointees_of_pointers
  merge_pointees_of_pointers_all ptrs k = merge_pointees_from_all [] ptrs tt k
