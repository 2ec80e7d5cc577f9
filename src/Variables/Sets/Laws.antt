-- ===== src/Variables/Sets/Laws.antt =====
-- What the set operations of src/Variable.cpp compute.
use hipsmith.Prelude.{
  ℕ, ◌≡◌, ◌↔◌, refl, true, not, ◌||◌, List, [], ◌∷◌, ◌==◌, elem, arith, Bool-cases, inl, inr,
}
use hipsmith.Variables.Sets.{
  NoDup, Included, length-Included, Included-full, elem-append, NoDup-snoc, add_variable_to_set,
  add_variables_to_set, all_in_set, equal_variable_sets, sub_variable_sets,
}

pub elem-add_variable_to_set :
    (a v : ℕ) (set : List ℕ) → elem a (add_variable_to_set set v).0 ≡ elem a set || v == a
unfolding add_variable_to_set
elem-add_variable_to_set a v set = elim (Bool-cases (elem v set)) [
  | inl e ↦ rw e (elim (Bool-cases (v == a)) [
    | inl s ↦ let same : v ≡ a = ground (arith, s) in ground (arith, s, rw same at e)
    | inr n ↦ ground (arith, n)
  ])
  | inr e ↦ rw e (ground (arith, elem-append a set (v ∷ [])))
]

pub elem-add_variables_to_set :
    (a : ℕ) (set vs : List ℕ) → elem a (add_variables_to_set set vs).0 ≡ elem a set || elem a vs
unfolding add_variables_to_set
elem-add_variables_to_set a set [] = ground arith
elem-add_variables_to_set a set (v ∷ vs) = ground (
  arith,
  elem-add_variables_to_set a (add_variable_to_set set v).0 vs,
  elem-add_variable_to_set a v set,
)

NoDup-add_variable_to_set : (set : List ℕ) (v : ℕ) → NoDup set → NoDup (add_variable_to_set set v).0
unfolding add_variable_to_set
NoDup-add_variable_to_set set v d = elim (Bool-cases (elem v set)) [
  | inl e ↦ rw e d
  | inr e ↦ rw e (NoDup-snoc set v d e)
]

pub NoDup-add_variables_to_set :
    (set vs : List ℕ) → NoDup set → NoDup (add_variables_to_set set vs).0
unfolding add_variables_to_set
NoDup-add_variables_to_set set [] d = d
NoDup-add_variables_to_set set (v ∷ vs) d =
    NoDup-add_variables_to_set (add_variable_to_set set v).0 vs (NoDup-add_variable_to_set set v d)

pub all_in_set_iff : (xs ys : List ℕ) → (all_in_set xs ys ≡ true) ↔ Included xs ys
unfolding all_in_set
all_in_set_iff [] ys = (λ h a e. cc, λ h. refl)
all_in_set_iff (x ∷ xs) ys = (
  λ h a e. elim (Bool-cases (x == a)) [
    | inl s ↦ let same : x ≡ a = ground (arith, s) in rw (← same) (ground (arith, h))
    | inr n ↦ (all_in_set_iff xs ys).0 (ground (arith, h)) a (ground (arith, e, n))
  ],
  λ i.
      ground (arith, i x (ground arith), (all_in_set_iff xs ys).1 (λ a e. i a (ground (arith, e)))),
)

-- For sets without duplicates `sub_variable_sets` decides inclusion.
pub sub_variable_sets_iff :
    (xs ys : List ℕ) → NoDup xs → (sub_variable_sets xs ys ≡ true) ↔ Included xs ys
unfolding sub_variable_sets
sub_variable_sets_iff xs ys d = (
  λ h. (all_in_set_iff xs ys).0 (ground (arith, h)),
  λ i. ground (arith, (all_in_set_iff xs ys).1 i, length-Included xs ys d i),
)

-- For sets without duplicates `equal_variable_sets` decides whether they have the same members.
pub equal_variable_sets_iff :
    (xs ys : List ℕ)
    → NoDup xs
    → NoDup ys
    → (equal_variable_sets xs ys ≡ true) ↔ (Included xs ys × Included ys xs)
unfolding equal_variable_sets
equal_variable_sets_iff xs ys d e = (
  λ h.
      let i = (all_in_set_iff xs ys).0 (ground (arith, h)) in
      (i, Included-full xs ys d i (ground (arith, h))),
  λ i. ground (
    arith,
    (all_in_set_iff xs ys).1 i.0,
    length-Included xs ys d i.0,
    length-Included ys xs e i.1,
  ),
)

-- `add_variables_to_set` reports a change exactly when some variable was not in the set.
pub add_variables_to_set_changed :
    (set vs : List ℕ) → (add_variables_to_set set vs).1 ≡ not (all_in_set vs set)
unfolding add_variables_to_set all_in_set
add_variables_to_set_changed set [] = refl
add_variables_to_set_changed set (v ∷ vs) = elim (Bool-cases (elem v set)) [
  | inl e ↦ rw e (add_variables_to_set_changed set vs)
  | inr e ↦ rw e refl
]
