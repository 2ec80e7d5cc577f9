-- ===== src/Facts/Env/Unique.antt =====
-- src/Fact.cpp: an environment keeps one fact for each variable and kind, and the others' facts.
use hipsmith.Prelude.{
  ℕ, ◌≡◌, refl, ◌∙◌, true, false, List, [], ◌∷◌, none, ◌==◌, arith, Bool-cases, inl, inr,
}
use hipsmith.Facts.Defs.{
  Fact, point_to, union_write, is_related, imply, join, join_visits, equal, is_tbd_only,
}
use hipsmith.Facts.Env.{
  find_related_fact, merge_fact, merge_facts, renew_fact, renew_facts, combine_fact, combine_facts,
}
use hipsmith.Facts.Env.Related.{
  is_related_refl, is_related_comm, is_related_same, is_related-join, is_related_set,
}

-- No fact of the list is related to another one.
abbrev pub Unique : List Fact → Type 0
Unique [] = Unit
Unique (f ∷ facts) = (find_related_fact facts f ≡ none) × Unique facts

find_related_fact_same :
    (facts : List Fact) (x y : Fact)
    → is_related x y ≡ true
    → find_related_fact facts x ≡ find_related_fact facts y
unfolding find_related_fact
find_related_fact_same [] x y r = refl
find_related_fact_same (f ∷ facts) x y r = ground (
  arith,
  find_related_fact_same facts x y r,
  is_related_same x y f r,
  is_related_comm f x,
  is_related_comm f y,
)

is_related-join_visits :
    (tbd : ℕ) (f g x : Fact) → is_related x (join_visits tbd f g).0 ≡ is_related x f
unfolding join_visits
is_related-join_visits tbd (point_to v xs) (point_to w ys) x = elim (Bool-cases (v == w)) [
  | inl e ↦ elim (Bool-cases (is_tbd_only tbd ys)) [
    | inl t ↦ rw (e, t) refl
    | inr n ↦ rw (e, n) (is_related_set v _ xs x)
  ]
  | inr e ↦ rw e refl
]
is_related-join_visits tbd (point_to v xs) (union_write w b) x = refl
is_related-join_visits tbd (union_write v a) g x = is_related-join (union_write v a) g x

-- Merging and renewing a fact leave what is known of other variables and kinds as it was.
pub find_related_fact_other :
    (facts : List Fact) (f x : Fact)
    → is_related x f ≡ false
    → (find_related_fact (merge_fact facts f).0 x ≡ find_related_fact facts x)
      × (find_related_fact (renew_fact facts f).0 x ≡ find_related_fact facts x)
unfolding find_related_fact merge_fact renew_fact
find_related_fact_other [] f x n = (ground (arith, n), ground (arith, n))
find_related_fact_other (g ∷ facts) f x n =
    let rest = find_related_fact_other facts f x n in
    elim (Bool-cases (is_related g f)) [
      | inl r ↦
          let same = is_related_same g f x r in
          (
            ground (arith, r, n, same, is_related-join f g x),
            ground (arith, r, n, same, is_related_comm f g),
          )
      | inr d ↦ (ground (arith, d, rest.0), ground (arith, d, is_related_comm f g, rest.1))
    ]

merge_fact-Unique : (facts : List Fact) (f : Fact) → Unique facts → Unique (merge_fact facts f).0
unfolding merge_fact
merge_fact-Unique [] f u = (unfold find_related_fact in refl, tt)
merge_fact-Unique (g ∷ facts) f u = elim (Bool-cases (is_related g f)) [
  | inl r ↦ elim (Bool-cases (imply g f)) [
    | inl i ↦ rw (r, i) u
    | inr n ↦
        let same : is_related (join f g).0 g ≡ true =
          is_related_comm (join f g).0 g ∙ is_related-join f g g ∙ r in
        rw (r, n) (find_related_fact_same facts (join f g).0 g same ∙ u.0, u.1)
  ]
  | inr d ↦ rw d ((find_related_fact_other facts f g d).0 ∙ u.0, merge_fact-Unique facts f u.1)
]

renew_fact-Unique : (facts : List Fact) (f : Fact) → Unique facts → Unique (renew_fact facts f).0
unfolding renew_fact
renew_fact-Unique [] f u = (unfold find_related_fact in refl, tt)
renew_fact-Unique (g ∷ facts) f u = elim (Bool-cases (is_related f g)) [
  | inl r ↦ elim (Bool-cases (equal f g)) [
    | inl i ↦ rw (r, i) u
    | inr n ↦ rw (r, n) (find_related_fact_same facts f g r ∙ u.0, u.1)
  ]
  | inr d ↦ rw d (
    (find_related_fact_other facts f g (is_related_comm g f ∙ d)).1 ∙ u.0,
    renew_fact-Unique facts f u.1,
  )
]

find_related_fact-combine_fact :
    (tbd : ℕ) (facts : List Fact) (f x : Fact)
    → find_related_fact facts x ≡ none
    → find_related_fact (combine_fact tbd facts f) x ≡ none
unfolding find_related_fact combine_fact
find_related_fact-combine_fact tbd [] f x e = refl
find_related_fact-combine_fact tbd (g ∷ facts) f x e =
    ground
      (arith, e, is_related-join_visits tbd g f x, find_related_fact-combine_fact tbd facts f x)

combine_fact-Unique :
    (tbd : ℕ) (facts : List Fact) (f : Fact) → Unique facts → Unique (combine_fact tbd facts f)
unfolding combine_fact
combine_fact-Unique tbd [] f u = tt
combine_fact-Unique tbd (g ∷ facts) f u = elim (Bool-cases (is_related g f)) [
  | inl r ↦
      let j = (join_visits tbd g f).0 in
      let same : is_related j g ≡ true =
        is_related_comm j g ∙ is_related-join_visits tbd g f g ∙ is_related_refl g in
      rw r (find_related_fact_same facts j g same ∙ u.0, u.1)
  | inr d ↦
      rw d (find_related_fact-combine_fact tbd facts f g u.0, combine_fact-Unique tbd facts f u.1)
]

merge_facts-Unique : (fs gs : List Fact) → Unique fs → Unique (merge_facts fs gs).0
unfolding merge_facts
merge_facts-Unique fs [] h = h
merge_facts-Unique fs (g ∷ gs) h =
    merge_facts-Unique (merge_fact fs g).0 gs (merge_fact-Unique fs g h)

renew_facts-Unique : (fs gs : List Fact) → Unique fs → Unique (renew_facts fs gs).0
unfolding renew_facts
renew_facts-Unique fs [] h = h
renew_facts-Unique fs (g ∷ gs) h =
    renew_facts-Unique (renew_fact fs g).0 gs (renew_fact-Unique fs g h)

combine_facts-Unique : (tbd : ℕ) (fs gs : List Fact) → Unique fs → Unique (combine_facts tbd fs gs)
unfolding combine_facts
combine_facts-Unique tbd fs [] h = h
combine_facts-Unique tbd fs (g ∷ gs) h =
    combine_facts-Unique tbd (combine_fact tbd fs g) gs (combine_fact-Unique tbd fs g h)

-- Merging, renewing and combining keep one fact for each variable and kind.
pub env-Unique :
    (tbd : ℕ) (facts new_facts : List Fact)
    → Unique facts
    → Unique (merge_facts facts new_facts).0
      × Unique (renew_facts facts new_facts).0
      × Unique (combine_facts tbd facts new_facts)
env-Unique tbd facts new_facts u = (
  merge_facts-Unique facts new_facts u,
  renew_facts-Unique facts new_facts u,
  combine_facts-Unique tbd facts new_facts u,
)
