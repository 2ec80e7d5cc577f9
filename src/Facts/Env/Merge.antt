-- ===== src/Facts/Env/Merge.antt =====
-- src/Fact.cpp: what merging keeps, and when it changes nothing.
use hipsmith.Prelude.{
  ◌≡◌, refl, ap, ◌∙◌, true, false, not, List, [], ◌∷◌, arith, Bool-cases, ◌⊎◌, inl, inr,
}
use hipsmith.Facts.Defs.{Fact, is_related, imply, join, IsWf}
use hipsmith.Facts.Lattice.{join-IsWf}
use hipsmith.Facts.Env.{merge_fact, merge_facts, covers, all_covered, AllWf}
use hipsmith.Facts.Env.Related.{
  is_related_refl, is_related_comm, is_related_same, is_related-join, imply_refl, imply_trans,
  imply-join_both,
}

merge_fact-AllWf :
    (facts : List Fact) (f : Fact) → AllWf facts → IsWf f → AllWf (merge_fact facts f).0
unfolding merge_fact
merge_fact-AllWf [] f h w = (w, tt)
merge_fact-AllWf (g ∷ facts) f h w = elim (Bool-cases (is_related g f)) [
  | inl r ↦ elim (Bool-cases (imply g f)) [
    | inl i ↦ rw (r, i) h
    | inr n ↦ rw (r, n) (join-IsWf f g w (is_related_comm f g ∙ r), h.1)
  ]
  | inr n ↦ rw n (h.0, merge_fact-AllWf facts f h.1 w)
]

-- The fact that was merged is implied by the environment afterwards.
covers-merge_fact_self :
    (facts : List Fact) (f : Fact) → AllWf facts → IsWf f → covers (merge_fact facts f).0 f ≡ true
unfolding covers merge_fact
covers-merge_fact_self [] f h w = ground (arith, is_related_refl f, imply_refl f w)
covers-merge_fact_self (g ∷ facts) f h w = elim (Bool-cases (is_related g f)) [
  | inl r ↦ elim (Bool-cases (imply g f)) [
    | inl i ↦ ground (arith, r, i, is_related_comm f g)
    | inr n ↦ ground (
      arith,
      r,
      n,
      is_related_comm f g,
      is_related-join f g f,
      is_related_refl f,
      imply-join_both f g w h.0,
    )
  ]
  | inr n ↦ ground (arith, n, is_related_comm f g, covers-merge_fact_self facts f h.1 w)
]

-- What was implied before is implied afterwards.
covers-merge_fact :
    (facts : List Fact) (f x : Fact)
    → AllWf facts
    → IsWf f
    → IsWf x
    → covers facts x ≡ true
    → covers (merge_fact facts f).0 x ≡ true
unfolding covers merge_fact
covers-merge_fact [] f x h w v c = ground (arith, c)
covers-merge_fact (g ∷ facts) f x h w v c = elim (Bool-cases (is_related g f)) [
  | inl r ↦ elim (Bool-cases (imply g f)) [
    | inl i ↦ rw (r, i) c
    | inr n ↦
        let both = imply-join_both f g w h.0 (is_related_comm f g ∙ r) in
        ground (
          arith,
          r,
          n,
          c,
          both,
          is_related-join f g x,
          is_related_same g f x r,
          imply_trans (join f g).0 g x h.0 v,
        )
  ]
  | inr n ↦ ground (arith, n, c, covers-merge_fact facts f x h.1 w v)
]

merge_fact_changed : (facts : List Fact) (f : Fact) → (merge_fact facts f).1 ≡ not (covers facts f)
unfolding covers merge_fact
merge_fact_changed [] f = refl
merge_fact_changed (g ∷ facts) f = ground (arith, is_related_comm f g, merge_fact_changed facts f)

merge_fact_covered :
    (facts : List Fact) (f : Fact) → covers facts f ≡ true → (merge_fact facts f).0 ≡ facts
unfolding covers merge_fact
merge_fact_covered [] f c = ground (arith, c)
merge_fact_covered (g ∷ facts) f c = elim (Bool-cases (is_related g f)) [
  | inl r ↦ ground (arith, r, c, is_related_comm f g)
  | inr n ↦
      rw n
        (ap (λ l. g ∷ l) (merge_fact_covered facts f (ground (arith, n, c, is_related_comm f g))))
]

covers-merge_facts :
    (facts new_facts : List Fact) (x : Fact)
    → AllWf facts
    → AllWf new_facts
    → IsWf x
    → covers facts x ≡ true
    → covers (merge_facts facts new_facts).0 x ≡ true
unfolding merge_facts
covers-merge_facts facts [] x h k v c = c
covers-merge_facts facts (f ∷ new_facts) x h k v c =
    covers-merge_facts (merge_fact facts f).0 new_facts x (merge_fact-AllWf facts f h k.0) k.1 v
      (covers-merge_fact facts f x h k.0 v c)

-- After a merge every new fact is implied by the environment. No points-to set holds a
-- variable twice.
pub all_covered-merge_facts :
    (facts new_facts : List Fact)
    → AllWf facts
    → AllWf new_facts
    → all_covered new_facts (merge_facts facts new_facts).0 ≡ true
unfolding merge_facts all_covered
all_covered-merge_facts facts [] h k = refl
all_covered-merge_facts facts (f ∷ new_facts) h k =
    let one = (merge_fact facts f).0 in
    let wf = merge_fact-AllWf facts f h k.0 in
    ground (
      arith,
      covers-merge_facts one new_facts f wf k.1 k.0 (covers-merge_fact_self facts f h k.0),
      all_covered-merge_facts one new_facts wf k.1,
    )

-- `merge_facts` reports a change exactly when some new fact was not implied, and else leaves the
-- environment as it was.
pub merge_facts_changed :
    (facts new_facts : List Fact)
    → ((merge_facts facts new_facts).1 ≡ not (all_covered new_facts facts))
      × (((merge_facts facts new_facts).0 ≡ facts) ⊎ ((merge_facts facts new_facts).1 ≡ true))
unfolding merge_facts all_covered
merge_facts_changed facts [] = (refl, inl refl)
merge_facts_changed facts (f ∷ new_facts) = elim (Bool-cases (covers facts f)) [
  | inl c ↦
      let same = merge_fact_covered facts f c in
      let old = merge_fact_changed facts f in
      let rest = merge_facts_changed facts new_facts in rw (same, old, c) rest
  | inr n ↦ let old = merge_fact_changed facts f in rw (old, n) (refl, inr refl)
]

-- Merging is idempotent: merging the same facts a second time changes nothing and says so. No
-- points-to set holds a variable twice.
pub merge_facts_idem :
    (facts new_facts : List Fact)
    → AllWf facts
    → AllWf new_facts
    → merge_facts (merge_facts facts new_facts).0 new_facts
      ≡ ((merge_facts facts new_facts).0, false)
merge_facts_idem facts new_facts h k =
    let env = (merge_facts facts new_facts).0 in
    let (flag, same) = merge_facts_changed env new_facts in
    let quiet : (merge_facts env new_facts).1 ≡ false =
      rw (flag, all_covered-merge_facts facts new_facts h k) refl in
    elim same [ inl e ↦ λ i. (e i, quiet i) | inr e ↦ cc ]
