-- ===== src/Effects/Race.antt =====
-- src/Effect.cpp, `has_race_with`: a symmetric test that is additive in the effects.
use hipsmith.Prelude.{
  ℕ, ◌≡◌, refl, sym, ap, ◌∙◌, Bool, true, false, not, ◌||◌, List, [], ◌∷◌, ◌++◌, elem,
  if◌then◌else◌, arith, Bool-cases, inl, inr, ◌==◌,
}
use hipsmith.Variables.Store.{Store, IsStore, containers, matches}
use hipsmith.Variables.Chain.{Within, Within-trans, Within-linear}
use hipsmith.Variables.Match.{matches_lem}
use hipsmith.Effects.Defs.{
  Effect, is_read, is_written, read_on, written_on, add_reads, add_writes, add_effect, meets,
  non_empty_intersection, has_race_with,
}
use hipsmith.Effects.Walk.{written_on_witness}
use hipsmith.Effects.Union.{add_reads-Apart, add_writes-Apart}

module _ (m : Store) where
  -- The test of `non_empty_intersection` at one pair.
  abbrev touches : ℕ → ℕ → Bool
  touches v w = matches m v w || matches m w v

  meets-append : (v : ℕ) (xs ys : List ℕ) → meets m v (xs ++ ys) ≡ meets m v xs || meets m v ys
  unfolding meets
  meets-append v [] ys = refl
  meets-append v (x ∷ xs) ys = ground (arith, meets-append v xs ys)

  pub intersection-append :
      (xs ys zs : List ℕ)
      → non_empty_intersection m (xs ++ ys) zs
        ≡ non_empty_intersection m xs zs || non_empty_intersection m ys zs
  unfolding non_empty_intersection
  intersection-append [] ys zs = refl
  intersection-append (x ∷ xs) ys zs = ground (arith, intersection-append xs ys zs)

  intersection-cons :
      (w : ℕ) (xs ys : List ℕ)
      → non_empty_intersection m xs (w ∷ ys) ≡ meets m w xs || non_empty_intersection m xs ys
  unfolding non_empty_intersection
  intersection-cons w [] ys = refl
  intersection-cons w (x ∷ xs) ys = ground (arith, intersection-cons w xs ys)

  intersection-nil : (xs : List ℕ) → non_empty_intersection m xs [] ≡ false
  unfolding non_empty_intersection
  intersection-nil [] = refl
  intersection-nil (x ∷ xs) = intersection-nil xs

  pub intersection_comm :
      (xs ys : List ℕ) → non_empty_intersection m xs ys ≡ non_empty_intersection m ys xs
  unfolding non_empty_intersection
  intersection_comm [] ys = sym (intersection-nil ys)
  intersection_comm (x ∷ xs) ys = ground (arith, intersection-cons x ys xs, intersection_comm xs ys)

-- Whether two effects race does not depend on which of them is asked.
pub has_race_with_comm : (m : Store) (e f : Effect) → has_race_with m e f ≡ has_race_with m f e
unfolding has_race_with
has_race_with_comm m e f = ground (
  arith,
  intersection_comm m e.read_vars f.write_vars,
  intersection_comm m e.write_vars f.read_vars,
  intersection_comm m e.write_vars f.write_vars,
)

module _ (m : Store) (ok : IsStore m) where
  -- A container meets what a variable within it meets.
  touches-Within : (w v x : ℕ) → Within m ok w v → touches m v x ≡ true → touches m w x ≡ true
  touches-Within w v x h t = elim (Bool-cases (elem v (containers m x))) [
    | inl d ↦ let down = Within-trans m ok w v x h d in ground (arith, matches_lem m ok w x, down)
    | inr n ↦
        let up : elem x (containers m v) ≡ true =
          ground (arith, n, t, matches_lem m ok v x, matches_lem m ok x v) in
        elim (Within-linear m ok w x v h up) [
          | inl d ↦ ground (arith, matches_lem m ok w x, d)
          | inr u ↦ ground (arith, matches_lem m ok x w, matches_lem m ok w x, u)
        ]
  ]

  meets-Within :
      (w v : ℕ) (xs : List ℕ) → Within m ok w v → meets m v xs ≡ true → meets m w xs ≡ true
  unfolding meets
  meets-Within w v [] h t = t
  meets-Within w v (x ∷ xs) h t = ground (arith, touches-Within w v x h, meets-Within w v xs h, t)

  meets-elem :
      (w : ℕ) (xs ys : List ℕ)
      → elem w xs ≡ true
      → meets m w ys ≡ true
      → non_empty_intersection m xs ys ≡ true
  unfolding non_empty_intersection
  meets-elem w [] ys e h = cc
  meets-elem w (x ∷ xs) ys e h = elim (Bool-cases (x == w)) [
    | inl s ↦ let same : x ≡ w = ground (arith, s) in rw same (ground (arith, h))
    | inr n ↦ ground (arith, n, e, meets-elem w xs ys, h)
  ]

  -- A variable that is left out, since a container of it is there, meets nothing new.
  intersection_covered :
      (xs ys : List ℕ) (v : ℕ)
      → written_on m xs (containers m v) ≡ true
      → non_empty_intersection m xs ys ≡ non_empty_intersection m xs ys || meets m v ys
  intersection_covered xs ys v c = elim (Bool-cases (meets m v ys)) [
    | inl h ↦
        let (w, p, q) = written_on_witness m xs (containers m v) c in
        ground (arith, h, meets-elem w xs ys p (meets-Within w v ys q h))
    | inr n ↦ ground (arith, n)
  ]

  read_on→written_on : (xs c : List ℕ) → read_on m xs c ≡ true → written_on m xs c ≡ true
  unfolding read_on written_on
  read_on→written_on xs [] h = h
  read_on→written_on xs (v ∷ []) h = ground (arith, h)
  read_on→written_on xs (v ∷ u ∷ us) h = ground (arith, h, read_on→written_on xs (u ∷ us))

  intersection-add_writes :
      (e : Effect) (vs ys : List ℕ)
      → non_empty_intersection m (add_writes m e vs).write_vars ys
        ≡ non_empty_intersection m e.write_vars ys || non_empty_intersection m vs ys
  unfolding add_writes non_empty_intersection
  intersection-add_writes e [] ys = ground arith
  intersection-add_writes e (v ∷ vs) ys =
      let next =
        if not (is_written m e v) then record e { write_vars = e.write_vars ++ v ∷ [] } else e in
      let rest = intersection-add_writes next vs ys in
      elim (Bool-cases (is_written m e v)) [
        | inl w ↦ ground (arith, w, rest, intersection_covered e.write_vars ys v w)
        | inr n ↦ ground (arith, n, rest, intersection-append m e.write_vars (v ∷ []) ys)
      ]

  intersection-add_reads :
      (e : Effect) (vs ys : List ℕ)
      → non_empty_intersection m (add_reads m e vs).read_vars ys
        ≡ non_empty_intersection m e.read_vars ys || non_empty_intersection m vs ys
  unfolding add_reads non_empty_intersection
  intersection-add_reads e [] ys = ground arith
  intersection-add_reads e (v ∷ vs) ys =
      let next =
        if not (is_read m e v) then record e { read_vars = e.read_vars ++ v ∷ [] } else e in
      let rest = intersection-add_reads next vs ys in
      elim (Bool-cases (is_read m e v)) [
        | inl w ↦ ground (
          arith,
          w,
          rest,
          intersection_covered e.read_vars ys v (read_on→written_on e.read_vars (containers m v) w),
        )
        | inr n ↦ ground (arith, n, rest, intersection-append m e.read_vars (v ∷ []) ys)
      ]

-- The sum of two effects races with a third one exactly when one of the two does, although the sum
-- leaves out variables whose containers it has. The containers of variables are structs and unions
-- that were created before them.
pub has_race_with-add_effect :
    (m : Store) (e f g : Effect) (include_lhs_effects : Bool)
    → IsStore m
    → has_race_with m (add_effect m e f include_lhs_effects) g
      ≡ has_race_with m e g || has_race_with m f g
unfolding has_race_with add_effect
has_race_with-add_effect m e f g include_lhs_effects ok =
    let reads = add_reads m e f.read_vars in
    let sum = add_writes m reads f.write_vars in
    let (_, w) = add_reads-Apart m ok e f.read_vars in
    let (_, r) = add_writes-Apart m ok reads f.write_vars in
    let at_reads =
      ap (λ xs. non_empty_intersection m xs g.write_vars) r
      ∙ intersection-add_reads m ok e f.read_vars g.write_vars in
    let at_writes = λ (ys : List ℕ).
      intersection-add_writes m ok reads f.write_vars ys
      ∙ ap (λ xs. non_empty_intersection m xs ys || non_empty_intersection m f.write_vars ys) w in
    ground (arith, at_reads, at_writes g.read_vars, at_writes g.write_vars)
