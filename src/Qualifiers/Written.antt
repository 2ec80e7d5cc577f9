-- ===== src/Qualifiers/Written.antt =====
-- The whole random functions of src/CVQualifiers.cpp: `random_qualifiers` and
-- `random_loose_qualifiers`.
use hipsmith.Prelude.{
  ℕ, zero, suc, ◌+◌, ◌<◌, ◌≡◌, refl, Bool, true, false, not, List, [], ◌∷◌, arith, length,
  Bool-cases, inl, inr, ◌||◌, replicate, some, Option-cases,
}
use hipsmith.Prelude.Int.{pos}
use hipsmith.Qualifiers.Defs.{
  QualifierOptions, CvQualifiers, Access, write, is_write, is_const_after_deref,
  is_volatile_after_deref,
}
use hipsmith.Qualifiers.Random.{
  Draws, Source, Flags, make_scalar_volatiles, make_scalar_consts, looser_consts, looser_volatiles,
  stricter_consts, stricter_volatiles,
}
use hipsmith.Qualifiers.Generate.{
  clear_last, clear_last_if, with_consts, random_by, random_qualifiers, chosen_volatiles,
  chosen_consts,
}
use hipsmith.Qualifiers.Last.{
  EndsClear, after_deref-EndsClear, clear_last_total, EndsClear-clear_tail,
}

-- A loop that returned early has set the error flag, and an error stays.
abbrev pub Flagged : Source → Flags → Type 0
Flagged s r = (r.early ≡ true → r.source.failed ≡ true) × (s.failed ≡ true → r.source.failed ≡ true)

module _ (draws : Draws) where
  pub looser_consts-Flagged : (cs : List Bool) (s : Source) → Flagged s (looser_consts draws cs s)
  unfolding looser_consts
  looser_consts-Flagged [] s = ground arith
  looser_consts-Flagged (c ∷ cs) s =
      ground (
        arith,
        looser_consts-Flagged cs s,
        looser_consts-Flagged cs (record s { made = s.made + 1 }),
      )

  pub looser_volatiles-Flagged :
      (b : Bool) (cs : List Bool) (s : Source) → Flagged s (looser_volatiles draws b cs s)
  unfolding looser_volatiles
  looser_volatiles-Flagged b [] s = ground arith
  looser_volatiles-Flagged b (c ∷ cs) s = ground (
    arith,
    looser_volatiles-Flagged false cs s,
    looser_volatiles-Flagged false cs (record s { made = s.made + 1 }),
  )

  stricter_consts-Flagged :
      (o : QualifierOptions) (cs vs : List Bool) (s : Source)
      → Flagged s (stricter_consts draws o cs vs s)
  unfolding stricter_consts
  stricter_consts-Flagged o [] vs s = ground arith
  stricter_consts-Flagged o (c ∷ cs) [] s = ground arith
  stricter_consts-Flagged o (c ∷ cs) (v ∷ vs) s = ground (
    arith,
    stricter_consts-Flagged o cs vs s,
    stricter_consts-Flagged o cs vs (record s { made = s.made + 1 }),
  )

  stricter_volatiles-Flagged :
      (o : QualifierOptions) (b : Bool) (vs cs : List Bool) (s : Source)
      → Flagged s (stricter_volatiles draws o b vs cs s)
  unfolding stricter_volatiles
  stricter_volatiles-Flagged o b [] cs s = ground arith
  stricter_volatiles-Flagged o b (v ∷ vs) [] s = ground arith
  stricter_volatiles-Flagged o b (v ∷ vs) (c ∷ cs) s = ground (
    arith,
    stricter_volatiles-Flagged o false vs cs s,
    stricter_volatiles-Flagged o false vs cs (record s { made = s.made + 1 }),
  )

-- How a call of `with_consts` that ends without an error has gone.
pub record WithConsts (o : QualifierOptions) (pick_consts : Source → Flags) (access : Access)
    (volatiles : List Bool) (s : Source) (r : CvQualifiers) (s' : Source) : Type 0 where
  pub started : s.failed ≡ false
  pub picked : (pick_consts s).source ≡ s'
  pub consts :
      clear_last_if (is_write access) (make_scalar_consts o (pick_consts s).flags)
      ≡ some r.is_consts
  pub kept : r.is_volatiles ≡ make_scalar_volatiles o volatiles
  pub plain : r.wildcard ≡ false

module _ (o : QualifierOptions) (pick_consts : Source → Flags) (access : Access) where
  with_consts-WithConsts :
      (volatiles : List Bool) (s : Source) {r : CvQualifiers} {s' : Source}
      → with_consts o pick_consts access volatiles s ≡ some (r, s')
      → s'.failed ≡ false
      → WithConsts o pick_consts access volatiles s r s'
  unfolding with_consts
  with_consts-WithConsts volatiles s h f =
      elim (Option-cases
        (clear_last_if (is_write access) (make_scalar_consts o (pick_consts s).flags))) [
          | inl e ↦ ground (arith, e)
          | inr (cs, e) ↦ record {
            started = ground (arith, e);
            picked = ground (arith, e);
            consts = ground (arith, e);
            kept = ground (arith, e);
            plain = ground (arith, e);
          }
        ]

module _ (o : QualifierOptions) (pick_volatiles pick_consts : Source → Flags) (access : Access)
    (side_effect_free : Bool) (q : CvQualifiers) (s : Source) {r : CvQualifiers} {s' : Source}
    (plain : q.wildcard ≡ false) (f : s'.failed ≡ false) where
  -- The call that drops every volatile flag.
  random_by-no_volatile :
      random_by o pick_volatiles pick_consts true access side_effect_free q s ≡ some (r, s')
      → WithConsts o pick_consts access (replicate (length q.is_volatiles) false) s r s'
  unfolding random_by
  random_by-no_volatile h =
      with_consts-WithConsts o pick_consts access _ s (ground (arith, plain, h)) f

  pub random_by-volatile :
      random_by o pick_volatiles pick_consts false access side_effect_free q s ≡ some (r, s')
      → (vs : List Bool) × (clear_last_if (not side_effect_free) (pick_volatiles s).flags ≡ some vs)
        × WithConsts o pick_consts access vs (pick_volatiles s).source r s'
  unfolding random_by
  random_by-volatile h =
      elim (Option-cases (clear_last_if (not side_effect_free) (pick_volatiles s).flags)) [
        | inl e ↦ ground (arith, plain, h, e)
        | inr (vs, e) ↦ (
          vs,
          e,
          with_consts-WithConsts o pick_consts access vs (pick_volatiles s).source
              (ground (arith, plain, h, e, f)) f,
        )
      ]

clear_last-EndsClear : (xs : List Bool) {ys : List Bool} → clear_last xs ≡ some ys → EndsClear ys
unfolding clear_last
clear_last-EndsClear [] h = cc
clear_last-EndsClear (x ∷ xs) {ys} h =
    let (zs, e, _, c) = clear_last_total x xs in
    let same : zs ≡ ys = ground (arith, e, h) in rw same at c

module _ {o : QualifierOptions} {pick_consts : Source → Flags} {vs : List Bool} {s : Source}
    {r : CvQualifiers} {s' : Source} where
  WithConsts-write :
      WithConsts o pick_consts write vs s r s' → is_const_after_deref r (pos 0) ≡ some false
  unfolding clear_last_if is_const_after_deref is_write
  WithConsts-write w =
      after_deref-EndsClear r.is_consts
        (clear_last-EndsClear (make_scalar_consts o (pick_consts s).flags) w.consts)

  volatile-EndsClear :
      {access : Access}
      → WithConsts o pick_consts access vs s r s'
      → EndsClear vs
      → is_volatile_after_deref r (pos 0) ≡ some false
  unfolding is_volatile_after_deref make_scalar_volatiles
  volatile-EndsClear w c = after_deref-EndsClear r.is_volatiles (
      rw w.kept (elim (Bool-cases (not o.volatile_pointers || not o.global_variables)) [
        | inl e ↦ rw e (EndsClear-clear_tail vs c)
        | inr e ↦ rw e c
      ]))

EndsClear-replicate : (n : ℕ) → 0 < n → EndsClear (replicate n false)
EndsClear-replicate zero h = absurd (omega arith)
EndsClear-replicate (suc zero) h = refl
EndsClear-replicate (suc (suc n)) h = EndsClear-replicate (suc n) (omega arith)

-- Qualifiers that `random_qualifiers` chooses for a variable that is written to, without an error,
-- leave the variable itself not constant, unless they were made from a wildcard.
random_qualifiers-write :
    (draws : Draws) (o : QualifierOptions) (no_volatile side_effect_free : Bool) (q : CvQualifiers)
    (s : Source) {r : CvQualifiers} {s' : Source}
    → q.wildcard ≡ false
    → random_qualifiers draws o no_volatile write side_effect_free q s ≡ some (r, s')
    → s'.failed ≡ false
    → is_const_after_deref r (pos 0) ≡ some false
unfolding random_qualifiers
random_qualifiers-write draws o no_volatile side_effect_free q s plain h f =
    elim (Bool-cases no_volatile) [
      | inl e ↦ WithConsts-write {pick_consts = chosen_consts draws o q} (
          random_by-no_volatile o (chosen_volatiles draws o q) (chosen_consts draws o q) write
            side_effect_free q s plain f (rw e at h))
      | inr e ↦
          WithConsts-write {pick_consts = chosen_consts draws o q}
            (random_by-volatile o (chosen_volatiles draws o q) (chosen_consts draws o q) write
              side_effect_free q s plain f (rw e at h)).2
    ]

-- In a context whose effects are not free of side effects, qualifiers that `random_qualifiers`
-- chooses without an error leave the variable itself not volatile, unless they were made from a
-- wildcard or from qualifiers without flags.
pub random_qualifiers-volatile :
    (draws : Draws) (o : QualifierOptions) (no_volatile : Bool) (access : Access) (q : CvQualifiers)
    (s : Source) {r : CvQualifiers} {s' : Source}
    → q.wildcard ≡ false
    → 0 < length q.is_volatiles
    → random_qualifiers draws o no_volatile access false q s ≡ some (r, s')
    → s'.failed ≡ false
    → is_volatile_after_deref r (pos 0) ≡ some false
unfolding random_qualifiers clear_last_if
random_qualifiers-volatile draws o no_volatile access q s plain len h f =
    elim (Bool-cases no_volatile) [
      | inl e ↦
          volatile-EndsClear {pick_consts = chosen_consts draws o q}
            (random_by-no_volatile o (chosen_volatiles draws o q) (chosen_consts draws o q) access
              false q s plain f (rw e at h))
            (EndsClear-replicate _ len)
      | inr e ↦
          let (vs, c, w) =
            random_by-volatile o (chosen_volatiles draws o q) (chosen_consts draws o q) access false
              q s plain f (rw e at h) in
          volatile-EndsClear {pick_consts = chosen_consts draws o q} w
            (clear_last-EndsClear (chosen_volatiles draws o q s).flags c)
    ]
