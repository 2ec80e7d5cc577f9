-- ===== src/Qualifiers/Strictness.antt =====
-- What the random choices of src/CVQualifiers.cpp keep of the qualifiers that they start from.
use hipsmith.Prelude.{
  ℕ, ◌≡◌, refl, sym, ◌&&◌, ltb, Bool, true, false, List, arith, length, Bool-cases, inl, inr,
}
use hipsmith.Qualifiers.Order.{storage_differs_refl, strict_levels_refl, IsStricter→stricter_than}
use hipsmith.Qualifiers.Defs.{
  QualifierOptions, CvQualifiers, cv_qualifiers, strict_levels, storage_differs, stricter_than,
  IsPaired,
}
use hipsmith.Qualifiers.Random.{
  Draws, Source, make_scalar_volatiles, looser_volatiles, stricter_volatiles, random_looser_consts,
  random_looser_volatiles, random_stricter_consts, random_stricter_volatiles,
}
use hipsmith.Qualifiers.Looser.{
  looser_consts-length, strict_levels-looser_consts, looser_volatiles-length,
  strict_levels-looser_volatiles, storage-looser_volatiles, stricter_consts-length,
  strict_levels-stricter_consts, stricter_volatiles-length, strict_levels-stricter_volatiles,
  storage-stricter_volatiles, length-clear_tail, looser-clear_tail, stricter-clear_tail,
  storage-clear_tail,
}

-- The flags are those that `make_scalar_volatiles` lets through.
abbrev pub IsScalarVolatile : QualifierOptions → CvQualifiers → Type 0
IsScalarVolatile o q = make_scalar_volatiles o q.is_volatiles ≡ q.is_volatiles

-- One vector of flags against the one it was made from, at least as strict.
pub record Strict (depth : ℕ) (xs ys : List Bool) : Type 0 where
  pub same : length xs ≡ length ys
  pub levels : strict_levels xs ys ≡ true
  pub storage : ltb 1 depth && storage_differs xs ys ≡ false

module _ (draws : Draws) (o : QualifierOptions) (q : CvQualifiers) (s : Source) where
  looser_volatiles-Strict :
      (b : Bool)
      → ltb 1 (length q.is_volatiles) ≡ b
      → (looser_volatiles draws b q.is_volatiles s).early ≡ false
      → Strict
          (length q.is_volatiles)
          q.is_volatiles
          (looser_volatiles draws b q.is_volatiles s).flags
  looser_volatiles-Strict b e h = record {
    same = sym (looser_volatiles-length draws b q.is_volatiles s h);
    levels = strict_levels-looser_volatiles draws b q.is_volatiles s h;
    storage = elim (Bool-cases b) [
      | inl t ↦ rw t (ground (arith, e, t, storage-looser_volatiles draws q.is_volatiles s))
      | inr f ↦ ground (arith, e, f)
    ];
  }

  stricter_volatiles-Strict :
      (b : Bool)
      → IsPaired q
      → ltb 1 (length q.is_volatiles) ≡ b
      → (stricter_volatiles draws o b q.is_volatiles q.is_consts s).early ≡ false
      → Strict
          (length q.is_volatiles)
          (stricter_volatiles draws o b q.is_volatiles q.is_consts s).flags
          q.is_volatiles
  stricter_volatiles-Strict b w e h = record {
    same = stricter_volatiles-length draws o b q.is_volatiles q.is_consts s (sym w.paired) h;
    levels =
        strict_levels-stricter_volatiles draws o b q.is_volatiles q.is_consts s (sym w.paired) h;
    storage = elim (Bool-cases b) [
      | inl t ↦
          rw t
            (ground (arith, e, t, storage-stricter_volatiles draws o q.is_volatiles q.is_consts s))
      | inr f ↦ ground (arith, e, f)
    ];
  }

Strict-refl : (depth : ℕ) (xs : List Bool) → Strict depth xs xs
Strict-refl depth xs = record {
  same = refl;
  levels = strict_levels_refl xs;
  storage = ground (arith, storage_differs_refl xs);
}

module _ (o : QualifierOptions) (depth : ℕ) (xs ys : List Bool) where
  pub looser-make_scalar_volatiles :
      make_scalar_volatiles o xs ≡ xs → Strict depth xs ys → make_scalar_volatiles o ys ≡ ys
  unfolding make_scalar_volatiles
  looser-make_scalar_volatiles c h = ground (arith, looser-clear_tail xs ys h.same)

  stricter-make_scalar_volatiles :
      make_scalar_volatiles o ys ≡ ys
      → Strict depth xs ys
      → Strict depth (make_scalar_volatiles o xs) ys
  unfolding make_scalar_volatiles
  stricter-make_scalar_volatiles c h = record {
    same = ground (arith, h.same, length-clear_tail xs);
    levels = ground (arith, h.levels, stricter-clear_tail xs ys h.same);
    storage = ground (arith, h.storage, storage-clear_tail xs ys);
  }

module _ (draws : Draws) (o : QualifierOptions) (q : CvQualifiers) (s : Source)
    (scalar : IsScalarVolatile o q) where
  pub random_looser_volatiles-Strict :
      (random_looser_volatiles draws o q s).early ≡ false
      → Strict (length q.is_volatiles) q.is_volatiles (random_looser_volatiles draws o q s).flags
  unfolding random_looser_volatiles
  random_looser_volatiles-Strict h = elim (Bool-cases o.match_exact_qualifiers) [
    | inl e ↦ rw e (Strict-refl _ _)
    | inr e ↦
        let r = looser_volatiles draws (ltb 1 (length q.is_volatiles)) q.is_volatiles s in
        let early : r.early ≡ false = ground (arith, h, e) in
        let strict = looser_volatiles-Strict draws o q s _ refl early in
        rw (e, early, looser-make_scalar_volatiles o _ _ _ scalar strict) strict
  ]

  random_stricter_volatiles-Strict :
      IsPaired q
      → (random_stricter_volatiles draws o q s).early ≡ false
      → Strict (length q.is_volatiles) (random_stricter_volatiles draws o q s).flags q.is_volatiles
  unfolding random_stricter_volatiles
  random_stricter_volatiles-Strict w h = elim (Bool-cases o.match_exact_qualifiers) [
    | inl e ↦ rw e (Strict-refl _ _)
    | inr e ↦
        let r =
          stricter_volatiles draws o (ltb 1 (length q.is_volatiles)) q.is_volatiles q.is_consts s in
        let early : r.early ≡ false = ground (arith, h, e) in
        let strict = stricter_volatiles-Strict draws o q s _ w refl early in
        rw (e, early) (stricter-make_scalar_volatiles o _ _ _ scalar strict)
  ]

module _ (draws : Draws) (o : QualifierOptions) (q : CvQualifiers) (s : Source) where
  pub random_looser_consts-Strict :
      (random_looser_consts draws o q s).early ≡ false
      → (length q.is_consts ≡ length (random_looser_consts draws o q s).flags)
        × (strict_levels q.is_consts (random_looser_consts draws o q s).flags ≡ true)
  unfolding random_looser_consts
  random_looser_consts-Strict h = ground (
    arith,
    strict_levels_refl q.is_consts,
    looser_consts-length draws q.is_consts s,
    strict_levels-looser_consts draws q.is_consts s,
  )

  random_stricter_consts-Strict :
      IsPaired q
      → (random_stricter_consts draws o q s).early ≡ false
      → (length (random_stricter_consts draws o q s).flags ≡ length q.is_consts)
        × (strict_levels (random_stricter_consts draws o q s).flags q.is_consts ≡ true)
  unfolding random_stricter_consts
  random_stricter_consts-Strict w h = ground (
    arith,
    w.paired,
    strict_levels_refl q.is_consts,
    stricter_consts-length draws o q.is_consts q.is_volatiles s,
    strict_levels-stricter_consts draws o q.is_consts q.is_volatiles s,
  )

-- Whatever the random source gives, the flags chosen by `random_looser_volatiles` and
-- `random_looser_consts` are such that the qualifiers are stricter than the chosen ones. The
-- qualifiers have as many constant as volatile flags and no volatile pointer that the options
-- forbid, and neither loop was stopped.
pub stricter_than-looser :
    (draws : Draws) (o : QualifierOptions) (q : CvQualifiers) (s t : Source)
    → IsPaired q
    → IsScalarVolatile o q
    → (random_looser_volatiles draws o q s).early ≡ false
    → (random_looser_consts draws o q t).early ≡ false
    → stricter_than q (
        cv_qualifiers
          (random_looser_consts draws o q t).flags
          (random_looser_volatiles draws o q s).flags)
      ≡ true
unfolding cv_qualifiers
stricter_than-looser draws o q s t w scalar hv hc =
    let v = random_looser_volatiles-Strict draws o q s scalar hv in
    let c = random_looser_consts-Strict draws o q t hc in
    IsStricter→stricter_than q _ (record {
      same_consts = c.0;
      same_volatiles = v.same;
      consts = c.1;
      storage = rw w.paired v.storage;
      volatiles = v.levels;
    })

-- Whatever the random source gives, the flags chosen by `random_stricter_volatiles` and
-- `random_stricter_consts` are stricter than the qualifiers. The qualifiers have as many constant
-- as volatile flags and no volatile pointer that the options forbid, and neither loop was stopped.
pub stricter_than-stricter :
    (draws : Draws) (o : QualifierOptions) (q : CvQualifiers) (s t : Source)
    → IsPaired q
    → IsScalarVolatile o q
    → (random_stricter_volatiles draws o q s).early ≡ false
    → (random_stricter_consts draws o q t).early ≡ false
    → stricter_than
        (cv_qualifiers
          (random_stricter_consts draws o q t).flags
          (random_stricter_volatiles draws o q s).flags)
        q
      ≡ true
unfolding cv_qualifiers
stricter_than-stricter draws o q s t w scalar hv hc =
    let v = random_stricter_volatiles-Strict draws o q s scalar w hv in
    let c = random_stricter_consts-Strict draws o q t w hc in
    IsStricter→stricter_than _ q (record {
      same_consts = c.0;
      same_volatiles = v.same;
      consts = c.1;
      storage = rw (c.0, w.paired) v.storage;
      volatiles = v.levels;
    })
