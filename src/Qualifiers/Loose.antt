-- ===== src/Qualifiers/Loose.antt =====
-- src/CVQualifiers.cpp, `random_loose_qualifiers`: the result against the qualifiers it is made from.
use hipsmith.Prelude.{
  ◌≡◌, sym, ◌∙◌, ltb, Bool, true, false, not, List, [], ◌∷◌, arith, length, Bool-cases, inl, inr,
  some,
}
use hipsmith.Qualifiers.Order.{IsStricter→stricter_than}
use hipsmith.Qualifiers.Defs.{
  QualifierOptions, CvQualifiers, Access, is_write, strict_levels, stricter_than, IsPaired,
}
use hipsmith.Qualifiers.Random.{
  Draws, Source, Flags, make_scalar_consts, random_looser_consts, random_looser_volatiles,
}
use hipsmith.Qualifiers.Generate.{clear_last, clear_last_if, random_loose_qualifiers}
use hipsmith.Qualifiers.Last.{clear_last_total, strict_levels-clear_last, storage-clear_last}
use hipsmith.Qualifiers.Looser.{looser-clear_tail}
use hipsmith.Qualifiers.Strictness.{
  IsScalarVolatile, Strict, random_looser_volatiles-Strict, random_looser_consts-Strict,
  looser-make_scalar_volatiles,
}
use hipsmith.Qualifiers.Written.{
  Flagged, looser_consts-Flagged, looser_volatiles-Flagged, random_by-volatile,
}

-- The flags are those that `make_scalar_consts` lets through.
abbrev pub IsScalarConst : QualifierOptions → CvQualifiers → Type 0
IsScalarConst o q = make_scalar_consts o q.is_consts ≡ q.is_consts

length-clear_last :
    (ws : List Bool) {zs : List Bool} → clear_last ws ≡ some zs → length ws ≡ length zs
unfolding clear_last
length-clear_last [] e = cc
length-clear_last (w ∷ ws) {zs} e =
    let (ys, f, l, _) = clear_last_total w ws in
    let same : ys ≡ zs = ground (arith, e, f) in rw same at (sym l)

module _ (b : Bool) (vs ws : List Bool) {zs : List Bool} (e : clear_last_if b ws ≡ some zs) where
  length-clear_last_if : length ws ≡ length zs
  unfolding clear_last_if
  length-clear_last_if = elim (Bool-cases b) [
    | inl t ↦ length-clear_last ws (rw t at e)
    | inr f ↦ ground (arith, e, f)
  ]

  levels-clear_last_if :
      length vs ≡ length ws → strict_levels vs ws ≡ true → strict_levels vs zs ≡ true
  unfolding clear_last_if
  levels-clear_last_if p h = ground (arith, e, strict_levels-clear_last vs ws {zs = zs} p)

  Strict-clear_last_if : Strict (length vs) vs ws → Strict (length vs) vs zs
  unfolding clear_last_if
  Strict-clear_last_if h = record {
    same = h.same ∙ length-clear_last_if;
    levels = levels-clear_last_if h.same h.levels;
    storage = ground (arith, e, h.storage, storage-clear_last (length vs) vs ws {zs = zs} h.same);
  }

module _ (draws : Draws) (o : QualifierOptions) (q : CvQualifiers) (s : Source) where
  random_looser_volatiles-Flagged : Flagged s (random_looser_volatiles draws o q s)
  unfolding random_looser_volatiles
  random_looser_volatiles-Flagged =
      ground
        (arith, looser_volatiles-Flagged draws (ltb 1 (length q.is_volatiles)) q.is_volatiles s)

  random_looser_consts-Flagged : Flagged s (random_looser_consts draws o q s)
  unfolding random_looser_consts
  random_looser_consts-Flagged = ground (arith, looser_consts-Flagged draws q.is_consts s)

not_early : (s : Source) (r : Flags) → Flagged s r → r.source.failed ≡ false → r.early ≡ false
not_early s r h f = ground (arith, h.0)

make_scalar_consts_looser :
    (o : QualifierOptions) (cs ds : List Bool)
    → make_scalar_consts o cs ≡ cs
    → length cs ≡ length ds
    → strict_levels cs ds ≡ true
    → make_scalar_consts o ds ≡ ds
unfolding make_scalar_consts
make_scalar_consts_looser o cs ds c l h = ground (arith, looser-clear_tail cs ds l)

-- Qualifiers are stricter than those that `random_loose_qualifiers` makes from them without an
-- error, where volatile flags are asked for. The qualifiers are no wildcard, have as many constant as
-- volatile flags, and no flag on a pointer that the options forbid.
pub stricter_than-random_loose_qualifiers :
    (draws : Draws) (o : QualifierOptions) (access : Access) (side_effect_free : Bool)
    (q : CvQualifiers) (s : Source) {r : CvQualifiers} {s' : Source}
    → q.wildcard ≡ false
    → IsPaired q
    → IsScalarVolatile o q
    → IsScalarConst o q
    → random_loose_qualifiers draws o false access side_effect_free q s ≡ some (r, s')
    → s'.failed ≡ false
    → stricter_than q r ≡ true
unfolding random_loose_qualifiers
stricter_than-random_loose_qualifiers draws o access side_effect_free q s {r} {s'} plain p sv sc h
      f =
    let lv = random_looser_volatiles draws o q s in
    let lc = random_looser_consts draws o q lv.source in
    let (vs, e, w) =
      random_by-volatile o (random_looser_volatiles draws o q) (random_looser_consts draws o q)
        access side_effect_free q s plain f h in
    let ended : lc.source.failed ≡ false = rw w.picked f in
    let v =
      random_looser_volatiles-Strict draws o q s sv
        (not_early s lv (random_looser_volatiles-Flagged draws o q s) w.started) in
    let c =
      random_looser_consts-Strict draws o q lv.source
        (not_early lv.source lc (random_looser_consts-Flagged draws o q lv.source) ended) in
    let v' = Strict-clear_last_if (not side_effect_free) q.is_volatiles lv.flags e v in
    let kept = w.kept ∙ looser-make_scalar_volatiles o _ q.is_volatiles vs sv v' in
    let consts = rw (make_scalar_consts_looser o q.is_consts lc.flags sc c.0 c.1) at w.consts in
    IsStricter→stricter_than q r (record {
      same_consts = c.0 ∙ length-clear_last_if (is_write access) q.is_consts lc.flags consts;
      same_volatiles = rw kept v'.same;
      consts = levels-clear_last_if (is_write access) q.is_consts lc.flags consts c.0 c.1;
      storage = rw (kept, p.paired) v'.storage;
      volatiles = rw kept v'.levels;
    })
