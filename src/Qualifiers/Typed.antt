-- ===== src/Qualifiers/Typed.antt =====
-- src/CVQualifiers.cpp: random qualifiers for a type, one pair of flags for each of its levels.
-- The flips of the coin are a parameter; the n-th one is `coins n`.
pub mod Shape
use hipsmith.Prelude.{
  ℕ, zero, suc, ◌+◌, ◌≡◌, Bool, true, false, not, ◌&&◌, ◌||◌, Option, none, some, List, [], ◌∷◌,
  ◌++◌, if◌then◌else◌, length, replicate,
}
use hipsmith.Qualifiers.Defs.{QualifierOptions, CvQualifiers, cv_qualifiers, Access, is_write}
use hipsmith.Qualifiers.Random.{make_scalar_volatiles, make_scalar_consts}
use hipsmith.Qualifiers.Generate.{
  CType, simple, pointer, struct, union, indirect_level, is_volatile_ok_on_one_level,
}

-- The flags of one level, and the flips made so far.
pub record Level : Type 0 where
  pub is_const : Bool
  pub is_volatile : Bool
  pub made : ℕ

pub record Levels : Type 0 where
  pub consts : List Bool
  pub volatiles : List Bool
  pub made : ℕ

module _ (coins : ℕ → Bool) (o : QualifierOptions) (lang_cpp : Bool) where
  -- One flip for a flag that is allowed, and none for one that is not.
  unfoldable pub pick_level : Bool → Bool → ℕ → Level
  pick_level volatile_ok const_ok n =
      let after_volatile = if volatile_ok then n + 1 else n in
      let is_volatile = volatile_ok && coins n in
      let is_const = const_ok && coins after_volatile in
      record {
        is_const = is_const && not (is_volatile && not o.allow_const_volatile);
        is_volatile = is_volatile;
        made = if const_ok then after_volatile + 1 else after_volatile;
      }

  -- The loop over the types that `t` points to: the flags are drawn from the outside in, and stand
  -- in reverse order.
  unfoldable pub pointee_levels : CType → ℕ → Levels
  unfolding pick_level
  pointee_levels (pointer t) n =
      let here = pick_level (is_volatile_ok_on_one_level t lang_cpp) true n in
      let inner = pointee_levels t here.made in
      record {
        consts = inner.consts ++ here.is_const ∷ [];
        volatiles = inner.volatiles ++ here.is_volatile ∷ [];
        made = inner.made;
      }
  pointee_levels _ n = record { consts = []; volatiles = []; made = n }

  -- `none` is the null type. The context enters by whether its effects are free of side effects.
  unfoldable pub random_type_qualifiers : Option CType → Access → Bool → Bool → CvQualifiers
  unfolding pointee_levels is_write cv_qualifiers make_scalar_volatiles make_scalar_consts
  random_type_qualifiers none access side_effect_free no_volatile = cv_qualifiers [] []
  random_type_qualifiers (some t) access side_effect_free no_volatile =
      let below = pointee_levels t 0 in
      let own =
        pick_level (side_effect_free && is_volatile_ok_on_one_level t lang_cpp)
          (not (is_write access)) below.made in
      let vs = below.volatiles ++ own.is_volatile ∷ [] in
      let volatiles = if no_volatile then replicate (length vs) false else vs in
      cv_qualifiers (make_scalar_consts o (below.consts ++ own.is_const ∷ []))
        (make_scalar_volatiles o volatiles)

-- No level is both constant and volatile.
abbrev pub Exclusive : List Bool → List Bool → Type 0
Exclusive [] vs = Unit
Exclusive (c ∷ cs) [] = Unit
Exclusive (c ∷ cs) (v ∷ vs) = (c && v ≡ false) × Exclusive cs vs
