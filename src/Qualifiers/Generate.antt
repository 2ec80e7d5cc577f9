-- ===== src/Qualifiers/Generate.antt =====
-- src/CVQualifiers.cpp: the functions that make whole qualifiers at random, from given ones or for
-- a type. A write to the last flag of an empty vector is `none`.
use hipsmith.Prelude.{
  ℕ, ◌+◌, Bool, true, false, not, Option, none, some, List, [], ◌∷◌, if◌then◌else◌, length,
  replicate,
}
use hipsmith.Qualifiers.Defs.{QualifierOptions, CvQualifiers, cv_qualifiers, Access, is_write}
use hipsmith.Qualifiers.Random.{
  Draws, Source, Flags, make_scalar_volatiles, make_scalar_consts, random_looser_consts,
  random_looser_volatiles, random_stricter_consts, random_stricter_volatiles,
}

-- flags[flags.size() - 1] = false
unfoldable pub clear_last : List Bool → Option (List Bool)
clear_last [] = none
clear_last (x ∷ []) = some (false ∷ [])
clear_last (x ∷ y ∷ ys) = elim (clear_last (y ∷ ys)) [ none ↦ none | some zs ↦ some (x ∷ zs) ]

unfoldable pub clear_last_if : Bool → List Bool → Option (List Bool)
unfolding clear_last
clear_last_if test flags = if test then clear_last flags else some flags

-- `none` is a write outside of a vector; else the qualifiers, and the source afterwards.
abbrev pub Made : Type 0
Made = Option (CvQualifiers × Source)

-- What the two functions below do once the volatile flags are there.
unfoldable pub with_consts :
    QualifierOptions → (Source → Flags) → Access → List Bool → Source → Made
unfolding clear_last_if is_write cv_qualifiers make_scalar_volatiles make_scalar_consts
with_consts o pick_consts access volatiles s =
    if s.failed
    then some (cv_qualifiers [] volatiles, s)
    else let vs = make_scalar_volatiles o volatiles in
      let picked = pick_consts s in
      let cs = make_scalar_consts o picked.flags in
      if picked.source.failed
      then some (cv_qualifiers cs vs, picked.source)
      else elim (clear_last_if (is_write access) cs) [
        | none ↦ none
        | some cs' ↦ some (cv_qualifiers cs' vs, picked.source)
      ]

unfoldable pub random_by :
    QualifierOptions
    → (Source → Flags)
    → (Source → Flags)
    → Bool
    → Access
    → Bool
    → CvQualifiers
    → Source
    → Made
unfolding clear_last_if with_consts cv_qualifiers
random_by o pick_volatiles pick_consts no_volatile access side_effect_free q s =
    if q.wildcard
    then some
        (record (cv_qualifiers [] []) { wildcard = true; accept_stricter = q.accept_stricter }, s)
    else if no_volatile
    then with_consts o pick_consts access (replicate (length q.is_volatiles) false) s
    else let picked = pick_volatiles s in
      if picked.source.failed
      then some (cv_qualifiers [] picked.flags, picked.source)
      else elim (clear_last_if (not side_effect_free) picked.flags) [
        | none ↦ none
        | some vs ↦ with_consts o pick_consts access vs picked.source
      ]

-- The looser or the stricter flags, by `accept_stricter`.
module _ (draws : Draws) (o : QualifierOptions) (q : CvQualifiers) where
  abbrev pub chosen_volatiles : Source → Flags
  chosen_volatiles s =
      if not q.accept_stricter
      then random_looser_volatiles draws o q s
      else random_stricter_volatiles draws o q s

  abbrev pub chosen_consts : Source → Flags
  chosen_consts s =
      if not q.accept_stricter
      then random_looser_consts draws o q s
      else random_stricter_consts draws o q s

module _ (draws : Draws) (o : QualifierOptions) (no_volatile : Bool) (access : Access)
    (side_effect_free : Bool) (q : CvQualifiers) where
  -- random_qualifiers(no_volatile, access, cg_context)
  unfoldable pub random_qualifiers : Source → Made
  unfolding random_by
  random_qualifiers =
      random_by o (chosen_volatiles draws o q) (chosen_consts draws o q) no_volatile access
        side_effect_free q

  unfoldable pub random_loose_qualifiers : Source → Made
  unfolding random_by
  random_loose_qualifiers =
      random_by o (random_looser_volatiles draws o q) (random_looser_consts draws o q) no_volatile
        access side_effect_free q

-- The part of a type that its qualifiers depend on.
mutual
  pub data CType : Type 0 where
    simple : CType
    pointer : CType → CType
    struct : (has_assign_ops : Bool) → Fields → CType
    union : (has_assign_ops : Bool) → Fields → CType

  pub data Fields : Type 0 where
    nil : Fields
    cons : CType → Fields → Fields

-- Type::get_indirect_level
unfoldable pub indirect_level : CType → ℕ
indirect_level (pointer t) = indirect_level t + 1
indirect_level _ = 0

unfoldable mutual
  pub is_volatile_ok_on_one_level : CType → Bool → Bool
  is_volatile_ok_on_one_level simple lang_cpp = true
  is_volatile_ok_on_one_level (pointer t) lang_cpp = true
  is_volatile_ok_on_one_level (struct has_assign_ops fs) lang_cpp =
      if not lang_cpp then true else if not has_assign_ops then false else true
  is_volatile_ok_on_one_level (union has_assign_ops fs) lang_cpp =
      if not lang_cpp
      then true
      else if not has_assign_ops
      then false
      else fields_volatile_ok fs lang_cpp

  pub fields_volatile_ok : Fields → Bool → Bool
  fields_volatile_ok nil lang_cpp = true
  fields_volatile_ok (cons (struct a gs) fs) lang_cpp = false
  fields_volatile_ok (cons (union a gs) fs) lang_cpp =
      if not (is_volatile_ok_on_one_level (union a gs) lang_cpp)
      then false
      else fields_volatile_ok fs lang_cpp
  fields_volatile_ok (cons simple fs) lang_cpp = fields_volatile_ok fs lang_cpp
  fields_volatile_ok (cons (pointer t) fs) lang_cpp = fields_volatile_ok fs lang_cpp
