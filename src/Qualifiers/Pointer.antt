-- ===== src/Qualifiers/Pointer.antt =====
-- src/CVQualifiers.cpp, `random_add_qualifiers`: random qualifiers for one more level of pointer.
use hipsmith.Prelude.{
  ◌≡◌, ◌⊎◌, Bool, true, false, not, ◌&&◌, Option, none, some, if◌then◌else◌, arith, Bool-cases,
  Option-cases, inl, inr,
}
use hipsmith.Prelude.Int.{pos}
use hipsmith.Qualifiers.Defs.{
  QualifierOptions, CvQualifiers, add_qualifiers, indirect_qualifiers, remove_qualifiers,
}
use hipsmith.Qualifiers.Random.{Draw, coin, stop}
use hipsmith.Qualifiers.Indirect.{pop_back-append}

-- The qualifiers, and the error flag.
pub record Added : Type 0 where
  pub qualifiers : CvQualifiers
  pub failed : Bool

-- A flip for a flag that is allowed, and no flip for one that is not; `none` is ERROR_GUARD, which
-- also stops at an error from before.
unfoldable pub draw_allowed : Bool → Draw → Bool → Option Bool
draw_allowed allowed draw true = none
draw_allowed false draw false = some false
draw_allowed true (coin b) false = some b
draw_allowed true stop false = none

-- `guard` says that the depth guard stops the search, which sets the error flag. `failed` is the
-- flag before.
unfoldable pub random_add_qualifiers :
    QualifierOptions
    → (guard : Bool) → (const_draw volatile_draw : Draw) → (failed no_volatile : Bool)
    → CvQualifiers
    → Added
unfolding draw_allowed add_qualifiers
random_add_qualifiers o guard const_draw volatile_draw failed no_volatile q =
    if o.match_exact_qualifiers
    then record { qualifiers = add_qualifiers false false q; failed = failed }
    else if guard
    then record { qualifiers = q; failed = true }
    else elim (draw_allowed o.const_pointers const_draw failed) [
      | none ↦ record { qualifiers = q; failed = true }
      | some is_const ↦
          elim (draw_allowed (not no_volatile && o.volatile_pointers) volatile_draw failed) [
            | none ↦ record { qualifiers = q; failed = true }
            | some is_volatile ↦ record {
              qualifiers = add_qualifiers is_const is_volatile q;
              failed = failed;
            }
          ]
    ]

remove-add_qualifiers :
    (c v : Bool) (q : CvQualifiers)
    → q.wildcard ≡ false
    → indirect_qualifiers (pos 1) (add_qualifiers c v q) ≡ some q
unfolding indirect_qualifiers add_qualifiers remove_qualifiers
remove-add_qualifiers c v q w =
    ground (arith, w, pop_back-append q.is_consts c, pop_back-append q.is_volatiles v)

-- `random_add_qualifiers` either sets the error flag and leaves the qualifiers as they are, or adds
-- one level that dereferencing takes away again. The qualifiers are no wildcard.
pub random_add_qualifiers_round_trip :
    (o : QualifierOptions) (guard : Bool) (const_draw volatile_draw : Draw)
    (failed no_volatile : Bool) (q : CvQualifiers)
    → q.wildcard ≡ false
    → (((random_add_qualifiers o guard const_draw volatile_draw failed no_volatile q).failed ≡ true)
        × ((random_add_qualifiers o guard const_draw volatile_draw failed no_volatile q).qualifiers
            ≡ q))
      ⊎ (indirect_qualifiers
            (pos 1)
            (random_add_qualifiers o guard const_draw volatile_draw failed no_volatile q).qualifiers
          ≡ some q)
unfolding random_add_qualifiers
random_add_qualifiers_round_trip o guard cd vd failed no_volatile q w =
    elim (Bool-cases o.match_exact_qualifiers) [
      | inl e ↦ inr (ground (arith, e, remove-add_qualifiers false false q w))
      | inr e ↦ elim (Bool-cases guard) [
        | inl g ↦ inl (ground (arith, e, g), ground (arith, e, g))
        | inr g ↦ elim (Option-cases (draw_allowed o.const_pointers cd failed)) [
          | inl n ↦ inl (ground (arith, e, g, n), ground (arith, e, g, n))
          | inr (c, hc) ↦
              elim (Option-cases
                (draw_allowed (not no_volatile && o.volatile_pointers) vd failed)) [
                  | inl n ↦ inl (ground (arith, e, g, hc, n), ground (arith, e, g, hc, n))
                  | inr (v, hv) ↦ inr (ground (arith, e, g, hc, hv, remove-add_qualifiers c v q w))
                ]
        ]
      ]
    ]
