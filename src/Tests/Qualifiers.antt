-- ===== src/Tests/Qualifiers.antt =====
-- The qualifiers at small inputs.
use hipsmith.Qualifiers.Pointer.{random_add_qualifiers, random_add_qualifiers_round_trip}
use hipsmith.Prelude.{◌≡◌, refl, ◌⊎◌, true, false, some, [], ◌∷◌}
use hipsmith.Prelude.Int.{pos}
use hipsmith.Qualifiers.Defs.{
  QualifierOptions, CvQualifiers, cv_qualifiers, read, write, stricter_than, matches,
  match_indirect, indirect_qualifiers, sanity_check, restrict, add_qualifiers,
}
use hipsmith.Qualifiers.Random.{
  coin, stop, Draws, Source, random_looser_consts, random_looser_volatiles, make_scalar_volatiles,
  make_scalar_consts, random_stricter_consts, random_stricter_volatiles,
}
use hipsmith.Qualifiers.Generate.{random_loose_qualifiers, simple, pointer, indirect_level}
use hipsmith.Qualifiers.Typed.{random_type_qualifiers, Exclusive}
use hipsmith.Qualifiers.Indirect.{indirect_qualifiers-sanity_check}
use hipsmith.Qualifiers.Strictness.{stricter_than-stricter}
use hipsmith.Qualifiers.Loose.{stricter_than-random_loose_qualifiers}
use hipsmith.Qualifiers.Typed.Shape.{
  random_type_qualifiers-sanity_check, random_type_qualifiers-Exclusive,
}

abbrev options : QualifierOptions
options = record {
  match_exact_qualifiers = false;
  allow_const_volatile = false;
  volatile_pointers = true;
  global_variables = true;
  const_pointers = true;
}

-- int *, const int * and const int * const, with the volatile flags clear
abbrev plain : CvQualifiers
plain = record {
  wildcard = false;
  accept_stricter = false;
  is_consts = false ∷ false ∷ [];
  is_volatiles = false ∷ false ∷ [];
}

abbrev const_storage : CvQualifiers
const_storage = record plain { is_consts = true ∷ false ∷ [] }

abbrev const_both : CvQualifiers
const_both = record plain { is_consts = true ∷ true ∷ [] }

abbrev volatile_pointer : CvQualifiers
volatile_pointer = record plain { is_consts = true ∷ false ∷ []; is_volatiles = false ∷ true ∷ [] }

abbrev start : Source
start = record { made = 0; failed = false }

abbrev heads : Draws
heads n = coin true

abbrev tails : Draws
tails n = coin false

-- int ** is not stricter than int ** with a constant storage, nor the other way round.
deep_const :
    stricter_than
      (cv_qualifiers (true ∷ false ∷ false ∷ []) (false ∷ false ∷ false ∷ []))
      (cv_qualifiers (false ∷ false ∷ false ∷ []) (false ∷ false ∷ false ∷ []))
    ≡ false
unfolding stricter_than cv_qualifiers
deep_const = refl

match_address :
    match_indirect options const_both (cv_qualifiers (true ∷ []) (false ∷ [])) ≡ some true
unfolding match_indirect matches add_qualifiers stricter_than indirect_qualifiers cv_qualifiers
match_address = refl

restrict_write : restrict write false const_both ≡ some const_storage
unfolding restrict
restrict_write = refl

stopped_early : (random_looser_consts (λ n. stop) options const_both start).flags ≡ []
unfolding random_looser_consts
stopped_early = refl

indirect_qualifiers-sanity_check_example :
    (r : CvQualifiers) × (indirect_qualifiers (pos 1) const_both ≡ some r)
    × (sanity_check r 0 ≡ true)
unfolding sanity_check
indirect_qualifiers-sanity_check_example = indirect_qualifiers-sanity_check 1 0 const_both refl

stricter_than-stricter_example :
    stricter_than
      (cv_qualifiers
        (random_stricter_consts heads options plain start).flags
        (random_stricter_volatiles heads options plain start).flags)
      plain
    ≡ true
unfolding random_stricter_consts random_stricter_volatiles make_scalar_volatiles
stricter_than-stricter_example =
    stricter_than-stricter heads options plain start start (record { paired = refl }) refl refl refl

stricter_than-random_loose_qualifiers_example : stricter_than volatile_pointer plain ≡ true
unfolding random_loose_qualifiers make_scalar_volatiles make_scalar_consts random_looser_volatiles
    random_looser_consts
stricter_than-random_loose_qualifiers_example =
    stricter_than-random_loose_qualifiers tails options write true volatile_pointer start
      {s' = record { made = 2; failed = false }} refl (record { paired = refl }) refl refl refl refl

random_type_qualifiers-sanity_check_example :
    sanity_check
      (random_type_qualifiers (λ n. true) options true (some (pointer simple)) write true false)
      (indirect_level (pointer simple))
    ≡ true
random_type_qualifiers-sanity_check_example =
    random_type_qualifiers-sanity_check (λ n. true) options true (pointer simple) write true false

random_type_qualifiers-Exclusive_example :
    Exclusive
      (random_type_qualifiers
        (λ n. true)
        options
        true
        (some (pointer simple))
        read
        true
        false).is_consts
      (random_type_qualifiers
        (λ n. true)
        options
        true
        (some (pointer simple))
        read
        true
        false).is_volatiles
random_type_qualifiers-Exclusive_example =
    random_type_qualifiers-Exclusive (λ n. true) options true (pointer simple) read true false refl

random_add_qualifiers_round_trip_example :
    (((random_add_qualifiers options false (coin true) (coin false) false false plain).failed
        ≡ true)
      × ((random_add_qualifiers options false (coin true) (coin false) false false plain).qualifiers
          ≡ plain))
    ⊎ (indirect_qualifiers
          (pos 1)
          (random_add_qualifiers options false
            (coin true)
            (coin false)
            false
            false
            plain).qualifiers
        ≡ some plain)
random_add_qualifiers_round_trip_example =
    random_add_qualifiers_round_trip options false (coin true) (coin false) false false plain refl
