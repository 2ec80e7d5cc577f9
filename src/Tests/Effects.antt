-- ===== src/Tests/Effects.antt =====
-- The effects at small inputs.
use hipsmith.Prelude.{
  ℕ, zero, suc, ◌<◌, ◌≡◌, ◌↔◌, refl, ◌&&◌, ◌||◌, true, false, Option, some, none, List, [], ◌∷◌,
  arith,
}
use hipsmith.Variables.Store.{Store, IsStore, TypeDesc, simple, union, is_aggregate, matches}
use hipsmith.Variables.Contains.{Contains, matches-Contains}
use hipsmith.Effects.Defs.{
  Effect, is_read, is_written, add_effect, has_race_with, consolidate,
  sibling_union_field_is_written,
}
use hipsmith.Effects.Fields.{is_written_partially}
use hipsmith.Effects.Union.{add_effect_union}
use hipsmith.Effects.Race.{has_race_with-add_effect}
use hipsmith.Effects.Consolidate.{is_written-consolidate}

-- Variable 0 is a union with the field 1, and variable 2 is a number.
abbrev field_of : ℕ → Option ℕ
field_of zero = none
field_of (suc zero) = some 0
field_of (suc (suc n)) = none

abbrev type_of : ℕ → Option TypeDesc
type_of zero = some union
type_of (suc n) = some simple

abbrev fields_of : ℕ → List ℕ
fields_of zero = 1 ∷ []
fields_of (suc n) = []

abbrev height : ℕ → ℕ
height zero = 1
height (suc n) = 0

abbrev store : Store
store = record {
  type = type_of;
  field_var_of = field_of;
  field_vars = fields_of;
  collective = λ v. v;
  is_array = λ v. false;
  is_global = λ v. true;
  is_const = λ v. false;
  is_volatile = λ v. false;
  is_access_once = λ v. false;
}

earlier : (v u : ℕ) → field_of v ≡ some u → u < v
earlier zero u e = ground (arith, e)
earlier (suc zero) u e = ground (arith, e)
earlier (suc (suc n)) u e = ground (arith, e)

aggregate : (v u : ℕ) → field_of v ≡ some u → is_aggregate (type_of u) ≡ true
unfolding is_aggregate
aggregate zero u e = ground (arith, e)
aggregate (suc zero) zero e = refl
aggregate (suc zero) (suc u) e = ground (arith, e)
aggregate (suc (suc n)) u e = ground (arith, e)

typed : (v u : ℕ) → field_of v ≡ some u → (t : TypeDesc) × (type_of v ≡ some t)
typed zero u e = (union, refl)
typed (suc n) u e = (simple, refl)

store-IsStore : IsStore store
store-IsStore = record { earlier = earlier; aggregate = aggregate; typed = typed }

abbrev nothing : Effect
nothing = record {
  read_vars = [];
  write_vars = [];
  lhs_write_vars = [];
  pure = true;
  side_effect_free = true;
}

-- One effect writes to the union and the other one to its field.
abbrev whole : Effect
whole = record nothing { write_vars = 0 ∷ [] }

abbrev part : Effect
part = record nothing { write_vars = 1 ∷ [] }

part_left_out : (add_effect store whole part false).write_vars ≡ 0 ∷ []
unfolding add_effect is_written
part_left_out = refl

-- The field of a union that is read counts as read, until `consolidate` leaves only the union.
consolidate_forgets_read :
    (is_read store (record nothing { read_vars = 0 ∷ 1 ∷ [] }) 1 ≡ true)
    × (is_read store (consolidate store (record nothing { read_vars = 0 ∷ 1 ∷ [] })) 1 ≡ false)
unfolding is_read consolidate
consolidate_forgets_read = (refl, refl)

matches-Contains_example : (matches store 0 1 ≡ true) ↔ Contains store 0 1
matches-Contains_example = matches-Contains store store-IsStore 0 1

add_effect_union_example :
    (is_read store (add_effect store whole part true) 1
      ≡ is_read store whole 1 || is_read store part 1)
    × (is_written store (add_effect store whole part true) 1
        ≡ is_written store whole 1 || is_written store part 1)
    × ((add_effect store whole part true).pure ≡ whole.pure && part.pure)
    × ((add_effect store whole part true).side_effect_free
        ≡ whole.side_effect_free && part.side_effect_free)
add_effect_union_example = add_effect_union store whole part true 1 store-IsStore

has_race_with-add_effect_example :
    has_race_with store (add_effect store whole part false) part
    ≡ has_race_with store whole part || has_race_with store part part
has_race_with-add_effect_example =
    has_race_with-add_effect store whole part part false store-IsStore

is_written-consolidate_example :
    is_written store (consolidate store (record nothing { write_vars = 0 ∷ 1 ∷ [] })) 1
    ≡ is_written store (record nothing { write_vars = 0 ∷ 1 ∷ [] }) 1
is_written-consolidate_example =
    is_written-consolidate store (record nothing { write_vars = 0 ∷ 1 ∷ [] }) 1 store-IsStore

partly_written :
    (is_written_partially store 1 part 0 ≡ true) × (is_written_partially store 1 nothing 0 ≡ false)
unfolding is_written_partially is_written sibling_union_field_is_written
partly_written = (refl, refl)
