-- ===== src/Tests/Contexts.antt =====
-- The checks of a context at small inputs.
use hipsmith.Prelude.{
  ℕ, zero, suc, ◌≤◌, ◌<◌, ◌≡◌, refl, true, false, Option, some, none, List, [], ◌∷◌, ◌==◌,
  if◌then◌else◌, elem, leb, arith,
}
use hipsmith.Variables.Store.{
  Store, IsStore, TypeDesc, simple, pointer, struct, union, is_aggregate, is_union,
}
use hipsmith.Effects.Defs.{
  Effect, meets, sibling_union_field_is_read, sibling_union_field_is_written,
  write_var as effect_write_var, is_read, is_written, has_race_with,
}
use hipsmith.Effects.Fields.{is_read_partially, is_written_partially}
use hipsmith.Facts.Defs.{Fact, point_to, is_related}
use hipsmith.Facts.PointTo.{Specials, Risks, merge_pointees_of_pointers, trace_pointees}
use hipsmith.Contexts.Defs.{
  Context, refused, write_var, Visit, in_conflict, conflicts_reading, conflicts_writing,
}
use hipsmith.Contexts.Checks.{check_read_var, check_write_var, follow_pointer, write_pointed}
use hipsmith.Contexts.Nested.{IsNested}
use hipsmith.Contexts.Race.{
  accum_races, IsAround, IsSafe, Keeps, read_races, write_races, has_read, has_written,
  nothing_more,
}
use hipsmith.Contexts.Reached.{level_races}
use hipsmith.Contexts.Indices.{VisitKeeps}
use hipsmith.Contexts.Safety.{check_read_var-Keeps, check_write_var-Keeps, follow_pointer-Keeps}
use hipsmith.Contexts.Conflict.{in_conflict-has_race_with}

-- Variable 0 is a struct with the field 1; 2 is a pointer, 3 is an array; 5, 6 and 7 are special.
abbrev type_of : ℕ → Option TypeDesc
type_of zero = some struct
type_of (suc v) = if v == 1 then some pointer else some simple

abbrev field_of : ℕ → Option ℕ
field_of zero = none
field_of (suc zero) = some 0
field_of (suc (suc n)) = none

abbrev fields_of : ℕ → List ℕ
fields_of zero = 1 ∷ []
fields_of (suc n) = []

abbrev height : ℕ → ℕ
height zero = 1
height (suc n) = 0

abbrev store : Store
store = record {
  type = type_of;
  field_var_of = field_of;
  field_vars = fields_of;
  collective = λ v. v;
  is_array = λ v. v == 3;
  is_global = λ v. true;
  is_const = λ v. false;
  is_volatile = λ v. false;
  is_access_once = λ v. false;
}

abbrev specials : Specials
specials = record { null_ptr = 5; garbage_ptr = 6; tbd_ptr = 7 }

abbrev no_risk : Risks
no_risk = record { null_pointer_dereference_prob = 0; dead_pointer_dereference_prob = 0 }

-- The effects around have written the field and read variable 4.
abbrev around : Effect
around = record {
  read_vars = 4 ∷ [];
  write_vars = 1 ∷ [];
  lhs_write_vars = [];
  pure = true;
  side_effect_free = true;
}

abbrev nothing : Effect
nothing = record around { read_vars = []; write_vars = [] }

abbrev start : Context
start = record {
  rw_directive = none;
  iv_bounds = [];
  no_dangling_ptr = false;
  effect_context = around;
  effect_accum = some nothing;
  effect_stm = nothing;
}

-- An index expression is a number, which is also a variable that its visit finds or not.
abbrev indices : ℕ → List ℕ
indices v = if v == 3 then 4 ∷ [] else []

abbrev visit : ℕ → List Fact → Context → Visit
visit e facts c = record { done = leb e 4; facts = facts; context = c }

-- The pointer points to the struct or to the array.
abbrev facts : List Fact
facts = point_to 2 (0 ∷ 3 ∷ []) ∷ []

read_struct_refused :
    check_read_var store specials no_risk 1 indices visit start 0 facts
    ≡ some (record { passed = false; context = start })
unfolding check_read_var is_written_partially is_written conflicts_reading refused
read_struct_refused = refl

write_array_passes :
    check_write_var store specials no_risk 1 indices visit start 3 facts
    ≡ some (record {
      passed = true;
      context = record start {
        effect_accum = some (record nothing { write_vars = 3 ∷ [] });
        effect_stm = record nothing { write_vars = 3 ∷ [] };
      };
    })
unfolding check_write_var is_written_partially is_read_partially is_written is_read
    conflicts_writing sibling_union_field_is_written is_union sibling_union_field_is_read write_var
    effect_write_var
write_array_passes = refl

no_level_fails : write_pointed store specials no_risk 1 indices visit start 2 0 facts ≡ none
unfolding write_pointed
no_level_fails = refl

write_pointed_refused :
    write_pointed store specials no_risk 1 indices visit start 2 1 facts
    ≡ some (record { passed = false; context = start })
unfolding write_pointed is_written_partially is_written conflicts_writing merge_pointees_of_pointers
    is_related refused
write_pointed_refused = refl

store-IsStore : IsStore store
unfolding is_aggregate
store-IsStore = record { earlier = earlier; aggregate = aggregate; typed = typed }
  where
    earlier : (v u : ℕ) → field_of v ≡ some u → u < v
    earlier zero u e = ground (arith, e)
    earlier (suc zero) u e = ground (arith, e)
    earlier (suc (suc n)) u e = ground (arith, e)

    aggregate : (v u : ℕ) → field_of v ≡ some u → is_aggregate (type_of u) ≡ true
    aggregate zero u e = ground (arith, e)
    aggregate (suc zero) zero e = refl
    aggregate (suc zero) (suc u) e = ground (arith, e)
    aggregate (suc (suc n)) u e = ground (arith, e)

    typed : (v u : ℕ) → field_of v ≡ some u → (t : TypeDesc) × (type_of v ≡ some t)
    typed zero u e = ground (arith, e)
    typed (suc zero) u e = (simple, refl)
    typed (suc (suc n)) u e = ground (arith, e)

store-IsNested : IsNested store height
unfolding is_union
store-IsNested = record { listed = listed; lower = lower; outermost = outermost }
  where
    listed : (v u : ℕ) → field_of v ≡ some u → elem v (fields_of u) ≡ true
    listed zero u e = ground (arith, e)
    listed (suc zero) zero e = refl
    listed (suc zero) (suc u) e = ground (arith, e)
    listed (suc (suc n)) u e = ground (arith, e)

    lower : (v f : ℕ) → elem f (fields_of v) ≡ true → height f < height v
    lower zero zero h = ground (arith, h)
    lower zero (suc f) h = omega arith
    lower (suc v) f h = ground (arith, h)

    outermost : (v u : ℕ) → field_of v ≡ some u → is_union (type_of v) ≡ false
    outermost zero u e = refl
    outermost (suc zero) u e = refl
    outermost (suc (suc n)) u e = ground (arith, e)

deep : (v : ℕ) → height v ≤ 1
deep zero = omega arith
deep (suc v) = omega arith

around-IsAround : IsAround store height 1 around
around-IsAround = record {
  store = store-IsStore;
  nested = store-IsNested;
  deep = deep;
  collective_idem = λ v. refl;
  reads_collective = λ w i. refl;
}

start-IsSafe : IsSafe store around start
unfolding accum_races has_race_with
start-IsSafe = record { same_context = refl; no_race = refl }

visit-VisitKeeps : VisitKeeps store around ℕ visit
visit-VisitKeeps e _ c safe = safe

check_read_var-Keeps_example :
    Keeps store around
      (read_races store around 3)
      (has_read store 3)
      (check_read_var store specials no_risk 1 indices visit start 3 facts)
check_read_var-Keeps_example =
    check_read_var-Keeps store specials no_risk 1 indices visit height around around-IsAround
      visit-VisitKeeps start 3 facts start-IsSafe

check_write_var-Keeps_example :
    Keeps store around
      (write_races store around 3)
      (has_written store 3)
      (check_write_var store specials no_risk 1 indices visit start 3 facts)
check_write_var-Keeps_example =
    check_write_var-Keeps store specials no_risk 1 indices visit height around around-IsAround
      visit-VisitKeeps start 3 facts start-IsSafe

positive : 0 < 1
positive = omega arith

traced : trace_pointees store specials facts 1 (2 ∷ []) ≡ some (0 ∷ 3 ∷ [])
unfolding trace_pointees is_related
traced = refl

follow_pointer-Keeps_example :
    Keeps store around
      (level_races store specials around true facts 1 (2 ∷ []))
      nothing_more
      (follow_pointer store specials no_risk 1 indices visit true start 2 1 facts)
follow_pointer-Keeps_example =
    follow_pointer-Keeps store specials no_risk 1 indices visit height around around-IsAround
      visit-VisitKeeps true start 2 1 facts nothing (0 ∷ 3 ∷ []) refl positive traced start-IsSafe

-- An effect that writes to the array and reads variable 4.
abbrev taken : Effect
taken = record nothing { read_vars = 4 ∷ []; write_vars = 3 ∷ [] }

not_in_conflict : in_conflict store 1 start taken ≡ false
unfolding in_conflict is_written_partially is_written sibling_union_field_is_written is_union
    is_read_partially is_read sibling_union_field_is_read
not_in_conflict = refl

in_conflict-has_race_with_example : has_race_with store start.effect_context taken ≡ false
in_conflict-has_race_with_example =
    in_conflict-has_race_with store height 1 start taken around-IsAround (λ v i. refl)
      not_in_conflict

-- A struct that holds a union with a field: 0, 1 and 2.
abbrev deep_store : Store
deep_store = record store {
  type = λ v. if v == 0 then some struct else if v == 1 then some union else some simple;
  field_var_of = λ v. if v == 1 then some 0 else if v == 2 then some 1 else none;
  field_vars = λ v. if v == 0 then 1 ∷ [] else if v == 1 then 2 ∷ [] else [];
}

abbrev struct_read : Effect
struct_read = record nothing { read_vars = 0 ∷ [] }

-- The read of the struct is missed by the test at the field of the union.
struct_read_missed :
    (meets deep_store 2 struct_read.read_vars ≡ true)
    × (is_read_partially deep_store 2 struct_read 2 ≡ false)
unfolding meets is_read_partially is_read sibling_union_field_is_read is_union
struct_read_missed = (refl, refl)
