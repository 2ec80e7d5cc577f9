-- ===== src/Tests/Enumerator.antt =====
-- The enumeration of combinations at small inputs.
use hipsmith.Prelude.{ℕ, ◌+◌, ◌≡◌, ◌⊎◌, refl, true, false, Option, some, none, [], ◌∷◌, arith}
use hipsmith.Choices.Enumerator.{
  EnumObject, Enumerator, moved, finished, next, begin_enum, empty_enumerator, add_elem,
}
use hipsmith.Choices.Enumerator.Odometer.{total, place}
use hipsmith.Choices.Enumerator.Steps.{IsReady, iterate, next-place, iterate_ends}

abbrev digit : ℕ → ℕ → ℕ → EnumObject
digit name bound value = record {
  name = name;
  bound = bound;
  current_value = value;
  is_bool = false;
  bool_value = false;
  changed = false;
}

-- Two objects with 2 and 3 values, at the combination (0, 2).
abbrev pair : Enumerator
pair = record { objs = digit 1 2 0 ∷ digit 2 3 2 ∷ []; forward_pos = 1; backward_pos = 0 }

pair-IsReady : IsReady pair
pair-IsReady = record {
  two = omega arith;
  good = (omega arith, (omega arith, tt));
  at_last = refl;
  before_last = refl;
}

built : Option Enumerator
built = elim (add_elem empty_enumerator 2 3) [
  | none ↦ none
  | some e ↦ elim (add_elem e 1 2) [ none ↦ none | some e' ↦ begin_enum e' ]
]

built_runs :
    built
    ≡ some (record { objs = digit 1 2 0 ∷ digit 2 3 0 ∷ []; forward_pos = 1; backward_pos = 0 })
unfolding built add_elem begin_enum empty_enumerator
built_runs = refl

next_runs :
    next pair
    ≡ moved (record {
      objs = record (digit 1 2 1) { changed = true } ∷ digit 2 3 0 ∷ [];
      forward_pos = 1;
      backward_pos = 0;
    })
unfolding next
next_runs = refl

-- A single object is not enough: the backward position would stand before the first one.
one_object_fails :
    begin_enum (record { objs = digit 1 2 0 ∷ []; forward_pos = 0; backward_pos = 0 }) ≡ none
unfolding begin_enum
one_object_fails = refl

next-place_example :
    ((e' : Enumerator) × (next pair ≡ moved e')
      × IsReady e'
      × (place e'.objs ≡ place pair.objs + 1)
      × (total e'.objs ≡ total pair.objs))
    ⊎ ((next pair ≡ finished) × (place pair.objs + 1 ≡ total pair.objs))
next-place_example = next-place pair pair-IsReady

iterate_ends_example : (e' : Enumerator) × (iterate 3 pair ≡ moved e') × (next e' ≡ finished)
unfolding total place
iterate_ends_example = iterate_ends 3 pair pair-IsReady refl
