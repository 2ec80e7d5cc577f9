-- ===== src/Choices/Enumerator.antt =====
-- src/Enumerator.h: the enumeration of all combinations of values. The map from names to objects is
-- a list in the order of the names, which are numbers here. The two iterators are positions, and the
-- end is the number of objects. A failing assertion and a step before the first object are `none`.
pub mod Odometer
pub mod Steps
use hipsmith.Prelude.{
  ℕ, zero, suc, ◌+◌, ◌-◌, ◌≡◌, Bool, true, false, not, ◌&&◌, Option, none, some, List, [], ◌∷◌,
  ◌==◌, ltb, if◌then◌else◌, length, get_elem?, set, map,
}
use mathlib.Core.Option

pub record EnumObject : Type 0 where
  pub name : ℕ
  pub bound : ℕ
  pub current_value : ℕ
  pub is_bool : Bool
  pub bool_value : Bool
  pub changed : Bool

-- EnumObject::next, where it returns true.
unfoldable pub bump : EnumObject → EnumObject
bump x = record x { current_value = x.current_value + 1; changed = true }

-- Whether EnumObject::next returns true; else the object stays as it was.
unfoldable pub can_bump : EnumObject → Bool
can_bump x = ltb (x.current_value + 1) x.bound

unfoldable pub clear_value : EnumObject → EnumObject
clear_value x = record x { current_value = 0 }

unfoldable pub reset_changed : EnumObject → EnumObject
reset_changed x = record x { changed = false }

pub record Enumerator : Type 0 where
  pub objs : List EnumObject
  pub forward_pos : ℕ
  pub backward_pos : ℕ

unfoldable pub empty_enumerator : Enumerator
empty_enumerator = record { objs = []; forward_pos = 0; backward_pos = 0 }

unfoldable pub find_obj : ℕ → List EnumObject → Option EnumObject
find_obj name [] = none
find_obj name (x ∷ xs) = if x.name == name then some x else find_obj name xs

unfoldable pub insert_obj : EnumObject → List EnumObject → List EnumObject
insert_obj x [] = x ∷ []
insert_obj x (y ∷ ys) = if ltb x.name y.name then x ∷ y ∷ ys else y ∷ insert_obj x ys

-- Adds an object unless the name is taken or the bound is zero.
unfoldable pub add_object : Enumerator → ℕ → ℕ → Bool → Bool → Option Enumerator
unfolding find_obj insert_obj
add_object e name bound is_bool bool_value = elim (find_obj name e.objs) [
  | some x ↦ none
  | none ↦
      if bound == 0
      then none
      else some (record e {
        objs =
            insert_obj
              (record {
                name = name;
                bound = bound;
                current_value = 0;
                is_bool = is_bool;
                bool_value = bool_value;
                changed = false;
              })
              e.objs;
      })
]

unfoldable pub add_elem : Enumerator → ℕ → ℕ → Option Enumerator
unfolding add_object
add_elem e name bound = add_object e name bound false false

unfoldable pub add_bool_elem_of_bool : Enumerator → ℕ → Bool → Option Enumerator
unfolding add_object
add_bool_elem_of_bool e name value = add_object e name (if value then 2 else 1) true false

unfoldable pub add_bool_elem : Enumerator → ℕ → ℕ → Option Enumerator
unfolding add_object
add_bool_elem e name value =
    if value == 0
    then add_object e name 1 true false
    else if value == 100
    then add_object e name 1 true true
    else add_object e name 2 true false

unfoldable pub get_elem : Enumerator → ℕ → Option ℕ
unfolding find_obj
get_elem e name = elim (find_obj name e.objs) [
  | none ↦ none
  | some x ↦
      if x.is_bool
      then if x.bound == 1
        then some (if x.bool_value then 1 else 0)
        else some (if x.current_value == 0 then 0 else 1)
      else some x.current_value
]

unfoldable pub is_changed : Enumerator → ℕ → Option Bool
unfolding find_obj
is_changed e name = Option.map (λ x. x.changed) (find_obj name e.objs)

unfoldable pub clear_all : List EnumObject → List EnumObject
unfolding clear_value
clear_all [] = []
clear_all (x ∷ xs) = clear_value x ∷ clear_all xs

unfoldable pub reset_all_changed : List EnumObject → List EnumObject
unfolding reset_changed
reset_all_changed [] = []
reset_all_changed (x ∷ xs) = reset_changed x ∷ reset_all_changed xs

unfoldable pub reset_pos : Enumerator → Option Enumerator
reset_pos e =
    if ltb 1 (length e.objs)
    then some (record e { forward_pos = length e.objs - 1; backward_pos = length e.objs - 2 })
    else none

-- With two objects the last one is not the first, so that the test of `begin` on the first object never
-- applies.
unfoldable pub begin_enum : Enumerator → Option Enumerator
unfolding reset_pos
begin_enum e = reset_pos e

-- The object at a position advances, and all objects after it are cleared (`next` of the object,
-- then `reset_after_backward_pos`); `none` where it cannot advance.
unfoldable pub advance_at : ℕ → List EnumObject → Option (List EnumObject)
unfolding bump can_bump clear_all
advance_at i [] = none
advance_at zero (x ∷ xs) = if can_bump x then some (bump x ∷ clear_all xs) else none
advance_at (suc i) (x ∷ xs) = Option.map (λ ys. x ∷ ys) (advance_at i xs)

-- The objects after `roll_back_current_pos` from a backward position; `none` where it returns false.
unfoldable pub roll_back : ℕ → List EnumObject → Option (List EnumObject)
unfolding advance_at
roll_back zero objs = advance_at zero objs
roll_back (suc i) objs = elim (advance_at (suc i) objs) [
  | some objs' ↦ some objs'
  | none ↦ roll_back i objs
]

-- What a step ends with: the next combination, or none is left, or an assertion has failed.
pub data Step : Type 0 where
  moved : Enumerator → Step
  finished failed : Step

unfoldable pub moved_to : Option Enumerator → Step
moved_to none = failed
moved_to (some e) = moved e

-- `next`, which calls itself again at the last position if it stands before it.
unfoldable pub next_within : ℕ → Enumerator → Step
unfolding reset_pos roll_back reset_all_changed can_bump bump moved_to
next_within zero e = failed
next_within (suc calls) e =
    let objs = reset_all_changed e.objs in
    let again : Step = elim (reset_pos (record e { objs = objs })) [
      | none ↦ failed
      | some e' ↦ next_within calls e'
    ] in
    elim (get_elem? objs e.forward_pos) [
      | none ↦ failed
      | some x ↦
          if can_bump x
          then moved (record e { objs = set objs e.forward_pos (bump x) })
          else if e.forward_pos + 1 == length objs
          then elim (roll_back e.backward_pos objs) [
            | none ↦ finished
            | some objs' ↦ moved_to (reset_pos (record e { objs = objs' }))
          ]
          else again
    ]

-- Two calls are enough, since the second one stands at the last position.
unfoldable pub next : Enumerator → Step
unfolding next_within
next e = next_within 2 e
