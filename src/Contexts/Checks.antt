-- ===== src/Contexts/Checks.antt =====
-- src/CGContext.cpp: the checks on variables, array indices and pointers. Expressions are parameters:
-- `indices` gives the index expressions of an array variable, and `visit_facts` visits one.
use hipsmith.Prelude.{
  ℕ, zero, suc, Bool, true, false, not, ◌&&◌, ◌||◌, Option, none, some, List, [], ◌∷◌, ltb, ◌==◌,
  if◌then◌else◌, elem,
}
use hipsmith.Variables.Store.{Store, containers, any_array}
use hipsmith.Effects.Defs.{Effect, copy_effect, assign_effect}
use hipsmith.Facts.Defs.{Fact}
use hipsmith.Facts.PointTo.{
  Specials, Risks, is_special_ptr, is_dangling_ptr, merge_pointees_of_pointers,
}
use hipsmith.Facts.Unions.{is_nonreadable_field}
use hipsmith.Contexts.Defs.{
  Context, Checked, Visit, refused, is_pointer, read_var, write_var, conflicts_reading,
  conflicts_writing,
}
use mathlib.Core.Option

-- What a loop does with the result of a check.
unfoldable pub if_passed : Option Checked → (Context → Option Checked) → Option Checked
if_passed none k = none
if_passed (some r) k = if r.passed then k r.context else some r

unfoldable pub passed_with : Option Context → Option Checked
passed_with none = none
passed_with (some c) = some (record { passed = true; context = c })

module _ (m : Store) (s : Specials) (r : Risks) (depth : ℕ) {Expr : Type 0}
    (indices : ℕ → List Expr) (visit_facts : Expr → List Fact → Context → Visit) where
  -- The loop over the indices of one array.
  unfoldable pub visit_indices : List Expr → List Fact → Context → Checked
  visit_indices [] facts c = record { passed = true; context = c }
  visit_indices (e ∷ es) facts c =
      let v = visit_facts e facts c in
      let rest = visit_indices es v.facts v.context in
      if v.done then rest else record { passed = false; context = v.context }

  -- `read_indices` along the walk through the containers: a variable that is no array is left for its
  -- container only if the outermost one is an array.
  unfoldable pub read_indices_on : List ℕ → List Fact → Context → Checked
  unfolding visit_indices any_array
  read_indices_on [] facts c = record { passed = true; context = c }
  read_indices_on (v ∷ vs) facts c =
      let here = visit_indices (indices v) facts c in
      let outer = read_indices_on vs facts here.context in
      let skipped = read_indices_on vs facts c in
      if m.is_array v
      then if here.passed then outer else here
      else if any_array m (v ∷ vs)
      then skipped
      else record { passed = true; context = c }

  unfoldable pub read_indices : Context → ℕ → List Fact → Checked
  unfolding read_indices_on containers
  read_indices c v facts = read_indices_on (containers m v) facts c

  unfoldable pub check_read_var : Context → ℕ → List Fact → Option Checked
  unfolding read_indices is_nonreadable_field conflicts_reading is_pointer is_dangling_ptr
      passed_with
  check_read_var c v facts =
      let read = read_indices c v facts in
      let w = m.collective v in
      if not read.passed
      then some read
      else if is_nonreadable_field m facts w
          || conflicts_reading m depth read.context w
          || (is_pointer m w && is_dangling_ptr m s r facts w)
      then refused read.context
      else passed_with (read_var m read.context w)

  unfoldable pub check_write_var : Context → ℕ → List Fact → Option Checked
  unfolding read_indices conflicts_writing is_pointer is_dangling_ptr passed_with
  check_write_var c v facts =
      let read = read_indices c v facts in
      let w = m.collective v in
      if not read.passed
      then some read
      else if conflicts_writing m depth read.context w
          || (read.context.no_dangling_ptr && is_pointer m w && is_dangling_ptr m s r facts w)
      then refused read.context
      else passed_with (write_var m read.context w)

  -- The loop over the variables that pointers reach at one level.
  unfoldable pub check_pointees : Bool → List Fact → List ℕ → Context → Option Checked
  unfolding if_passed check_read_var check_write_var
  check_pointees writes facts [] c = some (record { passed = true; context = c })
  check_pointees writes facts (p ∷ ps) c =
      let skipped = check_pointees writes facts ps c in
      if is_special_ptr s p
      then skipped
      else if_passed (if writes then check_write_var c p facts else check_read_var c p facts)
          (check_pointees writes facts ps)

  -- No variable is reached, or one of the two that must not be.
  unfoldable pub bad_pointees : List ℕ → Bool
  bad_pointees [] = true
  bad_pointees (p ∷ ps) =
      (not (ltb 0 r.null_pointer_dereference_prob) && elem s.null_ptr (p ∷ ps))
      || (not (ltb 0 r.dead_pointer_dereference_prob) && elem s.garbage_ptr (p ∷ ps))

  -- The loop over the levels: the last one is written if `writes` is set, and the others are read.
  unfoldable pub check_levels : Bool → List Fact → ℕ → List ℕ → Context → Option Checked
  unfolding bad_pointees if_passed check_pointees
  check_levels writes facts zero tmp c = some (record { passed = true; context = c })
  check_levels writes facts (suc indirect) tmp c = elim (merge_pointees_of_pointers m s facts tmp) [
    | none ↦ none
    | some pointees ↦
        if bad_pointees pointees
        then refused c
        else if_passed (check_pointees (writes && (indirect == 0)) facts pointees c)
            (check_levels writes facts indirect pointees)
  ]

  -- What had been accumulated is assigned back where a level fails; the assignment of effects keeps
  -- `lhs_write_vars`.
  unfoldable pub restore_accum : Effect → Option Checked → Option Checked
  unfolding assign_effect copy_effect
  restore_accum effect_accum_copy none = none
  restore_accum effect_accum_copy (some ch) =
      let back = Option.map (λ now. assign_effect now effect_accum_copy) ch.context.effect_accum in
      if ch.passed
      then some ch
      else some (record ch { context = record ch.context { effect_accum = back } })

  -- It asserts that the level of indirection is above zero.
  unfoldable pub follow_pointer : Bool → Context → ℕ → ℕ → List Fact → Option Checked
  unfolding restore_accum check_levels read_indices copy_effect
  follow_pointer writes c v indirect facts = elim c.effect_accum [
    | none ↦ none
    | some accum ↦
        let read = read_indices c v facts in
        if indirect == 0
        then none
        else if read.passed
        then restore_accum (copy_effect accum)
            (check_levels writes facts indirect (m.collective v ∷ []) read.context)
        else some read
  ]

  -- `indirect` is the level of indirection of the expression or the left-hand side.
  unfoldable pub read_pointed : Context → ℕ → ℕ → List Fact → Option Checked
  unfolding follow_pointer
  read_pointed = follow_pointer false

  unfoldable pub write_pointed : Context → ℕ → ℕ → List Fact → Option Checked
  unfolding follow_pointer
  write_pointed = follow_pointer true
