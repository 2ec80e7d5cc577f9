-- ===== src/Contexts/Defs.antt =====
-- src/CGContext.cpp: the tests on a context, and the checks that record an access in it. A method that
-- changes the context returns it; a failing assertion, and a missing accumulated effect where the
-- code follows the pointer to it, is `none`. What the code keeps behind `effect_accum` belongs to one
-- context here.
use hipsmith.Prelude.{
  ℕ, Bool, true, false, not, ◌&&◌, ◌||◌, Option, none, some, List, if◌then◌else◌, map,
}
use hipsmith.Variables.Store.{Store, pointer, matches, loose_match}
use hipsmith.Effects.Defs.{
  Effect, read_var as effect_read_var, write_var as effect_write_var,
  add_effect as effect_add_effect, add_external_effect as effect_add_external_effect,
  access_deref_volatile, volatile_within,
}
use hipsmith.Effects.Fields.{any_var, is_read_partially, is_written_partially}
use hipsmith.Facts.Defs.{Fact}
use mathlib.Core.Option

pub record RwDirective : Type 0 where
  pub no_read_vars : List ℕ
  pub no_write_vars : List ℕ
  pub must_read_vars : List ℕ
  pub must_write_vars : List ℕ

-- `iv_bounds` are the induction variables with their bounds; `no_dangling_ptr` is the flag
-- NO_DANGLING_PTR.
pub record Context : Type 0 where
  pub rw_directive : Option RwDirective
  pub iv_bounds : List (ℕ × ℕ)
  pub no_dangling_ptr : Bool
  pub effect_context : Effect
  pub effect_accum : Option Effect
  pub effect_stm : Effect

-- What a check returns, and the context afterwards.
pub record Checked : Type 0 where
  pub passed : Bool
  pub context : Context

-- The same for a visit of an expression, which also changes the facts.
pub record Visit : Type 0 where
  pub done : Bool
  pub facts : List Fact
  pub context : Context

unfoldable pub refused : Context → Option Checked
refused c = some (record { passed = false; context = c })

unfoldable pub is_pointer : Store → ℕ → Bool
is_pointer m v = elim (m.type v) [ some pointer ↦ true | _ ↦ false ]

-- `*effect_accum` and `effect_stm` take the same change.
unfoldable pub change_effects : (Effect → Effect) → Context → Context
change_effects f c = record c {
  effect_accum = Option.map f c.effect_accum;
  effect_stm = f c.effect_stm;
}

module _ (m : Store) where
  unfoldable pub is_nonreadable : Context → ℕ → Bool
  unfolding any_var
  is_nonreadable c v = elim c.rw_directive [
    | none ↦ false
    | some d ↦ any_var (λ no_read. matches m no_read v) d.no_read_vars
  ]

  unfoldable pub is_nonwritable : Context → ℕ → Bool
  unfolding any_var
  is_nonwritable c v =
      let forbidden : Bool = elim c.rw_directive [
        | none ↦ false
        | some d ↦
            any_var (λ no_write. loose_match m no_write v || loose_match m v no_write)
              d.no_write_vars
      ] in
      forbidden || any_var (λ iv. loose_match m v iv) (map (λ b. b.0) c.iv_bounds)

  unfoldable pub read_var : Context → ℕ → Option Context
  unfolding is_nonreadable change_effects
  read_var c v =
      if is_nonreadable c (m.collective v)
      then none
      else some (change_effects (λ e. effect_read_var m e (m.collective v)) c)

  unfoldable pub write_var : Context → ℕ → Option Context
  unfolding is_nonwritable change_effects
  write_var c v =
      if is_nonwritable c (m.collective v)
      then none
      else some (change_effects (λ e. effect_write_var m e (m.collective v)) c)

  -- The effect on the statement never takes the left-hand side's effects.
  unfoldable pub add_effect : Context → Effect → Bool → Context
  add_effect c e include_lhs_effects = record c {
    effect_accum = Option.map (λ a. effect_add_effect m a e include_lhs_effects) c.effect_accum;
    effect_stm = effect_add_effect m c.effect_stm e false;
  }

  -- `none` is a parameter's context without an accumulated effect.
  unfoldable pub merge_param_context : Context → Context → Bool → Option Context
  unfolding add_effect
  merge_param_context c param_cg_context include_lhs_effects =
      Option.map (λ e. add_effect c e include_lhs_effects) param_cg_context.effect_accum

  -- `on_stack` says what the blocks of a call chain hold; without a chain it is false everywhere.
  unfoldable pub add_visible_effect : (ℕ → Bool) → Context → Effect → Context
  unfolding change_effects
  add_visible_effect on_stack c e =
      change_effects (λ a. effect_add_external_effect m on_stack a e) c

  unfoldable pub add_external_effect : Context → Effect → Context
  unfolding add_visible_effect
  add_external_effect = add_visible_effect (λ v. false)

  -- `volatile_after` says whether a variable is volatile after that many dereferences.
  unfoldable pub check_deref_volatile : (ℕ → ℕ → Bool) → Bool → Context → ℕ → ℕ → Checked
  unfolding change_effects
  check_deref_volatile volatile_after strict_volatile_rule c v deref_level =
      if not strict_volatile_rule
      then record { passed = true; context = c }
      else if not c.effect_context.side_effect_free
          && volatile_within m volatile_after v deref_level
      then record { passed = false; context = c }
      else record {
        passed = true;
        context =
            change_effects
              (λ e. access_deref_volatile m volatile_after strict_volatile_rule e v deref_level) c;
      }

  -- `depth` is how deep fields are nested.
  module _ (depth : ℕ) where
    -- The tests of `check_read_var` on the collective variable, after the one on unions.
    unfoldable pub conflicts_reading : Context → ℕ → Bool
    unfolding is_nonreadable
    conflicts_reading c v =
        is_nonreadable c v
        || is_written_partially m depth c.effect_context v
        || (m.is_volatile v && not c.effect_context.side_effect_free)

    unfoldable pub conflicts_writing : Context → ℕ → Bool
    unfolding is_nonwritable
    conflicts_writing c v =
        is_nonwritable c v
        || m.is_const v
        || is_written_partially m depth c.effect_context v
        || is_read_partially m depth c.effect_context v
        || (m.is_volatile v && not c.effect_context.side_effect_free)

    unfoldable pub in_conflict : Context → Effect → Bool
    unfolding any_var conflicts_reading conflicts_writing
    in_conflict c eff =
        any_var (conflicts_reading c) eff.read_vars || any_var (conflicts_writing c) eff.write_vars
