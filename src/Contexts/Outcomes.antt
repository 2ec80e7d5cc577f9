-- ===== src/Contexts/Outcomes.antt =====
-- src/CGContext.cpp: what a check comes to, and one check after another.
use hipsmith.Prelude.{
  ◌≡◌, refl, Bool, true, false, not, ◌||◌, Option, some, if◌then◌else◌, arith, Bool-cases,
  Option-cases, inl, inr,
}
use mathlib.Core.Option
use hipsmith.Variables.Store.{Store}
use hipsmith.Effects.Defs.{Effect, copy_effect, assign_effect, has_race_with}
use hipsmith.Contexts.Defs.{Context, Checked, refused}
use hipsmith.Contexts.Checks.{if_passed}
use hipsmith.Contexts.Race.{accum_races, IsSafe, Keeps, nothing_more}

module _ (m : Store) (around : Effect) where
  -- A check that does not pass has only to leave a safe context.
  pub not_passed :
      (races : Bool) (recorded : Context → Bool) (o : Option Checked) (ch : Checked)
      → o ≡ some ch
      → ch.passed ≡ false
      → IsSafe m around ch.context
      → Keeps m around races recorded o
  not_passed races recorded o ch e n safe = record {
    result = ch;
    returns = e;
    safe = safe;
    no_race_passes = ground (arith, n);
    is_recorded = ground (arith, n);
  }

  pub passes :
      (c : Context)
      → IsSafe m around c
      → Keeps m around false nothing_more (some (record { passed = true; context = c }))
  passes c safe = record {
    result = record { passed = true; context = c };
    returns = refl;
    safe = safe;
    no_race_passes = refl;
    is_recorded = refl;
  }

  pub Keeps-guarded :
      (races : Bool) (recorded : Context → Bool) (read : Checked) (conflict : Bool)
      (o : Option Checked)
      → IsSafe m around read.context
      → (conflict ≡ false → Keeps m around races recorded o)
      → Keeps m around races recorded
          (if not read.passed then some read else if conflict then refused read.context else o)
  unfolding refused
  Keeps-guarded races recorded read conflict o safe h = elim (Bool-cases read.passed) [
    | inr n ↦ not_passed races recorded _ read (ground (arith, n)) n safe
    | inl y ↦ elim (Bool-cases conflict) [
      | inl b ↦
          rw (y, b)
            (not_passed races recorded _ (record { passed = false; context = read.context }) refl
              refl safe)
      | inr k ↦ rw (y, k) (h k)
    ]
  ]

  -- One check after another passes only if neither access races.
  pub if_passed-Keeps :
      (races races' : Bool) (recorded : Context → Bool) (o : Option Checked)
      (k : Context → Option Checked)
      → Keeps m around races recorded o
      → ((c : Context) → IsSafe m around c → Keeps m around races' nothing_more (k c))
      → Keeps m around (races || races') nothing_more (if_passed o k)
  unfolding if_passed
  if_passed-Keeps races races' recorded o k first h =
      let ch = first.result in
      elim (Bool-cases ch.passed) [
        | inl y ↦
            let rest = h ch.context first.safe in
            record {
              result = rest.result;
              returns = rw (first.returns, y) rest.returns;
              safe = rest.safe;
              no_race_passes = ground (arith, y, first.no_race_passes, rest.no_race_passes);
              is_recorded = rest.is_recorded;
            }
        | inr n ↦
            not_passed (races || races') nothing_more _ ch (ground (arith, first.returns, n)) n
              first.safe
      ]

  pub IsSafe-assign_effect :
      (a : Effect) (c d : Context)
      → c.effect_accum ≡ some a
      → IsSafe m around c
      → IsSafe m around d
      → IsSafe m around (record d {
        effect_accum = Option.map (λ now. assign_effect now (copy_effect a)) d.effect_accum;
      })
  unfolding accum_races assign_effect copy_effect has_race_with
  IsSafe-assign_effect a c d e safe safe' =
      let before = rw (accum_races, e, safe.same_context) at safe.no_race in
      elim (Option-cases d.effect_accum) [
        | inl n ↦ record { same_context = safe'.same_context; no_race = ground (arith, n) }
        | inr (now, k) ↦ record {
          same_context = safe'.same_context;
          no_race = rw (k, safe'.same_context) before;
        }
      ]
