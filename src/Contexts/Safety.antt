-- ===== src/Contexts/Safety.antt =====
-- src/CGContext.cpp: the checks on a variable and through a pointer, and races with the effects around.
use hipsmith.Prelude.{
  ℕ, zero, suc, ◌<◌, ◌≡◌, refl, Bool, false, ◌&&◌, Option, some, List, [], ◌∷◌, ◌==◌, arith,
  Bool-cases, Option-cases, inl, inr,
}
use mathlib.Core.Option
use hipsmith.Variables.Store.{Store}
use hipsmith.Effects.Defs.{Effect, copy_effect, assign_effect}
use hipsmith.Facts.Defs.{Fact}
use hipsmith.Facts.PointTo.{
  Specials, Risks, is_special_ptr, merge_pointees_of_pointers, trace_pointees,
}
use hipsmith.Contexts.Defs.{Context, Checked, Visit, refused}
use hipsmith.Contexts.Checks.{
  read_indices, check_read_var, check_write_var, check_pointees, bad_pointees, check_levels,
  restore_accum, follow_pointer,
}
use hipsmith.Contexts.Indices.{VisitKeeps, read_indices-IsSafe}
use hipsmith.Contexts.Reached.{access_races, pointee_races, level_races}
use hipsmith.Contexts.Outcomes.{
  not_passed, passes, Keeps-guarded, if_passed-Keeps, IsSafe-assign_effect,
}
use hipsmith.Contexts.Race.{
  IsAround, IsSafe, Keeps, read_races, write_races, has_read, has_written, nothing_more,
  Keeps-read_var, Keeps-write_var,
}

module _ (m : Store) (s : Specials) (r : Risks) (depth : ℕ) {Expr : Type 0}
    (indices : ℕ → List Expr) (visit_facts : Expr → List Fact → Context → Visit) (height : ℕ → ℕ)
    (around : Effect) (env : IsAround m height depth around)
    (visits : VisitKeeps m around Expr visit_facts) where
  -- `check_read_var` meets no failing assertion, passes only a read that does not race with the
  -- effects around, and then has recorded it in both effects of the context. Whether it passes or
  -- not, the effects around are as they were, and the effect accumulated afterwards has no race with
  -- them if the one before had none. Visits of index expressions are taken to keep contexts so. The
  -- containers of variables are structs and unions that were created before them and list them as
  -- fields, no union is a field, `depth` is enough for the fields, the collective variable of a
  -- collective variable is itself, what has a container has a type, and the effects around have
  -- read collective variables only.
  pub check_read_var-Keeps :
      (c : Context) (v : ℕ) (facts : List Fact)
      → IsSafe m around c
      → Keeps m around
          (read_races m around (m.collective v))
          (has_read m (m.collective v))
          (check_read_var m s r depth indices visit_facts c v facts)
  unfolding check_read_var
  check_read_var-Keeps c v facts safe =
      let read = read_indices m s r depth indices visit_facts c v facts in
      let here =
        read_indices-IsSafe m s r depth indices visit_facts height around env visits c v facts
          safe in
      Keeps-guarded m around _ _ read _ _ here
        (λ k. Keeps-read_var m height depth around env read.context v here (ground (arith, k)))

  -- `check_write_var` meets no failing assertion, passes only a write that does not race with the
  -- effects around, and then has recorded it in both effects of the context. Whether it passes or
  -- not, the effects around are as they were, and the effect accumulated afterwards has no race with
  -- them if the one before had none. The conditions are those of `check_read_var-Keeps`, that no
  -- union is a field among them.
  pub check_write_var-Keeps :
      (c : Context) (v : ℕ) (facts : List Fact)
      → IsSafe m around c
      → Keeps m around
          (write_races m around (m.collective v))
          (has_written m (m.collective v))
          (check_write_var m s r depth indices visit_facts c v facts)
  unfolding check_write_var
  check_write_var-Keeps c v facts safe =
      let read = read_indices m s r depth indices visit_facts c v facts in
      let here =
        read_indices-IsSafe m s r depth indices visit_facts height around env visits c v facts
          safe in
      Keeps-guarded m around _ _ read _ _ here
        (λ k. Keeps-write_var m height depth around env read.context v here (ground (arith, k)))

  check_pointees-Keeps :
      (writes : Bool) (facts : List Fact) (ps : List ℕ) (c : Context)
      → IsSafe m around c
      → Keeps m around
          (pointee_races m s around writes ps)
          nothing_more
          (check_pointees m s r depth indices visit_facts writes facts ps c)
  unfolding check_pointees pointee_races access_races
  check_pointees-Keeps writes facts [] c safe = passes m around c safe
  check_pointees-Keeps writes facts (p ∷ ps) c safe =
      let rest = check_pointees-Keeps writes facts ps in
      let more = check_pointees m s r depth indices visit_facts writes facts ps in
      let later = pointee_races m s around writes ps in
      elim (Bool-cases (is_special_ptr s p)) [
        | inl y ↦ rw y (rest c safe)
        | inr n ↦ elim (Bool-cases writes) [
          | inl w ↦
              rw (n, w)
                (if_passed-Keeps m around _ later _ _ more (check_write_var-Keeps c p facts safe)
                  rest)
          | inr w ↦
              rw (n, w)
                (if_passed-Keeps m around _ later _ _ more (check_read_var-Keeps c p facts safe)
                  rest)
        ]
      ]

  check_levels-Keeps :
      (writes : Bool) (facts : List Fact) (indirect : ℕ) (tmp vs : List ℕ) (c : Context)
      → trace_pointees m s facts indirect tmp ≡ some vs
      → IsSafe m around c
      → Keeps m around
          (level_races m s around writes facts indirect tmp)
          nothing_more
          (check_levels m s r depth indices visit_facts writes facts indirect tmp c)
  unfolding check_levels trace_pointees refused level_races
  check_levels-Keeps writes facts zero tmp vs c t safe = passes m around c safe
  check_levels-Keeps writes facts (suc indirect) tmp vs c t safe =
      elim (Option-cases (merge_pointees_of_pointers m s facts tmp)) [
        | inl n ↦ absurd (ground (arith, n, t))
        | inr (pointees, e) ↦
            let t' = rw (trace_pointees, e) at t in
            elim (Bool-cases (bad_pointees m s r depth indices visit_facts pointees)) [
              | inl b ↦
                  not_passed m around _ _ _ (record { passed = false; context = c })
                    (ground (arith, e, b)) refl safe
              | inr g ↦
                  rw (check_levels, level_races, e, g)
                    (if_passed-Keeps m around _ _ _ _
                      (check_levels m s r depth indices visit_facts writes facts indirect pointees)
                      (check_pointees-Keeps (writes && (indirect == 0)) facts pointees c safe)
                      (λ c'. check_levels-Keeps writes facts indirect pointees vs c' t'))
            ]
      ]

  restore_accum-Keeps :
      (races : Bool) (a : Effect) (c : Context) (o : Option Checked)
      → c.effect_accum ≡ some a
      → IsSafe m around c
      → Keeps m around races nothing_more o
      → Keeps m around races nothing_more
          (restore_accum m s r depth indices visit_facts (copy_effect a) o)
  unfolding restore_accum
  restore_accum-Keeps races a c o e safe k =
      let ch = k.result in
      let back = Option.map (λ now. assign_effect now (copy_effect a)) ch.context.effect_accum in
      elim (Bool-cases ch.passed) [
        | inl y ↦ record {
          result = ch;
          returns = ground (arith, k.returns, y);
          safe = k.safe;
          no_race_passes = k.no_race_passes;
          is_recorded = k.is_recorded;
        }
        | inr n ↦
            not_passed m around races nothing_more _
              (record ch { context = record ch.context { effect_accum = back } })
              (ground (arith, k.returns, n)) n
              (IsSafe-assign_effect m around a c ch.context e safe k.safe)
      ]

  -- Following a pointer, for a read or for a write, meets no failing assertion if effects are
  -- accumulated, the level of indirection is above zero and every pointer on the way has a fact. It
  -- does not pass if an access to a variable that is reached at any level races with the effects
  -- around. Whether all the accesses pass or one is refused and the accumulated effect put back, the
  -- effects around are as they were, and what is accumulated has no race with them if it had none
  -- before. The other conditions are those of `check_read_var-Keeps`, that no union is a field among
  -- them.
  pub follow_pointer-Keeps :
      (writes : Bool) (c : Context) (v indirect : ℕ) (facts : List Fact) (a : Effect) (vs : List ℕ)
      → c.effect_accum ≡ some a
      → 0 < indirect
      → trace_pointees m s facts indirect (m.collective v ∷ []) ≡ some vs
      → IsSafe m around c
      → Keeps m around
          (level_races m s around writes facts indirect (m.collective v ∷ []))
          nothing_more
          (follow_pointer m s r depth indices visit_facts writes c v indirect facts)
  unfolding follow_pointer
  follow_pointer-Keeps writes c v indirect facts a vs e positive t safe =
      let read = read_indices m s r depth indices visit_facts c v facts in
      let here =
        read_indices-IsSafe m s r depth indices visit_facts height around env visits c v facts
          safe in
      let above : (indirect == 0) ≡ false = ground (arith, positive) in
      elim (Bool-cases read.passed) [
        | inr n ↦ not_passed m around _ _ _ read (ground (arith, e, n, above)) n here
        | inl y ↦
            rw (follow_pointer, e, y, above)
              (restore_accum-Keeps _ a c _ e safe (
                check_levels-Keeps writes facts indirect (m.collective v ∷ []) vs read.context t
                  here))
      ]
