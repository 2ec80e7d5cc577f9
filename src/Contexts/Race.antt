-- ===== src/Contexts/Race.antt =====
-- src/CGContext.cpp: races of a context with the effects around it, and the record of an access.
use hipsmith.Prelude.{
  ℕ, ◌≤◌, ◌≡◌, ◌&&◌, ◌||◌, not, Bool, true, false, Option, none, some, List, [], ◌∷◌, ◌++◌, elem,
  arith, Option-cases, inl, inr,
}
use hipsmith.Variables.Store.{Store, IsStore}
use hipsmith.Effects.Defs.{
  Effect, is_read, is_written, meets, non_empty_intersection, has_race_with,
  read_var as effect_read_var, write_var as effect_write_var,
}
use hipsmith.Variables.Chain.{Within-refl}
use hipsmith.Effects.Walk.{struct_walk_self}
use hipsmith.Effects.Union.{is_read-read_var, is_written-write_var}
use hipsmith.Effects.Race.{intersection-append, intersection_comm}
use hipsmith.Contexts.Defs.{
  Context, Checked, read_var, write_var, change_effects, conflicts_reading, conflicts_writing,
}
use hipsmith.Contexts.Checks.{passed_with}
use hipsmith.Contexts.Nested.{IsNested, meets-is_written_partially}
use hipsmith.Contexts.Partial.{meets-is_read_partially}

module _ (m : Store) where
  has_race_with-read_var :
      (e a : Effect) (v : ℕ)
      → has_race_with m e a ≡ false
      → meets m v e.write_vars ≡ false
      → has_race_with m e (effect_read_var m a v) ≡ false
  unfolding has_race_with effect_read_var non_empty_intersection
  has_race_with-read_var e a v h n =
      let more = intersection-append m a.read_vars (v ∷ []) e.write_vars in
      let flip = intersection_comm m e.write_vars (a.read_vars ++ v ∷ []) in
      let back = intersection_comm m e.write_vars a.read_vars in
      ground (arith, h, n, more, flip, back)

  has_race_with-write_var :
      (e a : Effect) (v : ℕ)
      → has_race_with m e a ≡ false
      → meets m v e.write_vars ≡ false
      → meets m v e.read_vars ≡ false
      → has_race_with m e (effect_write_var m a v) ≡ false
  unfolding has_race_with effect_write_var non_empty_intersection
  has_race_with-write_var e a v h n k =
      let more = λ (xs : List ℕ). intersection-append m a.write_vars (v ∷ []) xs in
      let flip = λ (xs : List ℕ). intersection_comm m xs (a.write_vars ++ v ∷ []) in
      let back = λ (xs : List ℕ). intersection_comm m xs a.write_vars in
      ground (
        arith,
        h,
        n,
        k,
        more e.read_vars,
        more e.write_vars,
        flip e.read_vars,
        flip e.write_vars,
        back e.read_vars,
        back e.write_vars,
      )

  -- Whether the accumulated effect races with the effects around.
  unfoldable pub accum_races : Context → Bool
  accum_races c = elim c.effect_accum [ none ↦ false | some a ↦ has_race_with m c.effect_context a ]

-- What the checks rely on: `height` counts the nesting of fields, and `depth` is enough for all of
-- them; collective variables are their own; and the effects around have read such variables only.
pub record IsAround (m : Store) (height : ℕ → ℕ) (depth : ℕ) (around : Effect) : Type 0 where
  pub store : IsStore m
  pub nested : IsNested m height
  pub deep : (v : ℕ) → height v ≤ depth
  pub collective_idem : (v : ℕ) → m.collective (m.collective v) ≡ m.collective v
  pub reads_collective : (w : ℕ) → elem w around.read_vars ≡ true → m.collective w ≡ w

-- The effects around are as they were, and what has been accumulated does not race with them.
pub record IsSafe (m : Store) (around : Effect) (c : Context) : Type 0 where
  pub same_context : c.effect_context ≡ around
  pub no_race : accum_races m c ≡ false

-- Whether a read of `w`, or a write, races with an effect.
unfoldable pub read_races : Store → Effect → ℕ → Bool
read_races m e w = meets m w e.write_vars

unfoldable pub write_races : Store → Effect → ℕ → Bool
write_races m e w = meets m w e.read_vars || meets m w e.write_vars

-- Whether the two effects of a context have a variable as read, or as written.
unfoldable pub has_read : Store → ℕ → Context → Bool
has_read m w c =
    is_read m c.effect_stm w && elim c.effect_accum [ none ↦ true | some a ↦ is_read m a w ]

unfoldable pub has_written : Store → ℕ → Context → Bool
has_written m w c =
    is_written m c.effect_stm w && elim c.effect_accum [ none ↦ true | some a ↦ is_written m a w ]

-- A check that meets no failing assertion, and leaves a safe context whether it passes or not. It
-- does not pass if what it checks races, and if it passes the context has recorded the access.
pub record Keeps (m : Store) (around : Effect) (races : Bool) (recorded : Context → Bool)
    (o : Option Checked) : Type 0 where
  pub result : Checked
  pub returns : o ≡ some result
  pub safe : IsSafe m around result.context
  pub no_race_passes : result.passed && races ≡ false
  pub is_recorded : not result.passed || recorded result.context ≡ true

-- A check that records nothing of its own.
abbrev pub nothing_more : Context → Bool
nothing_more c = true

-- A change of the accumulated effect that brings no race.
IsSafe-change_effects :
    (m : Store) (around : Effect) (f : Effect → Effect) (c : Context)
    → IsSafe m around c
    → ((a : Effect) → has_race_with m around a ≡ false → has_race_with m around (f a) ≡ false)
    → IsSafe m around (change_effects f c)
unfolding accum_races change_effects
IsSafe-change_effects m around f c safe h = elim (Option-cases c.effect_accum) [
  | inl n ↦ record { same_context = safe.same_context; no_race = ground (arith, n) }
  | inr (a, e) ↦
      let before = rw (e, safe.same_context) at safe.no_race in
      record { same_context = safe.same_context; no_race = rw (e, safe.same_context) (h a before) }
]

module _ (m : Store) (ok : IsStore m) where
  is_read-read_var_self : (e : Effect) (v : ℕ) → is_read m (effect_read_var m e v) v ≡ true
  is_read-read_var_self e v =
      let self = struct_walk_self m ok v in ground (arith, is_read-read_var m ok e v v, self)

  is_written-write_var_self : (e : Effect) (v : ℕ) → is_written m (effect_write_var m e v) v ≡ true
  is_written-write_var_self e v =
      let self = Within-refl m ok v in ground (arith, is_written-write_var m ok e v v, self)

  has_read-change_effects :
      (c : Context) (v : ℕ) → has_read m v (change_effects (λ e. effect_read_var m e v) c) ≡ true
  unfolding has_read change_effects
  has_read-change_effects c v = elim (Option-cases c.effect_accum) [
    | inl n ↦ ground (arith, n, is_read-read_var_self c.effect_stm v)
    | inr (a, e) ↦
        ground (arith, e, is_read-read_var_self c.effect_stm v, is_read-read_var_self a v)
  ]

  has_written-change_effects :
      (c : Context) (v : ℕ)
      → has_written m v (change_effects (λ e. effect_write_var m e v) c) ≡ true
  unfolding has_written change_effects
  has_written-change_effects c v = elim (Option-cases c.effect_accum) [
    | inl n ↦ ground (arith, n, is_written-write_var_self c.effect_stm v)
    | inr (a, e) ↦
        ground (arith, e, is_written-write_var_self c.effect_stm v, is_written-write_var_self a v)
  ]

module _ (m : Store) (height : ℕ → ℕ) (depth : ℕ) (around : Effect)
    (env : IsAround m height depth around) where
  pub Keeps-read_var :
      (c : Context) (v : ℕ)
      → IsSafe m around c
      → conflicts_reading m depth c (m.collective v) ≡ false
      → Keeps m around
          (read_races m around (m.collective v))
          (has_read m (m.collective v))
          (passed_with (read_var m c (m.collective v)))
  unfolding passed_with read_var conflicts_reading read_races
  Keeps-read_var c v safe h =
      let own = env.collective_idem v in
      let apart =
        meets-is_written_partially m env.store height env.nested around depth (m.collective v)
          (env.deep (m.collective v)) (rw (← safe.same_context) (ground (arith, h))) in
      let f = λ (a : Effect). effect_read_var m a (m.collective v) in
      record {
        result = record { passed = true; context = change_effects f c };
        returns = ground (arith, own, h);
        safe =
            IsSafe-change_effects m around f c safe
              (λ a k. has_race_with-read_var m around a (m.collective v) k apart);
        no_race_passes = ground (arith, apart);
        is_recorded = has_read-change_effects m env.store c (m.collective v);
      }

  pub Keeps-write_var :
      (c : Context) (v : ℕ)
      → IsSafe m around c
      → conflicts_writing m depth c (m.collective v) ≡ false
      → Keeps m around
          (write_races m around (m.collective v))
          (has_written m (m.collective v))
          (passed_with (write_var m c (m.collective v)))
  unfolding passed_with write_var conflicts_writing write_races
  Keeps-write_var c v safe h =
      let own = env.collective_idem v in
      let apart =
        meets-is_written_partially m env.store height env.nested around depth (m.collective v)
          (env.deep (m.collective v)) (rw (← safe.same_context) (ground (arith, h))) in
      let unread =
        meets-is_read_partially m env.store height env.nested around depth (m.collective v)
          (env.deep (m.collective v)) own env.reads_collective
          (rw (← safe.same_context) (ground (arith, h))) in
      let f = λ (a : Effect). effect_write_var m a (m.collective v) in
      record {
        result = record { passed = true; context = change_effects f c };
        returns = ground (arith, own, h);
        safe =
            IsSafe-change_effects m around f c safe
              (λ a k. has_race_with-write_var m around a (m.collective v) k apart unread);
        no_race_passes = ground (arith, apart, unread);
        is_recorded = has_written-change_effects m env.store c (m.collective v);
      }
