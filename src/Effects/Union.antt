-- ===== src/Effects/Union.antt =====
-- The effects of src/Effect.cpp as sets: what the operations that add to an effect make read and
-- written.
use hipsmith.Prelude.{
  ℕ, ◌≡◌, refl, sym, ap, ◌∙◌, Bool, not, ◌&&◌, ◌||◌, List, [], ◌∷◌, ◌++◌, elem, if◌then◌else◌,
  arith,
}
use hipsmith.Variables.Store.{Store, IsStore, containers}
use hipsmith.Variables.Chain.{Within-trans}
use hipsmith.Effects.Defs.{
  Effect, is_read, is_written, read_on, written_on, read_var, write_var, add_reads, add_writes,
  add_effect,
}
use hipsmith.Effects.Walk.{
  written_on-cons, written_on-nil, written_on-grow, struct_walk, read_on_lem, struct_walk_trans,
}

module _ (m : Store) where
  read_on_walk :
      (xs : List ℕ) (v : ℕ) → read_on m xs (containers m v) ≡ written_on m xs (struct_walk m v)
  unfolding struct_walk
  read_on_walk xs v = read_on_lem m xs (containers m v)

module _ (m : Store) (ok : IsStore m) where
  -- After `write_var` a variable is written if it was before or is within the variable written to.
  pub is_written-write_var :
      (e : Effect) (v u : ℕ)
      → is_written m (write_var m e v) u ≡ is_written m e u || elem v (containers m u)
  unfolding write_var
  is_written-write_var e v u =
      written_on-grow m (containers m) (λ a b w. Within-trans m ok a b w) e.write_vars v u

  pub is_read-read_var :
      (e : Effect) (v u : ℕ)
      → is_read m (read_var m e v) u ≡ is_read m e u || elem v (struct_walk m u)
  unfolding read_var
  is_read-read_var e v u =
      rw (read_on_walk m _ u, read_on_walk m e.read_vars v, read_on_walk m e.read_vars u)
        (written_on-grow m (struct_walk m) (λ a b w. struct_walk_trans m ok a b w) e.read_vars v u)

  -- One step of each loop of `add_effect`, at the two vectors.
  abbrev more_writes : Effect → ℕ → Effect
  more_writes e v =
      if not (is_written m e v) then record e { write_vars = e.write_vars ++ v ∷ [] } else e

  abbrev more_reads : Effect → ℕ → Effect
  more_reads e v = if not (is_read m e v) then record e { read_vars = e.read_vars ++ v ∷ [] } else e

  is_written-more_writes :
      (e : Effect) (v u : ℕ)
      → is_written m (more_writes e v) u ≡ is_written m e u || elem v (containers m u)
  unfolding is_written
  is_written-more_writes e v u =
      ground (
        arith,
        written_on-grow m (containers m) (λ a b w. Within-trans m ok a b w) e.write_vars v u,
      )

  is_read-more_reads :
      (e : Effect) (v u : ℕ)
      → is_read m (more_reads e v) u ≡ is_read m e u || elem v (struct_walk m u)
  unfolding is_read
  is_read-more_reads e v u = ground (
    arith,
    read_on_walk m (e.read_vars ++ v ∷ []) u,
    read_on_walk m e.read_vars v,
    read_on_walk m e.read_vars u,
    written_on-grow m (struct_walk m) (λ a b w. struct_walk_trans m ok a b w) e.read_vars v u,
  )

  is_written-add_writes :
      (e : Effect) (vs : List ℕ) (u : ℕ)
      → is_written m (add_writes m e vs) u ≡ is_written m e u || written_on m vs (containers m u)
  unfolding add_writes
  is_written-add_writes e [] u = ground (arith, written_on-nil m (containers m u))
  is_written-add_writes e (v ∷ vs) u = ground (
    arith,
    is_written-add_writes (more_writes e v) vs u,
    is_written-more_writes e v u,
    written_on-cons m v vs (containers m u),
  )

  is_read-add_reads :
      (e : Effect) (vs : List ℕ) (u : ℕ)
      → is_read m (add_reads m e vs) u ≡ is_read m e u || written_on m vs (struct_walk m u)
  unfolding add_reads
  is_read-add_reads e [] u = ground (arith, written_on-nil m (struct_walk m u))
  is_read-add_reads e (v ∷ vs) u = ground (
    arith,
    is_read-add_reads (more_reads e v) vs u,
    is_read-more_reads e v u,
    written_on-cons m v vs (struct_walk m u),
  )

  -- The two loops leave one another's vector and the flags alone.
  pub record Apart (e f : Effect) : Type 0 where
    pub lhs_write_vars : f.lhs_write_vars ≡ e.lhs_write_vars
    pub pure : f.pure ≡ e.pure
    pub side_effect_free : f.side_effect_free ≡ e.side_effect_free

  pub add_reads-Apart :
      (e : Effect) (vs : List ℕ)
      → Apart e (add_reads m e vs) × ((add_reads m e vs).write_vars ≡ e.write_vars)
  unfolding add_reads
  add_reads-Apart e [] =
      (record { lhs_write_vars = refl; pure = refl; side_effect_free = refl }, refl)
  add_reads-Apart e (v ∷ vs) =
      let (a, w) = add_reads-Apart (more_reads e v) vs in
      (
        record {
          lhs_write_vars = ground (arith, a.lhs_write_vars);
          pure = ground (arith, a.pure);
          side_effect_free = ground (arith, a.side_effect_free);
        },
        ground (arith, w),
      )

  pub add_writes-Apart :
      (e : Effect) (vs : List ℕ)
      → Apart e (add_writes m e vs) × ((add_writes m e vs).read_vars ≡ e.read_vars)
  unfolding add_writes
  add_writes-Apart e [] =
      (record { lhs_write_vars = refl; pure = refl; side_effect_free = refl }, refl)
  add_writes-Apart e (v ∷ vs) =
      let (a, w) = add_writes-Apart (more_writes e v) vs in
      (
        record {
          lhs_write_vars = ground (arith, a.lhs_write_vars);
          pure = ground (arith, a.pure);
          side_effect_free = ground (arith, a.side_effect_free);
        },
        ground (arith, w),
      )

-- `add_effect` is the union of two effects: a variable is read, or written, in the sum exactly when it
-- is in one of the two, and the sum is pure, or free of side effects, exactly when both are. The
-- containers of variables are structs and unions that were created before them.
pub add_effect_union :
    (m : Store) (e f : Effect) (include_lhs_effects : Bool) (u : ℕ)
    → IsStore m
    → (is_read m (add_effect m e f include_lhs_effects) u ≡ is_read m e u || is_read m f u)
      × (is_written m (add_effect m e f include_lhs_effects) u
          ≡ is_written m e u || is_written m f u)
      × ((add_effect m e f include_lhs_effects).pure ≡ e.pure && f.pure)
      × ((add_effect m e f include_lhs_effects).side_effect_free
          ≡ e.side_effect_free && f.side_effect_free)
unfolding add_effect is_read is_written
add_effect_union m e f include_lhs_effects u ok =
    let reads = add_reads m e f.read_vars in
    let (a, w) = add_reads-Apart m ok e f.read_vars in
    let (b, r) = add_writes-Apart m ok reads f.write_vars in
    (
      ap (λ xs. read_on m xs (containers m u)) r
          ∙ is_read-add_reads m ok e f.read_vars u
          ∙ ap (λ b. is_read m e u || b) (sym (read_on_walk m f.read_vars u)),
      is_written-add_writes m ok reads f.write_vars u
          ∙ ap (λ xs. written_on m xs (containers m u) || is_written m f u) w,
      ap (λ b. b && f.pure) (b.pure ∙ a.pure),
      ap (λ b. b && f.side_effect_free) (b.side_effect_free ∙ a.side_effect_free),
    )
