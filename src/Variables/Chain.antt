-- ===== src/Variables/Chain.antt =====
-- The walk from a variable through its containers: its equation, and what it says of the order of
-- containment.
use hipsmith.Prelude.{
  ℕ, zero, suc, ◌<◌, ◌≤◌, ◌≡◌, refl, true, none, some, [], ◌∷◌, ◌==◌, arith, Option-cases,
  Bool-cases, ◌⊎◌, inl, inr, elem,
}
use hipsmith.Variables.Store.{Store, IsStore, containers_from, containers}

module _ (m : Store) (ok : IsStore m) where
  containers_from_enough :
      (a b v : ℕ)
      → v ≤ a
      → v ≤ b
      → containers_from m.field_var_of a v ≡ containers_from m.field_var_of b v
  unfolding containers_from
  containers_from_enough zero zero v p q = refl
  containers_from_enough zero (suc b) v p q = elim (Option-cases (m.field_var_of v)) [
    | inl e ↦ ground (arith, e)
    | inr (u, e) ↦ absurd (omega (arith, ok.earlier v u e))
  ]
  containers_from_enough (suc a) zero v p q = elim (Option-cases (m.field_var_of v)) [
    | inl e ↦ ground (arith, e)
    | inr (u, e) ↦ absurd (omega (arith, ok.earlier v u e))
  ]
  containers_from_enough (suc a) (suc b) v p q = elim (Option-cases (m.field_var_of v)) [
    | inl e ↦ ground (arith, e)
    | inr (u, e) ↦
        let smaller = ok.earlier v u e in
        ground (arith, e, containers_from_enough a b u (omega arith) (omega arith))
  ]

  -- The loop: a variable, then the walk from its container.
  pub containers-none : (v : ℕ) → m.field_var_of v ≡ none → containers m v ≡ v ∷ []
  unfolding containers
  containers-none zero e = refl
  containers-none (suc n) e = ground (arith, e)

  pub containers-some : (v u : ℕ) → m.field_var_of v ≡ some u → containers m v ≡ v ∷ containers m u
  unfolding containers
  containers-some zero u e = absurd (omega (arith, ok.earlier zero u e))
  containers-some (suc n) u e =
      let smaller = ok.earlier (suc n) u e in
      ground (arith, e, containers_from_enough n u u (omega arith) (omega arith))

  -- Induction along the walk, in a form that needs no order.
  pub containers_ind {ℓ} :
      (P : ℕ → Type ℓ)
      → ((v : ℕ) → m.field_var_of v ≡ none → P v)
      → ((v u : ℕ) → m.field_var_of v ≡ some u → P u → P v)
      → (bound v : ℕ) → v < bound
      → P v
  containers_ind P base step zero v h = absurd (omega arith)
  containers_ind P base step (suc bound) v h = elim (Option-cases (m.field_var_of v)) [
    | inl e ↦ base v e
    | inr (u, e) ↦
        let smaller = ok.earlier v u e in
        step v u e (containers_ind P base step bound u (omega arith))
  ]

  -- `a` is `b` or contains it.
  abbrev pub Within : ℕ → ℕ → Type 0
  Within a b = elem a (containers m b) ≡ true

  pub Within-refl : (v : ℕ) → Within v v
  Within-refl v = elim (Option-cases (m.field_var_of v)) [
    | inl e ↦ rw (containers-none v e) (ground arith)
    | inr (u, e) ↦ rw (containers-some v u e) (ground arith)
  ]

  pub Within-step : (a v u : ℕ) → m.field_var_of v ≡ some u → Within a u → Within a v
  Within-step a v u e h = rw (containers-some v u e) (ground (arith, h))

  -- What is within `v` is `v` or within its container.
  pub Within-cases :
      (a v : ℕ) → Within a v → (a ≡ v) ⊎ ((u : ℕ) × (m.field_var_of v ≡ some u) × Within a u)
  Within-cases a v h = elim (Option-cases (m.field_var_of v)) [
    | inl e ↦ inl (let h' = rw (containers-none v e) at h in ground (arith, h'))
    | inr (u, e) ↦ elim (Bool-cases (v == a)) [
      | inl s ↦ inl (ground (arith, s))
      | inr d ↦ inr (u, e, let h' = rw (containers-some v u e) at h in ground (arith, h', d))
    ]
  ]

  pub Within-trans : (a b v : ℕ) → Within a b → Within b v → Within a v
  Within-trans a b v p =
      containers_ind (λ w. Within b w → Within a w) base step (suc v) v (omega arith)
    where
      base : (w : ℕ) → m.field_var_of w ≡ none → Within b w → Within a w
      base w e q = elim (Within-cases b w q) [
        | inl s ↦ rw s at p
        | inr (u, e', _) ↦ ground (arith, e, e')
      ]

      step :
          (w u : ℕ)
          → m.field_var_of w ≡ some u
          → (Within b u → Within a u)
          → Within b w
          → Within a w
      step w u e ih q = elim (Within-cases b w q) [
        | inl s ↦ rw s at p
        | inr (u', e', r) ↦
            let same : u' ≡ u = ground (arith, e, e') in Within-step a w u e (ih (rw same at r))
      ]

  -- The containers of one variable contain one another.
  pub Within-linear : (a b v : ℕ) → Within a v → Within b v → Within a b ⊎ Within b a
  Within-linear a b v =
      containers_ind (λ w. Within a w → Within b w → Within a b ⊎ Within b a) base step (suc v) v
        (omega arith)
    where
      base : (w : ℕ) → m.field_var_of w ≡ none → Within a w → Within b w → Within a b ⊎ Within b a
      base w e p q = elim (Within-cases a w p) [
        | inl s ↦ inr (rw (← s) at q)
        | inr (u, e', _) ↦ ground (arith, e, e')
      ]

      step :
          (w u : ℕ)
          → m.field_var_of w ≡ some u
          → (Within a u → Within b u → Within a b ⊎ Within b a)
          → Within a w
          → Within b w
          → Within a b ⊎ Within b a
      step w u e ih p q = elim (Within-cases a w p) [
        | inl s ↦ inr (rw (← s) at q)
        | inr (u', e', p') ↦ elim (Within-cases b w q) [
          | inl s ↦ inl (rw (← s) at p)
          | inr (u'', e'', q') ↦
              let same : u' ≡ u = ground (arith, e, e') in
              let same' : u'' ≡ u = ground (arith, e, e'') in ih (rw same at p') (rw same' at q')
        ]
      ]
