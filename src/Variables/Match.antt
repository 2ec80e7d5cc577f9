-- ===== src/Variables/Match.antt =====
-- src/Variable.cpp, `match`: a variable matches what it contains.
use hipsmith.Prelude.{ℕ, suc, ◌≡◌, ◌≢◌, true, some, none, ◌==◌, elem, arith, Bool-cases, inl, inr}
use hipsmith.Variables.Store.{Store, IsStore, TypeDesc, containers, matches, has_type, is_aggregate}
use hipsmith.Variables.Chain.{containers_ind, Within, Within-refl, Within-cases}

has_type_of : (m : Store) (v : ℕ) (t : TypeDesc) → m.type v ≡ some t → has_type m v ≡ true
unfolding has_type
has_type_of m v t e = ground (arith, e)

aggregate-has_type : (m : Store) (v : ℕ) → is_aggregate (m.type v) ≡ true → has_type m v ≡ true
unfolding has_type is_aggregate
aggregate-has_type m v g = ground (arith, g)

module _ (m : Store) (ok : IsStore m) where
  -- A container is a struct or a union, and what it contains has a type.
  Within-typed :
      (a v : ℕ) → Within m ok a v → a ≢ v → (is_aggregate (m.type a) ≡ true) × (has_type m v ≡ true)
  Within-typed a v =
      containers_ind m ok
        (λ w. Within m ok a w → a ≢ w → (is_aggregate (m.type a) ≡ true) × (has_type m w ≡ true))
        base step (suc v) v (omega arith)
    where
      base :
          (w : ℕ)
          → m.field_var_of w ≡ none
          → Within m ok a w
          → a ≢ w
          → (is_aggregate (m.type a) ≡ true) × (has_type m w ≡ true)
      base w e h n = elim (Within-cases m ok a w h) [
        | inl s ↦ absurd (n s)
        | inr (u, e', _) ↦ ground (arith, e, e')
      ]

      step :
          (w u : ℕ)
          → m.field_var_of w ≡ some u
          → (Within m ok a u → a ≢ u → (is_aggregate (m.type a) ≡ true) × (has_type m u ≡ true))
          → Within m ok a w
          → a ≢ w
          → (is_aggregate (m.type a) ≡ true) × (has_type m w ≡ true)
      step w u e ih h n = elim (Within-cases m ok a w h) [
        | inl s ↦ absurd (n s)
        | inr (u', e', h') ↦
            let same : u' ≡ u = ground (arith, e, e') in
            let (t, typed) = ok.typed w u e in
            elim (Bool-cases (a == u)) [
              | inl s ↦
                  let s' : a ≡ u = ground (arith, s) in
                  (rw s' (ok.aggregate w u e), has_type_of m w t typed)
              | inr d ↦
                  ((ih (rw same at h') (λ x. ground (arith, d, x))).0, has_type_of m w t typed)
            ]
      ]

  -- `matches` finds exactly what the walk through the containers meets.
  pub matches_lem : (a b : ℕ) → matches m a b ≡ elem a (containers m b)
  unfolding matches
  matches_lem a b = elim (Bool-cases (a == b)) [
    | inl s ↦
        let same : a ≡ b = ground (arith, s) in
        let here = Within-refl m ok b in rw same (ground (arith, here))
    | inr n ↦ elim (Bool-cases (elem a (containers m b))) [
      | inl h ↦
          let (g, t) = Within-typed a b h (λ e. ground (arith, n, e)) in
          ground (arith, n, h, g, t, aggregate-has_type m a g)
      | inr f ↦ ground (arith, n, f)
    ]
  ]
