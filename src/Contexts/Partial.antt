-- ===== src/Contexts/Partial.antt =====
-- What `is_read_partially` of src/Effect.cpp says of the variables that an effect meets.
use hipsmith.Prelude.{
  ℕ, suc, ◌≤◌, ◌≡◌, ◌≢◌, ◌∙◌, true, false, none, some, List, [], ◌∷◌, ◌==◌, elem, arith, Bool-cases,
  Option-cases, ◌⊎◌, inl, inr,
}
use hipsmith.Variables.Store.{
  Store, IsStore, containers, is_struct, is_union, first_union, get_container_union, same_some,
}
use hipsmith.Variables.Chain.{
  containers-none, containers-some, containers_ind, Within, Within-cases, Within-refl,
}
use hipsmith.Variables.Match.{matches_lem}
use hipsmith.Effects.Defs.{Effect, is_read, read_on, meets, same_union, sibling_union_field_is_read}
use hipsmith.Effects.Fields.{is_read_partially}
use hipsmith.Contexts.Nested.{
  IsNested, first_union-some, struct_or_union, field_within_intro, meets_none, not_Within-ne,
}

module _ (m : Store) (ok : IsStore m) (height : ℕ → ℕ) (nested : IsNested m height) where
  is_read_self : (e : Effect) (v : ℕ) → elem v e.read_vars ≡ true → is_read m e v ≡ true
  unfolding is_read read_on
  is_read_self e v i = elim (Option-cases (m.field_var_of v)) [
    | inl n ↦ rw (containers-none m ok v n) (ground (arith, i))
    | inr (u, h) ↦ read_head u h
  ]
    where
      read_head :
          (u : ℕ) → m.field_var_of v ≡ some u → read_on m e.read_vars (containers m v) ≡ true
      read_head u h = elim (Option-cases (m.field_var_of u)) [
        | inl n ↦ rw (containers-some m ok v u h, containers-none m ok u n) (ground (arith, i))
        | inr (t, k) ↦
            rw (containers-some m ok v u h, containers-some m ok u t k) (ground (arith, i))
      ]

  -- A read of a struct is a read of its fields.
  is_read_up :
      (e : Effect) (v u : ℕ)
      → m.field_var_of v ≡ some u
      → is_struct (m.type u) ≡ true
      → is_read m e u ≡ true
      → is_read m e v ≡ true
  unfolding is_read read_on
  is_read_up e v u h st rd = elim (Option-cases (m.field_var_of u)) [
    | inl n ↦
        let rd' = rw (containers-none m ok u n) at rd in
        rw (containers-some m ok v u h, containers-none m ok u n) (ground (arith, st, rd'))
    | inr (t, k) ↦
        let rd' = rw (containers-some m ok u t k) at rd in
        rw (containers-some m ok v u h, containers-some m ok u t k) (ground (arith, st, rd'))
  ]

  first_union-container :
      (x u : ℕ)
      → m.field_var_of x ≡ some u
      → is_union (m.type x) ≡ false
      → first_union m (containers m x) ≡ first_union m (containers m u)
  unfolding first_union
  first_union-container x u c n = rw (containers-some m ok x u c) (ground (arith, n))

  -- A union is outermost, and contains itself only.
  union_top :
      (u : ℕ)
      → is_union (m.type u) ≡ true
      → (w : ℕ) → Within m ok w u
      → first_union m (containers m u) ≡ some w
  unfolding first_union
  union_top u un w h = elim (Within-cases m ok w u h) [
    | inr (t, c, _) ↦ ground (arith, un, nested.outermost u t c)
    | inl s ↦ elim (Option-cases (m.field_var_of u)) [
      | inl n ↦ rw (containers-none m ok u n) (ground (arith, un, s))
      | inr (t, c) ↦ ground (arith, un, nested.outermost u t c)
    ]
  ]

  -- A variable whose container has been read is read itself, unless that container is the union
  -- around it.
  read_or_union :
      (e : Effect) (w v : ℕ)
      → elem w e.read_vars ≡ true
      → Within m ok w v
      → (is_read m e v ≡ true) ⊎ (first_union m (containers m v) ≡ some w)
  read_or_union e w v i =
      containers_ind m ok
        (λ x. Within m ok w x → (is_read m e x ≡ true) ⊎ (first_union m (containers m x) ≡ some w))
        base step (suc v) v (omega arith)
    where
      base :
          (x : ℕ)
          → m.field_var_of x ≡ none
          → Within m ok w x
          → (is_read m e x ≡ true) ⊎ (first_union m (containers m x) ≡ some w)
      base x n h = elim (Within-cases m ok w x h) [
        | inl s ↦ inl (rw (← s) (is_read_self e w i))
        | inr (u, e', _) ↦ ground (arith, n, e')
      ]

      step :
          (x u : ℕ)
          → m.field_var_of x ≡ some u
          → (Within m ok w u → (is_read m e u ≡ true) ⊎ (first_union m (containers m u) ≡ some w))
          → Within m ok w x
          → (is_read m e x ≡ true) ⊎ (first_union m (containers m x) ≡ some w)
      step x u c ih h = elim (Within-cases m ok w x h) [
        | inl s ↦ inl (rw (← s) (is_read_self e w i))
        | inr (u', c', h') ↦
            let same : u' ≡ u = ground (arith, c, c') in
            let inside = rw same at h' in
            let not_union = nested.outermost x u c in
            let around = first_union-container x u c not_union in
            elim (struct_or_union (m.type u) (ok.aggregate x u c)) [
              | inl st ↦ elim (ih inside) [
                | inl r ↦ inl (is_read_up e x u c st r)
                | inr f ↦ inr (around ∙ f)
              ]
              | inr un ↦ inr (around ∙ union_top u un w inside)
            ]
      ]

  same_union_intro :
      (u w : ℕ) (vs : List ℕ)
      → elem w vs ≡ true
      → m.collective w ≡ w
      → get_container_union m w ≡ some u
      → same_union m (some u) vs ≡ true
  unfolding same_union same_some
  same_union_intro u w [] i c g = cc
  same_union_intro u w (x ∷ xs) i c g = elim (Bool-cases (x == w)) [
    | inl s ↦ let same : x ≡ w = ground (arith, s) in rw (same, c, g) (ground arith)
    | inr n ↦ ground (arith, same_union_intro u w xs (ground (arith, n, i)) c g)
  ]

  get_container_union-some :
      (v w : ℕ) → first_union m (containers m v) ≡ some w → get_container_union m v ≡ some w
  unfolding get_container_union first_union is_union
  get_container_union-some v w f = elim (Option-cases (m.type v)) [
    | inr (t, e) ↦ ground (arith, e, f)
    | inl n ↦ elim (Option-cases (m.field_var_of v)) [
      | inl top ↦ let f' = rw (containers-none m ok v top) at f in ground (arith, n, f')
      | inr (u, c) ↦ let (t, e) = ok.typed v u c in ground (arith, n, e)
    ]
  ]

  union_read :
      (e : Effect) (w v : ℕ)
      → m.collective v ≡ v
      → m.collective w ≡ w
      → first_union m (containers m v) ≡ some w
      → elem w e.read_vars ≡ true
      → sibling_union_field_is_read m e v ≡ true
  unfolding sibling_union_field_is_read
  union_read e w v cv cw f i =
      let un = first_union-some m (containers m v) w f in
      let own = get_container_union-some w w (union_top w un w (Within-refl m ok w)) in
      rw (cv, get_container_union-some v w f) (same_union_intro w w e.read_vars i cw own)

  -- What an effect has not read partially meets nothing that it has read. What it has read are
  -- collective variables, and so is the variable.
  pub meets-is_read_partially :
      (e : Effect) (depth v : ℕ)
      → height v ≤ depth
      → m.collective v ≡ v
      → ((w : ℕ) → elem w e.read_vars ≡ true → m.collective w ≡ w)
      → is_read_partially m depth e v ≡ false
      → meets m v e.read_vars ≡ false
  unfolding is_read_partially
  meets-is_read_partially e depth v hd cv cs p = meets_none m ok height nested v e.read_vars (λ w i.
      elim (Bool-cases (elem w (containers m v))) [
        | inl up ↦ elim (read_or_union e w v i up) [
          | inl r ↦ absurd (ground (arith, p, r))
          | inr f ↦ absurd (ground (arith, p, union_read e w v cv (cs w i) f i))
        ]
        | inr far ↦ elim (Bool-cases (elem v (containers m w))) [
          | inl down ↦
              let apart : v ≢ w = λ same. not_Within-ne m ok height nested v w same far in
              let hit =
                field_within_intro m ok height nested (is_read m e) depth v w hd down apart
                  (is_read_self e w i) in
              absurd (ground (arith, p, hit))
          | inr far' ↦ ground (arith, far, far', matches_lem m ok v w, matches_lem m ok w v)
        ]
      ])
