-- ===== src/Effects/Walk.antt =====
-- Sets of variables that stand for what is within them.
use hipsmith.Prelude.{
  ℕ, suc, ◌≡◌, refl, true, false, not, ◌||◌, List, [], ◌∷◌, ◌++◌, ◌==◌, if◌then◌else◌, elem, arith,
  Bool-cases, ◌⊎◌, inl, inr, Option-cases, none, some,
}
use hipsmith.Variables.Store.{Store, IsStore, containers, is_struct}
use hipsmith.Variables.Chain.{containers-none, containers-some, containers_ind}
use hipsmith.Variables.Sets.{elem-append}
use hipsmith.Effects.Defs.{written_on, read_on}

written_on-append :
    (m : Store) (xs : List ℕ) (v : ℕ) (c : List ℕ)
    → written_on m (xs ++ v ∷ []) c ≡ written_on m xs c || elem v c
unfolding written_on
written_on-append m xs v [] = refl
written_on-append m xs v (x ∷ c) =
    ground (arith, written_on-append m xs v c, elem-append x xs (v ∷ []))

pub written_on-cons :
    (m : Store) (v : ℕ) (xs c : List ℕ) → written_on m (v ∷ xs) c ≡ elem v c || written_on m xs c
unfolding written_on
written_on-cons m v xs [] = refl
written_on-cons m v xs (x ∷ c) = ground (arith, written_on-cons m v xs c)

pub written_on-nil : (m : Store) (c : List ℕ) → written_on m [] c ≡ false
unfolding written_on
written_on-nil m [] = refl
written_on-nil m (x ∷ c) = ground (arith, written_on-nil m c)

-- Some element of the set stands on the walk.
pub written_on_witness :
    (m : Store) (xs c : List ℕ)
    → written_on m xs c ≡ true
    → (w : ℕ) × (elem w xs ≡ true) × (elem w c ≡ true)
unfolding written_on
written_on_witness m xs [] h = cc
written_on_witness m xs (x ∷ c) h = elim (Bool-cases (elem x xs)) [
  | inl e ↦ (x, e, ground arith)
  | inr n ↦
      let (w, p, q) = written_on_witness m xs c (ground (arith, h, n)) in (w, p, ground (arith, q))
]

pub written_on_intro :
    (m : Store) (xs c : List ℕ) (w : ℕ)
    → elem w xs ≡ true
    → elem w c ≡ true
    → written_on m xs c ≡ true
unfolding written_on
written_on_intro m xs [] w p q = cc
written_on_intro m xs (x ∷ c) w p q = elim (Bool-cases (x == w)) [
  | inl s ↦ let same : x ≡ w = ground (arith, s) in rw same (ground (arith, p))
  | inr n ↦ ground (arith, n, q, written_on_intro m xs c w p)
]

-- A set that grows by what is not yet within it, for any transitive notion of walk.
module _ (m : Store) (walk : ℕ → List ℕ)
    (trans : (a b v : ℕ)
      → elem a (walk b) ≡ true
      → elem b (walk v) ≡ true
      → elem a (walk v) ≡ true) where
  abbrev grow : List ℕ → ℕ → List ℕ
  grow xs v = if not (written_on m xs (walk v)) then xs ++ v ∷ [] else xs

  pub written_on-grow :
      (xs : List ℕ) (v u : ℕ)
      → written_on m (grow xs v) (walk u) ≡ written_on m xs (walk u) || elem v (walk u)
  written_on-grow xs v u = elim (Bool-cases (written_on m xs (walk v))) [
    | inl e ↦ rw e (elim (Bool-cases (elem v (walk u))) [
      | inl s ↦
          let (w, p, q) = written_on_witness m xs (walk v) e in
          ground (arith, s, written_on_intro m xs (walk u) w p (trans w v u q s))
      | inr n ↦ ground (arith, n)
    ])
    | inr n ↦ rw n (written_on-append m xs v (walk u))
  ]

-- The part of a walk that `is_read` looks at.
unfoldable pub struct_prefix : Store → List ℕ → List ℕ
unfolding is_struct
struct_prefix m [] = []
struct_prefix m (v ∷ []) = v ∷ []
struct_prefix m (v ∷ u ∷ us) = if is_struct (m.type u) then v ∷ struct_prefix m (u ∷ us) else v ∷ []

pub read_on_lem : (m : Store) (xs c : List ℕ) → read_on m xs c ≡ written_on m xs (struct_prefix m c)
unfolding read_on written_on struct_prefix
read_on_lem m xs [] = refl
read_on_lem m xs (v ∷ []) = ground arith
read_on_lem m xs (v ∷ u ∷ us) = ground (arith, read_on_lem m xs (u ∷ us))

unfoldable pub struct_walk : Store → ℕ → List ℕ
unfolding struct_prefix
struct_walk m v = struct_prefix m (containers m v)

module _ (m : Store) (ok : IsStore m) where
  struct_walk-none : (v : ℕ) → m.field_var_of v ≡ none → struct_walk m v ≡ v ∷ []
  unfolding struct_walk struct_prefix
  struct_walk-none v e = rw (containers-none m ok v e) refl

  struct_walk-some :
      (v u : ℕ)
      → m.field_var_of v ≡ some u
      → struct_walk m v ≡ (if is_struct (m.type u) then v ∷ struct_walk m u else v ∷ [])
  unfolding struct_walk struct_prefix
  struct_walk-some v u e = elim (Option-cases (m.field_var_of u)) [
    | inl f ↦ rw (containers-some m ok v u e, containers-none m ok u f) refl
    | inr (t, f) ↦ rw (containers-some m ok v u e, containers-some m ok u t f) refl
  ]

  pub struct_walk_self : (v : ℕ) → elem v (struct_walk m v) ≡ true
  struct_walk_self v = elim (Option-cases (m.field_var_of v)) [
    | inl e ↦ rw (struct_walk-none v e) (ground arith)
    | inr (u, e) ↦ rw (struct_walk-some v u e) (ground arith)
  ]

  -- An element of the walk is its start, or on the walk of the struct that holds the start.
  struct_walk_cases :
      (a v : ℕ)
      → elem a (struct_walk m v) ≡ true
      → (a ≡ v)
        ⊎ ((u : ℕ) × (m.field_var_of v ≡ some u)
            × (is_struct (m.type u) ≡ true)
            × (elem a (struct_walk m u) ≡ true))
  struct_walk_cases a v h = elim (Bool-cases (v == a)) [
    | inl s ↦ inl (ground (arith, s))
    | inr d ↦ elim (Option-cases (m.field_var_of v)) [
      | inl e ↦ let h' = rw (struct_walk-none v e) at h in ground (arith, d, h')
      | inr (u, e) ↦
          let h' = rw (struct_walk-some v u e) at h in
          elim (Bool-cases (is_struct (m.type u))) [
            | inl t ↦ inr (u, e, t, ground (arith, d, t, h'))
            | inr n ↦ ground (arith, d, n, h')
          ]
    ]
  ]

  pub struct_walk_trans :
      (a b v : ℕ)
      → elem a (struct_walk m b) ≡ true
      → elem b (struct_walk m v) ≡ true
      → elem a (struct_walk m v) ≡ true
  struct_walk_trans a b v p =
      containers_ind m ok (λ w. elem b (struct_walk m w) ≡ true → elem a (struct_walk m w) ≡ true)
        base step (suc v) v (omega arith)
    where
      base :
          (w : ℕ)
          → m.field_var_of w ≡ none
          → elem b (struct_walk m w) ≡ true
          → elem a (struct_walk m w) ≡ true
      base w e q = elim (struct_walk_cases b w q) [
        | inl s ↦ rw s at p
        | inr (u, e', _, _) ↦ ground (arith, e, e')
      ]

      step :
          (w u : ℕ)
          → m.field_var_of w ≡ some u
          → (elem b (struct_walk m u) ≡ true → elem a (struct_walk m u) ≡ true)
          → elem b (struct_walk m w) ≡ true
          → elem a (struct_walk m w) ≡ true
      step w u e ih q = elim (struct_walk_cases b w q) [
        | inl s ↦ rw s at p
        | inr (u', e', t, r) ↦
            let same : u' ≡ u = ground (arith, e, e') in
            let r' = rw same at r in
            let t' = rw same at t in rw (struct_walk-some w u e, t') (ground (arith, ih r'))
      ]
