-- ===== src/Types/Pointers.antt =====
-- src/Type.cpp: what can be had from a pointer by dereferencing.
use hipsmith.Prelude.{
  ℕ, zero, suc, ◌<◌, ◌≤◌, ◌≡◌, refl, ap, true, none, some, [], ◌∷◌, ◌==◌, elem, length, arith,
  Option-cases, Bool-cases, inl, inr,
}
use hipsmith.Types.Defs.{
  Types, is_pointer, pointees_from, pointees, get_indirect_level, last_of, get_base_type,
  is_dereferenced_from,
}

-- A type comes later than the one it points to, and only pointers point to one.
pub record IsTypes (m : Types) : Type 0 where
  pub earlier : (t u : ℕ) → m.ptr_type t ≡ some u → u < t
  pub points : (t u : ℕ) → m.ptr_type t ≡ some u → is_pointer (m.kind t) ≡ true

module _ (m : Types) (ok : IsTypes m) where
  pointees_from_enough :
      (a b t : ℕ) → t ≤ a → t ≤ b → pointees_from m.ptr_type a t ≡ pointees_from m.ptr_type b t
  unfolding pointees_from
  pointees_from_enough zero zero t p q = refl
  pointees_from_enough zero (suc b) t p q = elim (Option-cases (m.ptr_type t)) [
    | inl e ↦ ground (arith, e)
    | inr (u, e) ↦ absurd (omega (arith, ok.earlier t u e))
  ]
  pointees_from_enough (suc a) zero t p q = elim (Option-cases (m.ptr_type t)) [
    | inl e ↦ ground (arith, e)
    | inr (u, e) ↦ absurd (omega (arith, ok.earlier t u e))
  ]
  pointees_from_enough (suc a) (suc b) t p q = elim (Option-cases (m.ptr_type t)) [
    | inl e ↦ ground (arith, e)
    | inr (u, e) ↦
        let smaller = ok.earlier t u e in
        ground (arith, e, pointees_from_enough a b u (omega arith) (omega arith))
  ]

  pointees-none : (t : ℕ) → m.ptr_type t ≡ none → pointees m t ≡ []
  unfolding pointees
  pointees-none zero e = refl
  pointees-none (suc n) e = ground (arith, e)

  pointees-some : (t u : ℕ) → m.ptr_type t ≡ some u → pointees m t ≡ u ∷ pointees m u
  unfolding pointees
  pointees-some zero u e = absurd (omega (arith, ok.earlier zero u e))
  pointees-some (suc n) u e =
      let smaller = ok.earlier (suc n) u e in
      ground (arith, e, pointees_from_enough n u u (omega arith) (omega arith))

  -- What is reached from a pointee is reached, one level of indirection lower.
  pointees_lower :
      (bound a t : ℕ)
      → t < bound
      → elem a (pointees m t) ≡ true
      → get_indirect_level m a < get_indirect_level m t
  unfolding get_indirect_level
  pointees_lower zero a t h e = absurd (omega arith)
  pointees_lower (suc bound) a t h e = elim (Option-cases (m.ptr_type t)) [
    | inl n ↦ let e' = rw (pointees-none t n) at e in ground (arith, e')
    | inr (u, p) ↦
        let e' = rw (pointees-some t u p) at e in
        let level = ap length (pointees-some t u p) in
        elim (Bool-cases (u == a)) [
          | inl s ↦
              let same : u ≡ a = ground (arith, s) in
              let level' = ap (λ x. length (pointees m x)) same in omega (arith, level, level')
          | inr d ↦
              let smaller = ok.earlier t u p in
              let low = pointees_lower bound a u (omega arith) (ground (arith, d, e')) in
              omega (arith, level, low)
        ]
  ]

  pointees_trans :
      (bound a b t : ℕ)
      → t < bound
      → elem a (pointees m b) ≡ true
      → elem b (pointees m t) ≡ true
      → elem a (pointees m t) ≡ true
  pointees_trans zero a b t h e f = absurd (omega arith)
  pointees_trans (suc bound) a b t h e f = elim (Option-cases (m.ptr_type t)) [
    | inl n ↦ let f' = rw (pointees-none t n) at f in ground (arith, f')
    | inr (u, p) ↦
        let f' = rw (pointees-some t u p) at f in
        elim (Bool-cases (u == b)) [
          | inl s ↦
              let same : u ≡ b = ground (arith, s) in
              rw (pointees-some t u p, same) (ground (arith, e))
          | inr d ↦
              let smaller = ok.earlier t u p in
              let more = pointees_trans bound a b u (omega arith) e (ground (arith, d, f')) in
              rw (pointees-some t u p) (ground (arith, more))
        ]
  ]

-- Dereferencing is a strict order that lowers the level of indirection: what is had from a type that
-- is itself had by dereferencing is had so too, and has a lower level than either.
pub is_dereferenced_from_order :
    (m : Types) (a b t : ℕ)
    → IsTypes m
    → is_dereferenced_from m a b ≡ true
    → is_dereferenced_from m b t ≡ true
    → (is_dereferenced_from m a t ≡ true)
      × (get_indirect_level m a < get_indirect_level m b)
      × (get_indirect_level m b < get_indirect_level m t)
unfolding is_dereferenced_from
is_dereferenced_from_order m a b t ok h k =
    let low = pointees_lower m ok (suc b) a b (omega arith) (ground (arith, h)) in
    let low' = pointees_lower m ok (suc t) b t (omega arith) (ground (arith, k)) in
    let more =
      pointees_trans m ok (suc t) a b t (omega arith) (ground (arith, h)) (ground (arith, k)) in
    (ground (arith, k, more), low, low')

module _ (m : Types) (ok : IsTypes m) where
  base_level : (bound t : ℕ) → t < bound → m.ptr_type (get_base_type m t) ≡ none
  unfolding get_base_type last_of
  base_level zero t h = absurd (omega arith)
  base_level (suc bound) t h = elim (Option-cases (m.ptr_type t)) [
    | inl n ↦ rw (pointees-none m ok t n) n
    | inr (u, p) ↦
        let smaller = ok.earlier t u p in
        rw (pointees-some m ok t u p) (base_level bound u (omega arith))
  ]

  base_reached :
      (bound t u : ℕ)
      → t < bound
      → elem u (pointees m t) ≡ true
      → get_base_type m u ≡ get_base_type m t
  unfolding get_base_type last_of
  base_reached zero t u h e = absurd (omega arith)
  base_reached (suc bound) t u h e = elim (Option-cases (m.ptr_type t)) [
    | inl n ↦ let e' = rw (pointees-none m ok t n) at e in ground (arith, e')
    | inr (v, p) ↦
        let e' = rw (pointees-some m ok t v p) at e in
        let smaller = ok.earlier t v p in
        elim (Bool-cases (v == u)) [
          | inl s ↦ let same : v ≡ u = ground (arith, s) in rw (pointees-some m ok t v p, same) refl
          | inr d ↦
              rw (pointees-some m ok t v p)
                (base_reached bound v u (omega arith) (ground (arith, d, e')))
        ]
  ]

-- The base type is no pointer to anything, and all types that are had by dereferencing share it.
get_base_type-is_dereferenced_from :
    (m : Types) (a t : ℕ)
    → IsTypes m
    → is_dereferenced_from m a t ≡ true
    → (get_base_type m a ≡ get_base_type m t) × (m.ptr_type (get_base_type m t) ≡ none)
unfolding is_dereferenced_from
get_base_type-is_dereferenced_from m a t ok h = (
  base_reached m ok (suc t) t a (omega arith) (ground (arith, h)),
  base_level m ok (suc t) t (omega arith),
)
