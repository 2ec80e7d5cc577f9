-- ===== src/Types/Inside.antt =====
-- src/Type.cpp, `contain_pointer_field` and `has_bitfields`: what is inside of a type.
use hipsmith.Prelude.{
  ℕ, zero, suc, ◌<◌, ◌≡◌, ◌∙◌, ap, ◌↔◌, refl, Bool, true, ◌&&◌, ◌||◌, Option, some, List, [], ◌∷◌,
  leb, get_elem?, arith, Bool-cases, inl, inr,
}
use mathlib.Core.Option.{some-injective}
use hipsmith.Types.Defs.{Types, is_struct, is_pointer, is_aggregate}
use hipsmith.Types.Sizes.{any_field, has_bitfields, is_known, contain_pointer_field}
use hipsmith.Types.Depth.{HasEarlierFields}

-- A pointer, or a struct or union with a field that holds one.
pub data HoldsPointer (m : Types) : ℕ → Type 0 where
  a_pointer : {t : ℕ} → is_pointer (m.kind t) ≡ true → HoldsPointer m t
  in_field :
      {t : ℕ} (i : ℕ) (f : ℕ × Option ℕ)
      → is_aggregate (m.kind t) ≡ true
      → get_elem? (m.fields t) i ≡ some f
      → HoldsPointer m f.0
      → HoldsPointer m t

-- A type with a bitfield, or with a field that is a struct and holds one.
pub data HoldsBitfield (m : Types) : ℕ → Type 0 where
  a_bitfield :
      {t : ℕ} (i : ℕ) (f : ℕ × Option ℕ)
      → get_elem? (m.fields t) i ≡ some f
      → is_known f.1 ≡ true
      → HoldsBitfield m t
  in_struct :
      {t : ℕ} (i : ℕ) (f : ℕ × Option ℕ)
      → get_elem? (m.fields t) i ≡ some f
      → is_struct (m.kind f.0) ≡ true
      → HoldsBitfield m f.0
      → HoldsBitfield m t

any_field_witness :
    (test : ℕ × Option ℕ → Bool) (fs : List (ℕ × Option ℕ))
    → any_field test fs ≡ true
    → (i : ℕ) × (f : ℕ × Option ℕ) × (get_elem? fs i ≡ some f) × (test f ≡ true)
unfolding any_field
any_field_witness test [] h = absurd (ground (arith, h))
any_field_witness test (f ∷ fs) h = elim (Bool-cases (test f)) [
  | inl y ↦ (0, f, refl, y)
  | inr n ↦ let (i, g, e, y) = any_field_witness test fs (ground (arith, h, n)) in (suc i, g, e, y)
]

any_field_intro :
    (test : ℕ × Option ℕ → Bool) (fs : List (ℕ × Option ℕ)) (i : ℕ) (f : ℕ × Option ℕ)
    → get_elem? fs i ≡ some f
    → test f ≡ true
    → any_field test fs ≡ true
unfolding any_field
any_field_intro test [] i f e h = absurd (ground (arith, e))
any_field_intro test (g ∷ fs) zero f e h =
    let same : g ≡ f = some-injective g f e in
    let here : test g ≡ true = ap test same ∙ h in ground (arith, here)
any_field_intro test (g ∷ fs) (suc i) f e h =
    let rest = any_field_intro test fs i f e h in ground (arith, rest)

module _ (m : Types) where
  finds_pointer : (depth t : ℕ) → contain_pointer_field m depth t ≡ true → HoldsPointer m t
  unfolding contain_pointer_field
  finds_pointer zero t h = a_pointer h
  finds_pointer (suc depth) t h = elim (Bool-cases (is_pointer (m.kind t))) [
    | inl y ↦ a_pointer y
    | inr n ↦
        let (i, f, e, y) =
          any_field_witness (λ f. contain_pointer_field m depth f.0) (m.fields t)
            (ground (arith, h, n)) in
        in_field i f (ground (arith, h, n)) e (finds_pointer depth f.0 y)
  ]

  finds_bitfield : (depth t : ℕ) → has_bitfields m depth t ≡ true → HoldsBitfield m t
  unfolding has_bitfields
  finds_bitfield zero t h = absurd (ground (arith, h))
  finds_bitfield (suc depth) t h =
      let (i, f, e, y) =
        any_field_witness
          (λ f. is_known f.1 || (is_struct (m.kind f.0) && has_bitfields m depth f.0)) (m.fields t)
          h in
      elim (Bool-cases (is_known f.1)) [
        | inl k ↦ a_bitfield i f e k
        | inr n ↦
            in_struct i f e (ground (arith, y, n)) (finds_bitfield depth f.0 (ground (arith, y, n)))
      ]

  module _ (ok : HasEarlierFields m) where
    field_before : (t i : ℕ) (f : ℕ × Option ℕ) → get_elem? (m.fields t) i ≡ some f → f.0 < t
    field_before t i f e = elim (Bool-cases (leb t f.0)) [
      | inl y ↦
          let bad = any_field_intro (λ g. leb t g.0) (m.fields t) i f e y in
          let none_such = ok.earlier t in absurd (ground (arith, bad, none_such))
      | inr n ↦ ground (arith, n)
    ]

    pointer_found :
        (depth : ℕ) {t : ℕ} → t < depth → HoldsPointer m t → contain_pointer_field m depth t ≡ true
    unfolding contain_pointer_field
    pointer_found zero l h = absurd (omega (arith, l))
    pointer_found (suc depth) l (a_pointer y) = ground (arith, y)
    pointer_found (suc depth) l (in_field {t = t} i f a e h) =
        let before = field_before t i f e in
        let inner = pointer_found depth (omega (arith, l, before)) h in
        let found =
          any_field_intro (λ g. contain_pointer_field m depth g.0) (m.fields t) i f e inner in
        ground (arith, a, found)

    bitfield_found :
        (depth : ℕ) {t : ℕ} → t < depth → HoldsBitfield m t → has_bitfields m depth t ≡ true
    unfolding has_bitfields
    bitfield_found zero l h = absurd (omega (arith, l))
    bitfield_found (suc depth) l (a_bitfield {t = t} i f e k) =
        any_field_intro (λ g. is_known g.1 || (is_struct (m.kind g.0) && has_bitfields m depth g.0))
          (m.fields t) i f e (ground (arith, k))
    bitfield_found (suc depth) l (in_struct {t = t} i f e st h) =
        let before = field_before t i f e in
        let inner = bitfield_found depth (omega (arith, l, before)) h in
        any_field_intro (λ g. is_known g.1 || (is_struct (m.kind g.0) && has_bitfields m depth g.0))
          (m.fields t) i f e (ground (arith, st, inner))

    -- `contain_pointer_field` holds exactly of a pointer and of a struct or union that has a pointer
    -- among its fields or theirs, and `has_bitfields` exactly where there is a bitfield among the
    -- fields or in a field that is a struct, through any number of levels. The types of the fields of
    -- a type come before it, and the depth that the calls may take is above its number.
    pub queries-Holds :
        (depth t : ℕ)
        → t < depth
        → ((contain_pointer_field m depth t ≡ true) ↔ HoldsPointer m t)
          × ((has_bitfields m depth t ≡ true) ↔ HoldsBitfield m t)
    queries-Holds depth t l = (
      (finds_pointer depth t, pointer_found depth l),
      (finds_bitfield depth t, bitfield_found depth l),
    )
