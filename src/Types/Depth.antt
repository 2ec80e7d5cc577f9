-- ===== src/Types/Depth.antt =====
-- src/Type.cpp: the depth that the queries through fields are given is enough.
use hipsmith.Prelude.{
  ℕ, zero, suc, ◌<◌, ◌≡◌, refl, ap, ◌∙◌, Bool, false, not, ◌&&◌, ◌||◌, Option, none, some, List, [],
  ◌∷◌, map, leb, if◌then◌else◌, ◌%◌, ◌^◌, arith,
}
use hipsmith.Types.Defs.{
  Types, TypeDesc, simple, pointer, vector, union, struct, is_struct, is_pointer, is_aggregate,
}
use hipsmith.Types.Sizes.{
  any_field, has_bitfields, size_in_bytes, union_size, struct_size, is_known, round_up_to_8,
  size_unknown, contain_pointer_field,
}

-- The types of the fields of a struct or union come before it.
pub record HasEarlierFields (m : Types) : Type 0 where
  pub earlier : (t : ℕ) → any_field (λ f. leb t f.0) (m.fields t) ≡ false

any_field_same :
    (g h : ℕ × Option ℕ → Bool) (t : ℕ) (fs : List (ℕ × Option ℕ))
    → any_field (λ f. leb t f.0) fs ≡ false
    → ((f : ℕ × Option ℕ) → f.0 < t → g f ≡ h f)
    → any_field g fs ≡ any_field h fs
unfolding any_field
any_field_same g h t [] e k = refl
any_field_same g h t (f ∷ fs) e k =
    let here = k f (ground (arith, e)) in
    let rest = any_field_same g h t fs (ground (arith, e)) k in rw (here, rest) refl

map_same :
    (g h : ℕ × Option ℕ → ℕ) (t : ℕ) (fs : List (ℕ × Option ℕ))
    → any_field (λ f. leb t f.0) fs ≡ false
    → ((f : ℕ × Option ℕ) → f.0 < t → g f ≡ h f)
    → map g fs ≡ map h fs
unfolding any_field
map_same g h t [] e k = refl
map_same g h t (f ∷ fs) e k =
    let here = k f (ground (arith, e)) in
    let rest = map_same g h t fs (ground (arith, e)) k in rw (here, rest) refl

module _ (m : Types) (ok : HasEarlierFields m) where
  has_bitfields_enough : (a b t : ℕ) → t < a → t < b → has_bitfields m a t ≡ has_bitfields m b t
  unfolding has_bitfields
  has_bitfields_enough zero b t p q = absurd (omega (arith, p))
  has_bitfields_enough (suc a) zero t p q = absurd (omega (arith, q))
  has_bitfields_enough (suc a) (suc b) t p q =
      any_field_same _ _ t (m.fields t) (ok.earlier t) (λ f l.
        ap (λ x. is_known f.1 || (is_struct (m.kind f.0) && x))
          (has_bitfields_enough a b f.0 (omega (arith, l, p)) (omega (arith, l, q))))

  contain_pointer_field_enough :
      (a b t : ℕ) → t < a → t < b → contain_pointer_field m a t ≡ contain_pointer_field m b t
  unfolding contain_pointer_field
  contain_pointer_field_enough zero b t p q = absurd (omega (arith, p))
  contain_pointer_field_enough (suc a) zero t p q = absurd (omega (arith, q))
  contain_pointer_field_enough (suc a) (suc b) t p q =
      ap (λ x. is_pointer (m.kind t) || (is_aggregate (m.kind t) && x))
        (any_field_same _ _ t (m.fields t) (ok.earlier t)
          (λ f l. contain_pointer_field_enough a b f.0 (omega (arith, l, p)) (omega (arith, l, q))))

  size_in_bytes_step :
      (a b t : ℕ) (k : TypeDesc)
      → m.kind t ≡ k
      → has_bitfields m (suc a) t ≡ has_bitfields m (suc b) t
      → ((f : ℕ × Option ℕ) → f.0 < t → size_in_bytes m a f.0 ≡ size_in_bytes m b f.0)
      → size_in_bytes m (suc a) t ≡ size_in_bytes m (suc b) t
  unfolding size_in_bytes
  size_in_bytes_step a b t simple h bits inner = rw (size_in_bytes, h) refl
  size_in_bytes_step a b t vector h bits inner = rw (size_in_bytes, h) refl
  size_in_bytes_step a b t pointer h bits inner = rw (size_in_bytes, h) refl
  size_in_bytes_step a b t union h bits inner =
      let sizes =
        map_same _ _ t (m.fields t) (ok.earlier t) (λ f l.
          ap (λ x. elim f.1 [ none ↦ x % 2 ^ 32 | some n ↦ round_up_to_8 n ]) (inner f l)) in
      rw (size_in_bytes, h) (ap (union_size 0) sizes)
  size_in_bytes_step a b t struct h bits inner =
      let sizes =
        map_same (λ f. size_in_bytes m a f.0 % 2 ^ 32) (λ f. size_in_bytes m b f.0 % 2 ^ 32) t
          (m.fields t) (ok.earlier t) (λ f l. ap (λ x. x % 2 ^ 32) (inner f l)) in
      let of = λ (x : Bool) (zs : List ℕ).
        if not (m.packed t) then size_unknown else if x then size_unknown else struct_size 0 zs in
      rw (size_in_bytes, h)
        (ap (λ x. of x (map (λ f. size_in_bytes m a f.0 % 2 ^ 32) (m.fields t))) bits
          ∙ ap (of (has_bitfields m (suc b) t)) sizes)

  size_in_bytes_same : (a b t : ℕ) → t < a → t < b → size_in_bytes m a t ≡ size_in_bytes m b t
  size_in_bytes_same zero b t p q = absurd (omega (arith, p))
  size_in_bytes_same (suc a) zero t p q = absurd (omega (arith, q))
  size_in_bytes_same (suc a) (suc b) t p q =
      size_in_bytes_step a b t (m.kind t) refl (has_bitfields_enough (suc a) (suc b) t p q)
        (λ f l. size_in_bytes_same a b f.0 (omega (arith, l, p)) (omega (arith, l, q)))

-- A depth above the number of a type is enough for its size, its bitfields and its pointers: a greater
-- one gives the same. The types of fields come before those that have them.
size_in_bytes_enough :
    (m : Types) (a b t : ℕ)
    → HasEarlierFields m
    → t < a
    → t < b
    → (size_in_bytes m a t ≡ size_in_bytes m b t)
      × (has_bitfields m a t ≡ has_bitfields m b t)
      × (contain_pointer_field m a t ≡ contain_pointer_field m b t)
size_in_bytes_enough m a b t ok p q = (
  size_in_bytes_same m ok a b t p q,
  has_bitfields_enough m ok a b t p q,
  contain_pointer_field_enough m ok a b t p q,
)
