-- ===== src/Types/Unsigned.antt =====
-- src/Type.cpp, `to_unsigned`.
use hipsmith.Prelude.{ℕ, suc, ◌≡◌, ◌≢◌, refl, ap, sym, ◌∙◌, false, some, ◌⊎◌, inl, inr}
use hipsmith.Types.Defs.{
  Types, TypeDesc, simple, pointer, vector, union, struct, SimpleType, void, char, int, short, long,
  long_long, uchar, uint, ushort, ulong, float, ulong_long, int128, uint128, no_simple_type,
  is_signed, is_signed_simple, to_unsigned, to_unsigned_simple,
}
use hipsmith.Types.Sizes.{size_of_simple, size_in_bytes}

-- The simple types are those that were made for their names.
pub record IsRegistered (m : Types) : Type 0 where
  pub kinds : (s : SimpleType) → m.kind (m.simple_types s) ≡ simple
  pub names : (s : SimpleType) → m.simple_type (m.simple_types s) ≡ s

module _ (m : Types) (ok : IsRegistered m) where
  -- An unsigned simple type of the same size: the type itself, or a simple type.
  abbrev IsUnsigned : ℕ → SimpleType → ℕ → Type 0
  IsUnsigned t s u =
      ((u ≡ t) ⊎ (m.kind u ≡ simple))
      × (is_signed_simple (m.simple_type u) ≡ false)
      × (size_of_simple (m.simple_type u) ≡ size_of_simple s)

  IsUnsigned-self :
      (t : ℕ) (s : SimpleType) (u : ℕ)
      → m.simple_type t ≡ s
      → is_signed_simple s ≡ false
      → some t ≡ some u
      → IsUnsigned t s u
  IsUnsigned-self t s u n h e =
      let same : t ≡ u = cc in
      let named : m.simple_type u ≡ s = ap m.simple_type (sym same) ∙ n in
      (inl (sym same), ap is_signed_simple named ∙ h, ap size_of_simple named)

  IsUnsigned-other :
      (t : ℕ) (s s' : SimpleType) (u : ℕ)
      → is_signed_simple s' ≡ false
      → size_of_simple s' ≡ size_of_simple s
      → some (m.simple_types s') ≡ some u
      → IsUnsigned t s u
  IsUnsigned-other t s s' u h z e =
      let same : m.simple_types s' ≡ u = cc in
      let named : m.simple_type u ≡ s' = ap m.simple_type (sym same) ∙ ok.names s' in
      (
        inr (ap m.kind (sym same) ∙ ok.kinds s'),
        ap is_signed_simple named ∙ h,
        ap size_of_simple named ∙ z,
      )

  to_unsigned_simple-IsUnsigned :
      (t : ℕ) (s : SimpleType) (u : ℕ)
      → m.simple_type t ≡ s
      → s ≢ int128
      → to_unsigned_simple m t s ≡ some u
      → IsUnsigned t s u
  unfolding to_unsigned_simple is_signed_simple size_of_simple
  to_unsigned_simple-IsUnsigned t void u n d e = cc
  to_unsigned_simple-IsUnsigned t char u n d e = IsUnsigned-other t char uchar u refl refl e
  to_unsigned_simple-IsUnsigned t int u n d e = IsUnsigned-other t int uint u refl refl e
  to_unsigned_simple-IsUnsigned t short u n d e = IsUnsigned-other t short ushort u refl refl e
  to_unsigned_simple-IsUnsigned t long u n d e = IsUnsigned-other t long ulong u refl refl e
  to_unsigned_simple-IsUnsigned t long_long u n d e =
      IsUnsigned-other t long_long ulong_long u refl refl e
  to_unsigned_simple-IsUnsigned t uchar u n d e = IsUnsigned-self t uchar u n refl e
  to_unsigned_simple-IsUnsigned t uint u n d e = IsUnsigned-self t uint u n refl e
  to_unsigned_simple-IsUnsigned t ushort u n d e = IsUnsigned-self t ushort u n refl e
  to_unsigned_simple-IsUnsigned t ulong u n d e = IsUnsigned-self t ulong u n refl e
  to_unsigned_simple-IsUnsigned t float u n d e = cc
  to_unsigned_simple-IsUnsigned t ulong_long u n d e = IsUnsigned-self t ulong_long u n refl e
  to_unsigned_simple-IsUnsigned t int128 u n d e = absurd (d refl)
  to_unsigned_simple-IsUnsigned t uint128 u n d e = IsUnsigned-other t uint128 uint128 u refl refl e
  to_unsigned_simple-IsUnsigned t no_simple_type u n d e = cc

-- A simple type or a vector.
of_scalar :
    (m : Types) (depth x : ℕ)
    → (m.kind x ≡ simple) ⊎ (m.kind x ≡ vector)
    → (is_signed m x ≡ is_signed_simple (m.simple_type x))
      × (size_in_bytes m (suc depth) x ≡ size_of_simple (m.simple_type x))
unfolding is_signed size_in_bytes
of_scalar m depth x (inl h) = (rw (is_signed, h) refl, rw (size_in_bytes, h) refl)
of_scalar m depth x (inr h) = (rw (is_signed, h) refl, rw (size_in_bytes, h) refl)

-- `to_unsigned` gives an unsigned type of the same size, if it gives one. The type is not one of the
-- signed integers of 128 bits, which it gives back as they are; it may be a vector.
pub to_unsigned-is_signed :
    (m : Types) (depth t u : ℕ)
    → IsRegistered m
    → m.simple_type t ≢ int128
    → to_unsigned m t ≡ some u
    → (is_signed m u ≡ false) × (size_in_bytes m (suc depth) u ≡ size_in_bytes m (suc depth) t)
unfolding to_unsigned
to_unsigned-is_signed m depth t u ok d e = go (m.kind t) refl
  where
    Goal : Type 0
    Goal = (is_signed m u ≡ false) × (size_in_bytes m (suc depth) u ≡ size_in_bytes m (suc depth) t)

    of_simple :
        (k : TypeDesc)
        → m.kind t ≡ k
        → (k ≡ simple) ⊎ (k ≡ vector)
        → IsUnsigned m ok t (m.simple_type t) u
        → Goal
    of_simple k h f (same, sign, size) =
        let kind_t : (m.kind t ≡ simple) ⊎ (m.kind t ≡ vector) = elim f [
          | inl a ↦ inl (h ∙ a)
          | inr a ↦ inr (h ∙ a)
        ] in
        let kind_u : (m.kind u ≡ simple) ⊎ (m.kind u ≡ vector) = elim same [
          | inl a ↦ rw a kind_t
          | inr a ↦ inl a
        ] in
        let (sign_u, size_u) = of_scalar m depth u kind_u in
        let (_, size_t) = of_scalar m depth t kind_t in (sign_u ∙ sign, size_u ∙ size ∙ sym size_t)

    go : (k : TypeDesc) → m.kind t ≡ k → Goal
    go simple h =
        of_simple simple h (inl refl) (
          to_unsigned_simple-IsUnsigned m ok t (m.simple_type t) u refl d
            (rw (to_unsigned, h) at e))
    go vector h =
        of_simple vector h (inr refl) (
          to_unsigned_simple-IsUnsigned m ok t (m.simple_type t) u refl d
            (rw (to_unsigned, h) at e))
    go pointer h = let e' = rw (to_unsigned, h) at e in cc
    go union h = let e' = rw (to_unsigned, h) at e in cc
    go struct h = let e' = rw (to_unsigned, h) at e in cc
