-- ===== src/Types/Sizes.antt =====
-- src/Type.cpp: the queries that go through the fields of structs and unions, and the conversions that
-- ask for sizes. `depth` is how deep fields are nested.
use hipsmith.Prelude.{
  ℕ, zero, suc, ◌+◌, ◌*◌, ◌/◌, ◌%◌, ◌^◌, Bool, true, false, not, ◌&&◌, ◌||◌, Option, none, some,
  List, [], ◌∷◌, ltb, ◌==◌, if◌then◌else◌, xor, map,
}
use hipsmith.Types.Defs.{
  simple, pointer, union, vector, struct, SimpleType, void, char, int, short, long, long_long,
  uchar, uint, ushort, ulong, float, ulong_long, int128, uint128, no_simple_type, MatchType, exact,
  convert, dereference, deref_exact, flexible, Types, ConvertOptions, code, is_simple, is_pointer,
  is_struct, is_aggregate, is_float, is_int, is_signed, is_dereferenced_from, get_base_type,
}

unfoldable pub size_unknown : ℕ
size_unknown = 65535

unfoldable pub size_of_simple : SimpleType → ℕ
size_of_simple void = 0
size_of_simple int = 4
size_of_simple short = 2
size_of_simple char = 1
size_of_simple long = 4
size_of_simple long_long = 8
size_of_simple uchar = 1
size_of_simple uint = 4
size_of_simple ushort = 2
size_of_simple ulong = 4
size_of_simple ulong_long = 8
size_of_simple float = 4
size_of_simple int128 = 16
size_of_simple uint128 = 16
size_of_simple no_simple_type = 0

unfoldable pub is_known : Option ℕ → Bool
is_known none = false
is_known (some n) = true

-- `(int)(ceil(length / 8.0) * 8)`
unfoldable pub round_up_to_8 : ℕ → ℕ
round_up_to_8 n = (n + 7) / 8 * 8

-- Whether `ptr_type` is that type.
unfoldable pub points_to : Option ℕ → ℕ → Bool
points_to none t = false
points_to (some u) t = u == t

unfoldable pub any_field : (ℕ × Option ℕ → Bool) → List (ℕ × Option ℕ) → Bool
any_field test [] = false
any_field test (f ∷ fs) = test f || any_field test fs

-- The sizes of the fields go into the loops as a list; the sums are those of `unsigned int`.
unfoldable pub union_size : ℕ → List ℕ → ℕ
unfolding size_unknown
union_size max_size [] = max_size
union_size max_size (sz ∷ szs) =
    let rest = union_size (if ltb max_size sz then sz else max_size) szs in
    if sz == size_unknown then sz else rest

unfoldable pub struct_size : ℕ → List ℕ → ℕ
unfolding size_unknown
struct_size total_size [] = total_size
struct_size total_size (sz ∷ szs) =
    let rest = struct_size ((total_size + sz) % 2 ^ 32) szs in
    if sz == size_unknown then sz else rest

unfoldable pub greatest : List ℕ → ℕ
greatest [] = 0
greatest (n ∷ ns) = let rest = greatest ns in if ltb rest n then n else rest

module _ (m : Types) where
  unfoldable pub has_bitfields : ℕ → ℕ → Bool
  unfolding any_field is_known is_struct
  has_bitfields zero t = false
  has_bitfields (suc depth) t =
      any_field (λ f. is_known f.1 || (is_struct (m.kind f.0) && has_bitfields depth f.0))
        (m.fields t)

  unfoldable pub has_padding : ℕ → ℕ → Bool
  unfolding any_field is_known is_struct
  has_padding zero t = is_struct (m.kind t) && not (m.packed t)
  has_padding (suc depth) t =
      (is_struct (m.kind t) && not (m.packed t))
      || any_field (λ f. is_known f.1 || has_padding depth f.0) (m.fields t)

  unfoldable pub is_full_bitfields_struct : ℕ → Bool
  unfolding any_field is_known is_struct
  is_full_bitfields_struct t =
      is_struct (m.kind t) && not (any_field (λ f. not (is_known f.1)) (m.fields t))

  unfoldable pub has_int_field : ℕ → ℕ → Bool
  unfolding any_field is_int
  has_int_field zero t = is_int m t
  has_int_field (suc depth) t = is_int m t || any_field (λ f. has_int_field depth f.0) (m.fields t)

  unfoldable pub contain_pointer_field : ℕ → ℕ → Bool
  unfolding any_field is_pointer is_aggregate
  contain_pointer_field zero t = is_pointer (m.kind t)
  contain_pointer_field (suc depth) t =
      is_pointer (m.kind t)
      || (is_aggregate (m.kind t) && any_field (λ f. contain_pointer_field depth f.0) (m.fields t))

  unfoldable pub has_aggregate_field : List (ℕ × Option ℕ) → Bool
  unfolding any_field is_aggregate
  has_aggregate_field fields = any_field (λ f. is_aggregate (m.kind f.0)) fields

  unfoldable pub get_struct_depth : ℕ → ℕ → ℕ
  unfolding is_struct greatest
  get_struct_depth zero t = 0
  get_struct_depth (suc depth) t =
      if is_struct (m.kind t)
      then 1 + greatest (map (λ f. get_struct_depth depth f.0) (m.fields t))
      else 0

  -- The size of a pointer is computed, and not returned.
  unfoldable pub size_in_bytes : ℕ → ℕ → ℕ
  unfolding size_of_simple has_bitfields union_size struct_size is_known round_up_to_8 size_unknown
  size_in_bytes zero t = 0
  size_in_bytes (suc depth) t =
      let size = size_in_bytes depth in
      elim (m.kind t) [
        | simple ↦ size_of_simple (m.simple_type t)
        | vector ↦ size_of_simple (m.simple_type t)
        | pointer ↦ 0
        | union ↦ union_size 0 (
            map (λ f. elim f.1 [ none ↦ size f.0 % 2 ^ 32 | some n ↦ round_up_to_8 n ])
              (m.fields t))
        | struct ↦
            if not (m.packed t)
            then size_unknown
            else if has_bitfields (suc depth) t
            then size_unknown
            else struct_size 0 (map (λ f. size f.0 % 2 ^ 32) (m.fields t))
      ]

  module _ (o : ConvertOptions) (depth : ℕ) where
    -- Two pointers to simple types, `p` and `q`.
    unfoldable pub converts_pointee : ℕ → ℕ → Bool
    unfolding code size_in_bytes
    converts_pointee p q =
        let a = code (m.simple_type p) in
        let b = code (m.simple_type q) in
        if a == b
        then true
        else if o.strict_float
            && (((a == code float) && not (b == code float))
                || (not (a == code float) && (b == code float)))
        then false
        else if o.lang_cpp
        then false
        else size_in_bytes depth p == size_in_bytes depth q

    -- What two pointer types point to.
    unfoldable pub converts_pointer : Option ℕ → Option ℕ → Bool
    unfolding converts_pointee is_simple
    converts_pointer none none = true
    converts_pointer none (some q) = false
    converts_pointer (some p) none = false
    converts_pointer (some p) (some q) =
        if p == q
        then true
        else is_simple (m.kind p) && is_simple (m.kind q) && converts_pointee p q

    unfoldable pub is_convertable : ℕ → ℕ → Bool
    unfolding is_simple is_pointer is_float converts_pointer code
    is_convertable this t =
        if this == t
        then true
        else if is_simple (m.kind this) && is_simple (m.kind t)
        then if is_float m t && not (is_float m this)
          then false
          else (not (code (m.simple_type this) == code void)
              && not (code (m.simple_type t) == code void))
            || (code (m.simple_type this) == code (m.simple_type t))
        else is_pointer (m.kind this)
          && is_pointer (m.kind t)
          && converts_pointer (m.ptr_type this) (m.ptr_type t)

    unfoldable pub is_equivalent : ℕ → ℕ → Bool
    unfolding is_simple is_signed size_in_bytes
    is_equivalent this t =
        if this == t
        then true
        else is_simple (m.kind this)
          && not (xor (is_signed m this) (is_signed m t))
          && (size_in_bytes depth this == size_in_bytes depth t)

    unfoldable pub needs_cast : ℕ → ℕ → Bool
    unfolding is_pointer is_equivalent get_base_type
    needs_cast this t =
        is_pointer (m.kind this) && not (is_equivalent (get_base_type m this) (get_base_type m t))

    unfoldable pub is_derivable : ℕ → ℕ → Bool
    unfolding is_convertable is_dereferenced_from
    is_derivable this t =
        if this == t
        then true
        else is_convertable this t || is_dereferenced_from m this t || points_to (m.ptr_type this) t

    unfoldable pub matches_type : ℕ → ℕ → MatchType → Bool
    unfolding is_convertable is_dereferenced_from is_derivable
    matches_type this t exact = this == t
    matches_type this t convert = is_convertable this t
    matches_type this t dereference = is_dereferenced_from m this t
    matches_type this t deref_exact = (t == this) || is_dereferenced_from m this t
    matches_type this t flexible = is_derivable this t
