-- ===== src/Tests/Types.antt =====
-- The types at small inputs.
use hipsmith.Prelude.{
  ℕ, suc, ◌<◌, ◌≤◌, ◌≡◌, ◌↔◌, ◌≢◌, refl, ◌||◌, true, false, Option, none, some, List, [], ◌∷◌, leb,
  ◌==◌, if◌then◌else◌, arith,
}
use hipsmith.Types.Defs.{
  Types, TypeDesc, simple, pointer, union, struct, SimpleType, int128, no_simple_type,
  ConvertOptions, code, is_pointer, is_signed, get_indirect_level, is_dereferenced_from,
  is_promotable, to_unsigned,
}
use hipsmith.Types.Sizes.{any_field, size_in_bytes, is_convertable}
use hipsmith.Types.Pointers.{IsTypes, is_dereferenced_from_order}
use hipsmith.Types.Convert.{simple_at, simple_at-code, is_convertable_trans}
use hipsmith.Types.Ranks.{rank, code_below, is_promotable-rank}
use hipsmith.Types.Unsigned.{IsRegistered, to_unsigned-is_signed}
use hipsmith.Types.Depth.{HasEarlierFields}
use hipsmith.Types.Sizes.{contain_pointer_field, has_bitfields}
use hipsmith.Types.Inside.{HoldsPointer, HoldsBitfield, queries-Holds}

-- The simple types have the numbers up to 14. Type 20 is a pointer to `int`, 21 one to 20, 22 a packed
-- struct of an `int` and a pointer, and 23 a union with a bitfield of 3 bits.
abbrev kind_of : ℕ → TypeDesc
kind_of t =
    if (t == 20) || (t == 21)
    then pointer
    else if t == 22
    then struct
    else if t == 23
    then union
    else simple

abbrev simple_of : ℕ → SimpleType
simple_of t = if leb 15 t then no_simple_type else simple_at t

abbrev ptr_of : ℕ → Option ℕ
ptr_of t = if t == 20 then some 2 else if t == 21 then some 20 else none

abbrev fields_of : ℕ → List (ℕ × Option ℕ)
fields_of t =
    if t == 22 then (2, none) ∷ (20, none) ∷ [] else if t == 23 then (2, some 3) ∷ [] else []

abbrev types : Types
types = record {
  kind = kind_of;
  ptr_type = ptr_of;
  simple_type = simple_of;
  fields = fields_of;
  packed = λ t. t == 22;
  simple_types = code;
}

abbrev in_c : ConvertOptions
in_c = record { strict_float = false; lang_cpp = false }

-- `int` is 2, `long_long` 5, `uint` 7 and `int128` 12.
sizes :
    (size_in_bytes types 30 5 ≡ 8)
    × (size_in_bytes types 30 20 ≡ 0)
    × (size_in_bytes types 30 22 ≡ 4)
    × (size_in_bytes types 30 23 ≡ 8)
unfolding size_in_bytes code
sizes = (refl, refl, refl, refl)

int128_stays_signed : (to_unsigned types 12 ≡ some 12) × (is_signed types 12 ≡ true)
unfolding to_unsigned is_signed code
int128_stays_signed = (refl, refl)

conversions :
    (is_convertable types in_c 30 20 20 ≡ true)
    × (is_convertable types in_c 30 2 10 ≡ false)
    × (is_convertable types in_c 30 10 2 ≡ true)
unfolding is_convertable code
conversions = (refl, refl, refl)

types-IsTypes : IsTypes types
unfolding is_pointer
types-IsTypes = record { earlier = λ t u e. ground (arith, e); points = λ t u e. ground (arith, e) }

types-HasEarlierFields : HasEarlierFields types
unfolding any_field
types-HasEarlierFields = record { earlier = λ t. ground arith }

small_kind : (n : ℕ) → n < 15 → kind_of n ≡ simple
small_kind n l = ground (arith, l)

types-IsRegistered : IsRegistered types
types-IsRegistered = record {
  kinds = λ s. small_kind (code s) (code_below s);
  names = λ s. (let below = code_below s in ground (arith, below, simple_at-code s));
}

is_dereferenced_from_order_example :
    (is_dereferenced_from types 2 21 ≡ true)
    × (get_indirect_level types 2 < get_indirect_level types 20)
    × (get_indirect_level types 20 < get_indirect_level types 21)
unfolding is_dereferenced_from
is_dereferenced_from_order_example =
    is_dereferenced_from_order types 2 20 21 types-IsTypes refl refl

is_convertable_trans_example :
    (is_convertable types in_c 30 10 5 ≡ true) × (is_convertable types in_c 30 10 10 ≡ true)
unfolding is_convertable code
is_convertable_trans_example = is_convertable_trans types in_c 30 10 2 5 refl refl

is_promotable-rank_example :
    (is_promotable types 2 5 ≡ leb (rank (types.simple_type 2)) (rank (types.simple_type 5)))
    × (is_promotable types 2 5 ≡ true
        → size_in_bytes types (suc 29) 2 ≤ size_in_bytes types (suc 29) 5)
unfolding rank
is_promotable-rank_example = is_promotable-rank types 29 2 5 refl refl (omega arith) (omega arith)

not_int128 : types.simple_type 2 ≢ int128
not_int128 e = cc

to_unsigned-is_signed_example :
    (is_signed types 7 ≡ false) × (size_in_bytes types (suc 29) 7 ≡ size_in_bytes types (suc 29) 2)
unfolding to_unsigned code
to_unsigned-is_signed_example =
    to_unsigned-is_signed types 29 2 7 types-IsRegistered not_int128 refl

queries-Holds_example :
    ((contain_pointer_field types 30 22 ≡ true) ↔ HoldsPointer types 22)
    × ((has_bitfields types 30 22 ≡ true) ↔ HoldsBitfield types 22)
queries-Holds_example = queries-Holds types types-HasEarlierFields 30 22 (omega arith)
