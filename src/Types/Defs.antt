-- ===== src/Types/Defs.antt =====
-- src/Type.cpp. A pointer to a type is its number, so that two types are the same where their numbers
-- are. A type comes later than the one it points to and those of its fields.
use hipsmith.Prelude.{
  ℕ, zero, suc, Bool, true, false, not, ◌&&◌, ◌||◌, Option, none, some, List, [], ◌∷◌, ◌==◌, elem,
  length,
}

pub data TypeDesc : Type 0 where
  simple : TypeDesc
  pointer : TypeDesc
  union : TypeDesc
  vector : TypeDesc
  struct : TypeDesc

-- `no_simple_type` is MAX_SIMPLE_TYPES, which pointers and aggregates have.
pub data SimpleType : Type 0 where
  void : SimpleType
  char : SimpleType
  int : SimpleType
  short : SimpleType
  long : SimpleType
  long_long : SimpleType
  uchar : SimpleType
  uint : SimpleType
  ushort : SimpleType
  ulong : SimpleType
  float : SimpleType
  ulong_long : SimpleType
  int128 : SimpleType
  uint128 : SimpleType
  no_simple_type : SimpleType

pub data MatchType : Type 0 where
  exact : MatchType
  convert : MatchType
  dereference : MatchType
  deref_exact : MatchType
  flexible : MatchType

-- The place of a simple type in the enumeration.
unfoldable pub code : SimpleType → ℕ
code void = 0
code char = 1
code int = 2
code short = 3
code long = 4
code long_long = 5
code uchar = 6
code uint = 7
code ushort = 8
code ulong = 9
code float = 10
code ulong_long = 11
code int128 = 12
code uint128 = 13
code no_simple_type = 14

-- A field is its type and the length of a bitfield, -1 being `none`.
pub record Types : Type 0 where
  pub kind : ℕ → TypeDesc
  pub ptr_type : ℕ → Option ℕ
  pub simple_type : ℕ → SimpleType
  pub fields : ℕ → List (ℕ × Option ℕ)
  pub packed : ℕ → Bool
  pub simple_types : SimpleType → ℕ

-- What the conversions ask of CGOptions.
pub record ConvertOptions : Type 0 where
  pub strict_float : Bool
  pub lang_cpp : Bool

unfoldable pub is_simple : TypeDesc → Bool
is_simple simple = true
is_simple _ = false

unfoldable pub is_pointer : TypeDesc → Bool
is_pointer pointer = true
is_pointer _ = false

unfoldable pub is_struct : TypeDesc → Bool
is_struct struct = true
is_struct _ = false

-- The walk `while (pt) pt = pt->ptr_type` from what a type points to.
unfoldable pub pointees_from : (ℕ → Option ℕ) → ℕ → ℕ → List ℕ
pointees_from ptr_type zero t = []
pointees_from ptr_type (suc steps) t = elim (ptr_type t) [
  | none ↦ []
  | some u ↦ u ∷ pointees_from ptr_type steps u
]

unfoldable pub pointees : Types → ℕ → List ℕ
unfolding pointees_from
pointees m t = pointees_from m.ptr_type t t

-- Type::get_indirect_level
unfoldable pub get_indirect_level : Types → ℕ → ℕ
unfolding pointees
get_indirect_level m t = length (pointees m t)

unfoldable pub last_of : ℕ → List ℕ → ℕ
last_of t [] = t
last_of t (u ∷ us) = last_of u us

unfoldable pub get_base_type : Types → ℕ → ℕ
unfolding last_of pointees
get_base_type m t = last_of t (pointees m t)

-- Whether `this` can be had from `t` by dereferencing.
unfoldable pub is_dereferenced_from : Types → ℕ → ℕ → Bool
unfolding pointees is_pointer
is_dereferenced_from m this t = is_pointer (m.kind t) && elem this (pointees m t)

unfoldable pub is_float : Types → ℕ → Bool
unfolding is_simple code
is_float m t = is_simple (m.kind t) && (code (m.simple_type t) == code float)

unfoldable pub is_int : Types → ℕ → Bool
unfolding is_simple code
is_int m t = is_simple (m.kind t) && not (code (m.simple_type t) == code void)

unfoldable pub is_long_long : Types → ℕ → Bool
unfolding is_simple code
is_long_long m t =
    is_simple (m.kind t)
    && ((code (m.simple_type t) == code long_long) || (code (m.simple_type t) == code ulong_long))

unfoldable pub is_aggregate : TypeDesc → Bool
is_aggregate struct = true
is_aggregate union = true
is_aggregate _ = false

unfoldable pub is_signed_simple : SimpleType → Bool
is_signed_simple uchar = false
is_signed_simple uint = false
is_signed_simple ushort = false
is_signed_simple ulong = false
is_signed_simple ulong_long = false
is_signed_simple uint128 = false
is_signed_simple _ = true

unfoldable pub is_signed : Types → ℕ → Bool
unfolding is_signed_simple
is_signed m t = elim (m.kind t) [
  | vector ↦ is_signed_simple (m.simple_type t)
  | simple ↦ is_signed_simple (m.simple_type t)
  | _ ↦ false
]

-- The type itself, or the simple type of that name.
unfoldable pub to_unsigned_simple : Types → ℕ → SimpleType → Option ℕ
to_unsigned_simple m this uchar = some this
to_unsigned_simple m this uint = some this
to_unsigned_simple m this ushort = some this
to_unsigned_simple m this ulong = some this
to_unsigned_simple m this ulong_long = some this
to_unsigned_simple m this char = some (m.simple_types uchar)
to_unsigned_simple m this int = some (m.simple_types uint)
to_unsigned_simple m this short = some (m.simple_types ushort)
to_unsigned_simple m this long = some (m.simple_types ulong)
to_unsigned_simple m this long_long = some (m.simple_types ulong_long)
to_unsigned_simple m this int128 = some (m.simple_types int128)
to_unsigned_simple m this uint128 = some (m.simple_types uint128)
to_unsigned_simple m this _ = none

unfoldable pub to_unsigned : Types → ℕ → Option ℕ
unfolding to_unsigned_simple
to_unsigned m t = elim (m.kind t) [
  | simple ↦ to_unsigned_simple m t (m.simple_type t)
  | vector ↦ to_unsigned_simple m t (m.simple_type t)
  | _ ↦ none
]

-- The switch of `is_promotable`, from one simple type to another.
unfoldable pub promotes : SimpleType → SimpleType → Bool
unfolding code
promotes s t =
    let is = λ (u : SimpleType). code t == code u in
    elim s [
      | char ↦ not (is void)
      | uchar ↦ not (is void)
      | short ↦ not (is void) && not (is char) && not (is uchar)
      | ushort ↦ not (is void) && not (is char) && not (is uchar)
      | int ↦ not (is void) && not (is char) && not (is uchar) && not (is short) && not (is ushort)
      | uint ↦ not (is void) && not (is char) && not (is uchar) && not (is short) && not (is ushort)
      | long ↦ is long || is ulong || is long_long || is ulong_long
      | ulong ↦ is long || is ulong || is long_long || is ulong_long
      | long_long ↦ is long_long || is ulong_long
      | ulong_long ↦ is long_long || is ulong_long
      | float ↦ not (is void)
      | _ ↦ false
    ]

unfoldable pub is_promotable : Types → ℕ → ℕ → Bool
unfolding promotes is_simple
is_promotable m this t =
    is_simple (m.kind this)
    && is_simple (m.kind t)
    && promotes (m.simple_type this) (m.simple_type t)
