-- ===== src/SafeOps/Defs.antt =====
-- src/SafeOpFlags.cpp. A text is the list of its codes; a failing assertion is `none`.
use hipsmith.Prelude.{
  ℕ, Bool, true, false, Option, none, some, List, [], ◌∷◌, ◌++◌, length, if◌then◌else◌, suc,
}
use hipsmith.Expansion.Defs.{codes, same_text}
use hipsmith.Types.Defs.{
  SimpleType, char, short, int, long_long, float, uchar, ushort, uint, ulong_long,
}

pub data BinaryOp : Type 0 where
  add : BinaryOp
  sub : BinaryOp
  mul : BinaryOp
  div : BinaryOp
  mod_op : BinaryOp
  cmp_gt : BinaryOp
  cmp_lt : BinaryOp
  cmp_ge : BinaryOp
  cmp_le : BinaryOp
  cmp_eq : BinaryOp
  cmp_ne : BinaryOp
  and : BinaryOp
  or : BinaryOp
  bit_xor : BinaryOp
  bit_and : BinaryOp
  bit_or : BinaryOp
  rshift : BinaryOp
  lshift : BinaryOp

pub data SafeOpSize : Type 0 where
  s_int8 : SafeOpSize
  s_int16 : SafeOpSize
  s_int32 : SafeOpSize
  s_int64 : SafeOpSize
  s_float : SafeOpSize

pub record SafeOpFlags : Type 0 where
  pub op1 : Bool
  pub op2 : Bool
  pub is_func : Bool
  pub op_size : SafeOpSize

unfoldable pub flags_to_type : Bool → SafeOpSize → Option SimpleType
flags_to_type true s_int8 = some char
flags_to_type true s_int16 = some short
flags_to_type true s_int32 = some int
flags_to_type true s_int64 = some long_long
flags_to_type true s_float = some float
flags_to_type false s_int8 = some uchar
flags_to_type false s_int16 = some ushort
flags_to_type false s_int32 = some uint
flags_to_type false s_int64 = some ulong_long
flags_to_type false s_float = none

unfoldable pub output_size : Bool → SafeOpSize → List ℕ
output_size sign size = (if sign then [] else codes "u") ++ elim size [
  | s_int8 ↦ codes "int8_t"
  | s_int16 ↦ codes "int16_t"
  | s_int32 ↦ codes "int32_t"
  | s_int64 ↦ codes "int64_t"
  | s_float ↦ codes "float"
]

unfoldable pub output_func_or_macro : Bool → List ℕ
output_func_or_macro is_func = if is_func then codes "func_" else codes "macro_"

unfoldable pub output_sign : Bool → List ℕ
output_sign is_signed = if is_signed then codes "_s" else codes "_u"

-- The names of the wrappers on floating point.
unfoldable pub safe_float_func_string : BinaryOp → Option (List ℕ)
safe_float_func_string add = some (codes "safe_add_func_float_f_f")
safe_float_func_string sub = some (codes "safe_sub_func_float_f_f")
safe_float_func_string mul = some (codes "safe_mul_func_float_f_f")
safe_float_func_string div = some (codes "safe_div_func_float_f_f")
safe_float_func_string op = none

-- The first part of a name, empty for an operator without a wrapper.
unfoldable pub op_text : BinaryOp → List ℕ
op_text add = codes "safe_add_"
op_text sub = codes "safe_sub_"
op_text mul = codes "safe_mul_"
op_text mod_op = codes "safe_mod_"
op_text div = codes "safe_div_"
op_text lshift = codes "safe_lshift_"
op_text rshift = codes "safe_rshift_"
op_text op = []

unfoldable pub is_shift : BinaryOp → Bool
is_shift lshift = true
is_shift rshift = true
is_shift op = false

unfoldable pub is_float_size : SafeOpSize → Bool
is_float_size s_float = true
is_float_size size = false

-- The sign that is printed last.
unfoldable pub last_sign : BinaryOp → SafeOpFlags → Bool
unfolding is_shift
last_sign op f = if is_shift op then f.op2 else f.op1

unfoldable pub to_string : BinaryOp → SafeOpFlags → Option (List ℕ)
unfolding is_float_size safe_float_func_string op_text output_func_or_macro output_size output_sign
    last_sign
to_string op f =
    if is_float_size f.op_size
    then safe_float_func_string op
    else some (
        op_text op
        ++ (output_func_or_macro f.is_func
            ++ (output_size f.op1 f.op_size
                ++ (output_sign f.op1 ++ output_sign (last_sign op f)))))

pub data UnaryOp : Type 0 where
  plus : UnaryOp
  minus : UnaryOp
  logical_not : UnaryOp
  bit_not : UnaryOp

unfoldable pub unary_text : UnaryOp → List ℕ
unary_text minus = codes "safe_unary_minus_"
unary_text op = []

unfoldable pub unary_to_string : UnaryOp → SafeOpFlags → Option (List ℕ)
unfolding is_float_size unary_text output_func_or_macro output_size output_sign
unary_to_string op f =
    if is_float_size f.op_size
    then none
    else some (
        unary_text op
        ++ (output_func_or_macro f.is_func ++ (output_size f.op1 f.op_size ++ output_sign f.op1)))

-- The number of the first entry that is the name, counted from `next`.
unfoldable pub find_id : List (List ℕ) → List ℕ → ℕ → Option ℕ
unfolding same_text
find_id [] fname next = none
find_id (name ∷ names) fname next =
    let rest = find_id names fname (suc next) in if same_text name fname then some next else rest

-- The number of a name, and the names that are known afterwards.
unfoldable pub to_id : List ℕ → List (List ℕ) → ℕ × List (List ℕ)
unfolding find_id
to_id fname wrapper_names = elim (find_id wrapper_names fname 1) [
  | some i ↦ (i, wrapper_names)
  | none ↦ (length (wrapper_names ++ fname ∷ []), wrapper_names ++ fname ∷ [])
]
