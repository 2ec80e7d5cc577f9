-- ===== src/SafeOps/Names.antt =====
-- src/SafeOpFlags.cpp: a wrapper's name says which operator it is.
use hipsmith.Prelude.{
  ℕ, ◌≡◌, refl, ap, sym, ◌∙◌, Bool, true, false, Option, none, some, List, [], ◌∷◌, ◌++◌, ◌==◌,
  if◌then◌else◌, arith,
}
use mathlib.Core.Option.{some-injective}
use hipsmith.Expansion.Defs.{codes}
use hipsmith.SafeOps.Defs.{
  BinaryOp, add, sub, mul, div, mod_op, rshift, lshift, SafeOpSize, s_int8, s_int16, s_int32,
  s_int64, s_float, SafeOpFlags, output_size, output_func_or_macro, output_sign, op_text,
  is_float_size, last_sign, to_string,
}

-- The operators that have a wrapper.
unfoldable pub is_wrapped : BinaryOp → Bool
is_wrapped add = true
is_wrapped sub = true
is_wrapped mul = true
is_wrapped div = true
is_wrapped mod_op = true
is_wrapped rshift = true
is_wrapped lshift = true
is_wrapped op = false

-- The rest of a text after a prefix.
unfoldable after : List ℕ → List ℕ → Option (List ℕ)
after [] s = some s
after (c ∷ p) [] = none
after (c ∷ p) (d ∷ s) = let rest = after p s in if c == d then rest else none

unfoldable first_of {ℓ} : {A : Type ℓ} → List (A × List ℕ) → List ℕ → Option (A × List ℕ)
unfolding after
first_of [] s = none
first_of (e ∷ es) s = elim (after e.1 s) [ none ↦ first_of es s | some t ↦ some (e.0, t) ]

abbrev ops : List (BinaryOp × List ℕ)
ops =
    (add, op_text add)
    ∷ (sub, op_text sub)
    ∷ (mul, op_text mul)
    ∷ (div, op_text div)
    ∷ (mod_op, op_text mod_op)
    ∷ (rshift, op_text rshift)
    ∷ (lshift, op_text lshift)
    ∷ []

first_of-ops :
    (op : BinaryOp) (t : List ℕ)
    → is_wrapped op ≡ true
    → first_of ops (op_text op ++ t) ≡ some (op, t)
unfolding first_of op_text is_wrapped
first_of-ops add t h = refl
first_of-ops sub t h = refl
first_of-ops mul t h = refl
first_of-ops div t h = refl
first_of-ops mod_op t h = refl
first_of-ops rshift t h = refl
first_of-ops lshift t h = refl
first_of-ops op t h = grind arith

abbrev sizes : List ((Bool × SafeOpSize) × List ℕ)
sizes =
    ((true, s_int8), codes "int8_t")
    ∷ ((true, s_int16), codes "int16_t")
    ∷ ((true, s_int32), codes "int32_t")
    ∷ ((true, s_int64), codes "int64_t")
    ∷ ((false, s_int8), codes "uint8_t")
    ∷ ((false, s_int16), codes "uint16_t")
    ∷ ((false, s_int32), codes "uint32_t")
    ∷ ((false, s_int64), codes "uint64_t")
    ∷ []

first_of-sizes :
    (sign : Bool) (z : SafeOpSize) (t : List ℕ)
    → is_float_size z ≡ false
    → first_of sizes (output_size sign z ++ t) ≡ some ((sign, z), t)
unfolding first_of output_size is_float_size
first_of-sizes true s_int8 t h = refl
first_of-sizes true s_int16 t h = refl
first_of-sizes true s_int32 t h = refl
first_of-sizes true s_int64 t h = refl
first_of-sizes false s_int8 t h = refl
first_of-sizes false s_int16 t h = refl
first_of-sizes false s_int32 t h = refl
first_of-sizes false s_int64 t h = refl
first_of-sizes sign s_float t h = grind arith

abbrev calls : List (Bool × List ℕ)
calls = (true, codes "func_") ∷ (false, codes "macro_") ∷ []

first_of-calls :
    (b : Bool) (t : List ℕ) → first_of calls (output_func_or_macro b ++ t) ≡ some (b, t)
unfolding first_of output_func_or_macro
first_of-calls true t = refl
first_of-calls false t = refl

abbrev signs : List (Bool × List ℕ)
signs = (true, codes "_s") ∷ (false, codes "_u") ∷ []

first_of-signs :
    (b c : Bool) → first_of signs (output_sign b ++ output_sign c) ≡ some (b, output_sign c)
unfolding first_of output_sign
first_of-signs true c = refl
first_of-signs false c = refl

last-signs : (b : Bool) → first_of signs (output_sign b) ≡ some (b, [])
unfolding first_of output_sign
last-signs true = refl
last-signs false = refl

abbrev Shown : Type 0
Shown = BinaryOp × Bool × (Bool × SafeOpSize) × Bool

unfoldable and_then {ℓ ℓ'} : {A : Type ℓ} → {B : Type ℓ'} → Option A → (A → Option B) → Option B
and_then none k = none
and_then (some a) k = k a

-- What a name says: the operator, whether it is a function, the first sign, the size and the last sign.
unfoldable read_name : List ℕ → Option Shown
unfolding first_of and_then
read_name s = and_then (first_of ops s) (λ a. and_then (first_of calls a.1) (λ b.
    and_then (first_of sizes b.1) (λ c.
      and_then (first_of signs c.1)
        (λ d. and_then (first_of signs d.1) (λ e. some (a.0, b.0, c.0, e.0))))))

abbrev shown : BinaryOp → SafeOpFlags → Shown
shown op f = (op, f.is_func, (f.op1, f.op_size), last_sign op f)

read_name_lem :
    (op : BinaryOp) (f : SafeOpFlags)
    → is_wrapped op ≡ true
    → is_float_size f.op_size ≡ false
    → and_then (to_string op f) read_name ≡ some (shown op f)
unfolding to_string read_name and_then
read_name_lem op f h n =
    rw
      (
        n,
        first_of-ops op _ h,
        first_of-calls f.is_func _,
        first_of-sizes f.op1 f.op_size _ n,
        first_of-signs f.op1 (last_sign op f),
        last-signs (last_sign op f),
      )
      refl

-- Two wrappers on integers with the same name are of the same operator, both functions or both macros,
-- of the same size and the same signs, where the second sign counts for shifts only. Both operators are
-- among those that have a wrapper.
pub to_string-determines :
    (op op' : BinaryOp) (f f' : SafeOpFlags)
    → is_wrapped op ≡ true
    → is_wrapped op' ≡ true
    → is_float_size f.op_size ≡ false
    → is_float_size f'.op_size ≡ false
    → to_string op f ≡ to_string op' f'
    → (op ≡ op')
      × (f.is_func ≡ f'.is_func)
      × (f.op_size ≡ f'.op_size)
      × (f.op1 ≡ f'.op1)
      × (last_sign op f ≡ last_sign op' f')
to_string-determines op op' f f' h h' n n' e =
    let same : shown op f ≡ shown op' f' = some-injective (shown op f) (shown op' f') (
      sym (read_name_lem op f h n)
      ∙ ap (λ o. and_then o read_name) e
      ∙ read_name_lem op' f' h' n') in
    (
      ap (λ s. s.0) same,
      ap (λ s. s.1) same,
      ap (λ s. s.2.1) same,
      ap (λ s. s.2.0) same,
      ap (λ s. s.3) same,
    )
