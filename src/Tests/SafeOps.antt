-- ===== src/Tests/SafeOps.antt =====
-- The wrappers at small inputs.
use hipsmith.Prelude.{ℕ, ◌≡◌, refl, true, false, some, none, List, [], ◌∷◌, ◌==◌}
use hipsmith.Expansion.Defs.{codes, same_text}
use hipsmith.Types.Defs.{ushort}
use hipsmith.SafeOps.Defs.{
  add, cmp_lt, lshift, s_int16, s_int64, s_float, SafeOpFlags, flags_to_type, is_float_size,
  last_sign, to_string, minus, unary_to_string, to_id,
}
use hipsmith.SafeOps.Names.{is_wrapped, to_string-determines}
use hipsmith.SafeOps.Ids.{known_after, to_id-same_text}

abbrev wide : SafeOpFlags
wide = record { op1 = false; op2 = true; is_func = true; op_size = s_int64 }

abbrev wide_too : SafeOpFlags
wide_too = record wide { op2 = false }

abbrev floating : SafeOpFlags
floating = record wide { op_size = s_float }

names_printed :
    (to_string lshift wide ≡ some (codes "safe_lshift_func_uint64_t_u_s"))
    × (to_string add wide ≡ some (codes "safe_add_func_uint64_t_u_u"))
    × (to_string add floating ≡ some (codes "safe_add_func_float_f_f"))
    × (to_string cmp_lt floating ≡ none)
unfolding to_string
names_printed = (refl, refl, refl, refl)

unary_names_printed :
    (unary_to_string minus wide ≡ some (codes "safe_unary_minus_func_uint64_t_u"))
    × (unary_to_string minus floating ≡ none)
unfolding unary_to_string
unary_names_printed = (refl, refl)

types_of_flags : (flags_to_type false s_int16 ≡ some ushort) × (flags_to_type false s_float ≡ none)
unfolding flags_to_type
types_of_flags = (refl, refl)

wrapped_addition : is_wrapped add ≡ true
unfolding is_wrapped
wrapped_addition = refl

wide_is_int : is_float_size wide.op_size ≡ false
unfolding is_float_size
wide_is_int = refl

same_name : to_string add wide ≡ to_string add wide_too
unfolding to_string
same_name = refl

to_string-determines_example :
    (add ≡ add)
    × (wide.is_func ≡ wide_too.is_func)
    × (wide.op_size ≡ wide_too.op_size)
    × (wide.op1 ≡ wide_too.op1)
    × (last_sign add wide ≡ last_sign add wide_too)
to_string-determines_example =
    to_string-determines add add wide wide_too wrapped_addition wrapped_addition wide_is_int
      wide_is_int same_name

abbrev known_names : List (List ℕ)
known_names = codes "safe_add_" ∷ codes "safe_sub_" ∷ []

to_id-same_text_example :
    ((to_id (codes "safe_mul_") known_names).0
      == (to_id
          (codes "safe_sub_")
          (known_after (codes "x" ∷ []) (to_id (codes "safe_mul_") known_names).1)).0)
    ≡ same_text (codes "safe_mul_") (codes "safe_sub_")
to_id-same_text_example =
    to_id-same_text (codes "safe_mul_") (codes "safe_sub_") (codes "x" ∷ []) known_names
