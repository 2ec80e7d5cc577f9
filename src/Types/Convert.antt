-- ===== src/Types/Convert.antt =====
-- src/Type.cpp: which types convert to which.
use hipsmith.Prelude.{
  ℕ, zero, suc, ◌≡◌, refl, ap, sym, ◌∙◌, Bool, true, false, not, ◌&&◌, ◌||◌, Option, none, some,
  ◌==◌, if◌then◌else◌, arith, Bool-cases, inl, inr,
}
use hipsmith.Types.Defs.{
  Types, TypeDesc, simple, pointer, SimpleType, void, char, int, short, long, long_long, uchar,
  uint, ushort, ulong, float, ulong_long, int128, uint128, no_simple_type, ConvertOptions, code,
  is_simple, is_pointer, is_float, promotes, is_promotable, is_signed, is_signed_simple,
  to_unsigned, to_unsigned_simple,
}
use hipsmith.Types.Sizes.{
  size_of_simple, size_in_bytes, converts_pointee, converts_pointer, is_convertable,
}

-- The simple type of a place in the enumeration.
abbrev pub simple_at : ℕ → SimpleType
simple_at n =
    if n == 0
    then void
    else if n == 1
    then char
    else if n == 2
    then int
    else if n == 3
    then short
    else if n == 4
    then long
    else if n == 5
    then long_long
    else if n == 6
    then uchar
    else if n == 7
    then uint
    else if n == 8
    then ushort
    else if n == 9
    then ulong
    else if n == 10
    then float
    else if n == 11
    then ulong_long
    else if n == 12
    then int128
    else if n == 13
    then uint128
    else no_simple_type

pub simple_at-code : (s : SimpleType) → simple_at (code s) ≡ s
unfolding code
simple_at-code void = refl
simple_at-code char = refl
simple_at-code int = refl
simple_at-code short = refl
simple_at-code long = refl
simple_at-code long_long = refl
simple_at-code uchar = refl
simple_at-code uint = refl
simple_at-code ushort = refl
simple_at-code ulong = refl
simple_at-code float = refl
simple_at-code ulong_long = refl
simple_at-code int128 = refl
simple_at-code uint128 = refl
simple_at-code no_simple_type = refl

size-code : (s t : SimpleType) → code s ≡ code t → size_of_simple s ≡ size_of_simple t
size-code s t e = ap size_of_simple (sym (simple_at-code s) ∙ ap simple_at e ∙ simple_at-code t)

pub kind_of_simple : (k : TypeDesc) → is_simple k ≡ true → k ≡ simple
unfolding is_simple
kind_of_simple simple h = refl
kind_of_simple pointer h = cc
kind_of_simple hipsmith.Types.Defs.union h = cc
kind_of_simple hipsmith.Types.Defs.vector h = cc
kind_of_simple hipsmith.Types.Defs.struct h = cc

not_both : (k : TypeDesc) → is_simple k ≡ true → is_pointer k ≡ true → ⊥
unfolding is_simple is_pointer
not_both simple h p = cc
not_both pointer h p = cc
not_both hipsmith.Types.Defs.union h p = cc
not_both hipsmith.Types.Defs.vector h p = cc
not_both hipsmith.Types.Defs.struct h p = cc

simple_or_pointer : (k : TypeDesc) → is_simple k ≡ true → is_pointer k ≡ false
simple_or_pointer k h = elim (Bool-cases (is_pointer k)) [
  | inl p ↦ absurd (not_both k h p)
  | inr n ↦ n
]

pointer_or_simple : (k : TypeDesc) → is_pointer k ≡ true → is_simple k ≡ false
pointer_or_simple k h = elim (Bool-cases (is_simple k)) [
  | inl p ↦ absurd (not_both k p h)
  | inr n ↦ n
]

-- The test of `converts_pointee` on the simple types and their sizes.
abbrev pointee_test : Bool → Bool → ℕ → ℕ → ℕ → ℕ → Bool
pointee_test strict_float lang_cpp a b x y =
    if a == b
    then true
    else if strict_float && (((a == 10) && not (b == 10)) || (not (a == 10) && (b == 10)))
    then false
    else if lang_cpp
    then false
    else x == y

pointee_test_apart :
    (strict_float lang_cpp : Bool) (a b c x y z : ℕ)
    → (a == b) ≡ false
    → (b == c) ≡ false
    → pointee_test strict_float lang_cpp a b x y ≡ true
    → pointee_test strict_float lang_cpp b c y z ≡ true
    → pointee_test strict_float lang_cpp a c x z ≡ true
pointee_test_apart false false a b c x y z n n' h k = ground (arith, n, n', h, k)
pointee_test_apart false true a b c x y z n n' h k = ground (arith, n, h)
pointee_test_apart true true a b c x y z n n' h k = ground (arith, n, h)
pointee_test_apart true false a b c x y z n n' h k = ground (arith, n, n', h, k)

pointee_test_trans :
    (strict_float lang_cpp : Bool) (a b c x y z : ℕ)
    → (a ≡ b → x ≡ y)
    → (b ≡ c → y ≡ z)
    → pointee_test strict_float lang_cpp a b x y ≡ true
    → pointee_test strict_float lang_cpp b c y z ≡ true
    → pointee_test strict_float lang_cpp a c x z ≡ true
pointee_test_trans strict_float lang_cpp a b c x y z f g h k = elim (Bool-cases (a == b)) [
  | inl s ↦ let same : a ≡ b = ground (arith, s) in let size = f same in rw (same, size) k
  | inr n ↦ elim (Bool-cases (b == c)) [
    | inl s ↦ let same : b ≡ c = ground (arith, s) in let size = g same in rw (← same, ← size) h
    | inr n' ↦ pointee_test_apart strict_float lang_cpp a b c x y z n n' h k
  ]
]

module _ (m : Types) (o : ConvertOptions) (depth : ℕ) where
  same_size :
      (p q : ℕ)
      → is_simple (m.kind p) ≡ true
      → is_simple (m.kind q) ≡ true
      → code (m.simple_type p) ≡ code (m.simple_type q)
      → size_in_bytes m depth p ≡ size_in_bytes m depth q
  unfolding size_in_bytes
  same_size p q h k e = elim depth as (λ k. size_in_bytes m k p ≡ size_in_bytes m k q) [
    | zero ↦ refl
    | suc d ↦
        let hp = kind_of_simple (m.kind p) h in
        let hq = kind_of_simple (m.kind q) k in
        rw (size_in_bytes, hp, hq) (size-code (m.simple_type p) (m.simple_type q) e)
  ]

  converts_pointee_trans :
      (p q r : ℕ)
      → is_simple (m.kind p) ≡ true
      → is_simple (m.kind q) ≡ true
      → is_simple (m.kind r) ≡ true
      → converts_pointee m o depth p q ≡ true
      → converts_pointee m o depth q r ≡ true
      → converts_pointee m o depth p r ≡ true
  unfolding converts_pointee code
  converts_pointee_trans p q r hp hq hr h k =
      pointee_test_trans o.strict_float o.lang_cpp (code (m.simple_type p)) (code (m.simple_type q))
        (code (m.simple_type r)) (size_in_bytes m depth p) (size_in_bytes m depth q)
        (size_in_bytes m depth r) (same_size p q hp hq) (same_size q r hq hr) h k

  converts_pointer_trans :
      (p q r : Option ℕ)
      → converts_pointer m o depth p q ≡ true
      → converts_pointer m o depth q r ≡ true
      → converts_pointer m o depth p r ≡ true
  unfolding converts_pointer
  converts_pointer_trans none none r h k = k
  converts_pointer_trans none (some q) r h k = ground (arith, h)
  converts_pointer_trans (some p) none r h k = ground (arith, h)
  converts_pointer_trans (some p) (some q) none h k = ground (arith, k)
  converts_pointer_trans (some p) (some q) (some r) h k = elim (Bool-cases (p == q)) [
    | inl s ↦ let same : p ≡ q = ground (arith, s) in rw same k
    | inr d ↦ elim (Bool-cases (q == r)) [
      | inl s ↦ let same : q ≡ r = ground (arith, s) in rw (← same) h
      | inr d' ↦ let trans = converts_pointee_trans p q r in ground (arith, h, k, d, d', trans)
    ]
  ]

-- Conversion is a preorder: a type converts to itself, and what converts to a type that converts to a
-- third one converts to that.
pub is_convertable_trans :
    (m : Types) (o : ConvertOptions) (depth a b t : ℕ)
    → is_convertable m o depth a b ≡ true
    → is_convertable m o depth b t ≡ true
    → (is_convertable m o depth a t ≡ true) × (is_convertable m o depth a a ≡ true)
unfolding is_convertable is_float
is_convertable_trans m o depth a b t h k =
    let self : (a == a) ≡ true = ground arith in
    (
      elim (Bool-cases (a == b)) [
        | inl s ↦ let same : a ≡ b = ground (arith, s) in rw same k
        | inr d ↦ elim (Bool-cases (b == t)) [
          | inl s ↦ let same : b ≡ t = ground (arith, s) in rw (← same) h
          | inr d' ↦ elim (Bool-cases (is_simple (m.kind b))) [
            | inl sb ↦
                let np = simple_or_pointer (m.kind b) sb in
                let sa : is_simple (m.kind a) ≡ true = ground (arith, h, d, sb, np) in
                let st : is_simple (m.kind t) ≡ true = ground (arith, k, d', sb, np) in
                ground (arith, h, k, d, d', sa, sb, st)
            | inr nb ↦
                let pa : is_pointer (m.kind a) ≡ true = ground (arith, h, d, nb) in
                let pt : is_pointer (m.kind t) ≡ true = ground (arith, k, d', nb) in
                let na = pointer_or_simple (m.kind a) pa in
                let more =
                  converts_pointer_trans m o depth (m.ptr_type a) (m.ptr_type b) (m.ptr_type t)
                    (ground (arith, h, d, nb)) (ground (arith, k, d', nb)) in
                ground (arith, pa, pt, na, more)
          ]
        ]
      ],
      ground (arith, self),
    )
