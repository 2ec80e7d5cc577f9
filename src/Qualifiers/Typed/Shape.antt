-- ===== src/Qualifiers/Typed/Shape.antt =====
-- The shape of the qualifiers made for a type.
use hipsmith.Prelude.{
  ℕ, zero, suc, ◌≡◌, refl, sym, ◌∙◌, Bool, true, false, not, ◌&&◌, ◌||◌, some, List, [], ◌∷◌, ◌++◌,
  if◌then◌else◌, length, replicate, length-append, length-replicate, arith, Bool-cases, inl, inr,
}
use hipsmith.Qualifiers.Defs.{QualifierOptions, Access, is_write, sanity_check}
use hipsmith.Qualifiers.Random.{make_scalar_volatiles, make_scalar_consts}
use hipsmith.Qualifiers.Generate.{CType, pointer, indirect_level, is_volatile_ok_on_one_level}
use hipsmith.Qualifiers.Looser.{length-clear_tail}
use hipsmith.Qualifiers.Typed.{pick_level, pointee_levels, random_type_qualifiers, Exclusive}

length-make_scalar_volatiles :
    (o : QualifierOptions) (vs : List Bool) → length (make_scalar_volatiles o vs) ≡ length vs
unfolding make_scalar_volatiles
length-make_scalar_volatiles o vs = ground (arith, length-clear_tail vs)

length-make_scalar_consts :
    (o : QualifierOptions) (cs : List Bool) → length (make_scalar_consts o cs) ≡ length cs
unfolding make_scalar_consts
length-make_scalar_consts o cs = ground (arith, length-clear_tail cs)

Exclusive-append :
    (cs vs : List Bool) (c v : Bool)
    → length cs ≡ length vs
    → Exclusive cs vs
    → c && v ≡ false
    → Exclusive (cs ++ c ∷ []) (vs ++ v ∷ [])
Exclusive-append [] [] c v l h e = (e, tt)
Exclusive-append [] (x ∷ vs) c v l h e = absurd (omega arith)
Exclusive-append (x ∷ cs) [] c v l h e = absurd (omega arith)
Exclusive-append (x ∷ cs) (y ∷ vs) c v l h e = (h.0, Exclusive-append cs vs c v (omega arith) h.1 e)

Exclusive-clear_left : (n : ℕ) (vs : List Bool) → Exclusive (replicate n false) vs
Exclusive-clear_left zero vs = tt
Exclusive-clear_left (suc n) [] = tt
Exclusive-clear_left (suc n) (v ∷ vs) = (refl, Exclusive-clear_left n vs)

Exclusive-clear_right : (n : ℕ) (cs : List Bool) → Exclusive cs (replicate n false)
Exclusive-clear_right n [] = tt
Exclusive-clear_right zero (c ∷ cs) = tt
Exclusive-clear_right (suc n) (c ∷ cs) = (ground arith, Exclusive-clear_right n cs)

Exclusive-make_scalar_consts :
    (o : QualifierOptions) (cs vs : List Bool)
    → Exclusive cs vs
    → Exclusive (make_scalar_consts o cs) vs
unfolding make_scalar_consts
Exclusive-make_scalar_consts o [] vs h = ground arith
Exclusive-make_scalar_consts o (c ∷ cs) [] h = ground arith
Exclusive-make_scalar_consts o (c ∷ cs) (v ∷ vs) h = elim (Bool-cases o.const_pointers) [
  | inl e ↦ rw e h
  | inr e ↦ rw e (h.0, Exclusive-clear_left (length cs) vs)
]

Exclusive-make_scalar_volatiles :
    (o : QualifierOptions) (cs vs : List Bool)
    → Exclusive cs vs
    → Exclusive cs (make_scalar_volatiles o vs)
unfolding make_scalar_volatiles
Exclusive-make_scalar_volatiles o [] vs h = tt
Exclusive-make_scalar_volatiles o (c ∷ cs) [] h = ground arith
Exclusive-make_scalar_volatiles o (c ∷ cs) (v ∷ vs) h =
    elim (Bool-cases (not o.volatile_pointers || not o.global_variables)) [
      | inl e ↦ rw e (h.0, Exclusive-clear_right (length vs) cs)
      | inr e ↦ rw e h
    ]

module _ (coins : ℕ → Bool) (o : QualifierOptions) (lang_cpp : Bool) where
  pick_level_exclusive :
      (volatile_ok const_ok : Bool) (n : ℕ)
      → o.allow_const_volatile ≡ false
      → (pick_level coins o lang_cpp volatile_ok const_ok n).is_const
          && (pick_level coins o lang_cpp volatile_ok const_ok n).is_volatile
        ≡ false
  unfolding pick_level
  pick_level_exclusive volatile_ok const_ok n h = ground arith

  pointee_levels-length :
      (t : CType) (n : ℕ)
      → (length (pointee_levels coins o lang_cpp t n).consts ≡ indirect_level t)
        × (length (pointee_levels coins o lang_cpp t n).volatiles ≡ indirect_level t)
  unfolding pointee_levels indirect_level
  pointee_levels-length (pointer t) n =
      let here = pick_level coins o lang_cpp (is_volatile_ok_on_one_level t lang_cpp) true n in
      let inner = pointee_levels coins o lang_cpp t here.made in
      let (c, v) = pointee_levels-length t here.made in
      (
        length-append inner.consts (here.is_const ∷ []) ∙ omega (arith, c),
        length-append inner.volatiles (here.is_volatile ∷ []) ∙ omega (arith, v),
      )
  pointee_levels-length _ n = (refl, refl)

  pointee_levels-Exclusive :
      (t : CType) (n : ℕ)
      → o.allow_const_volatile ≡ false
      → Exclusive
          (pointee_levels coins o lang_cpp t n).consts
          (pointee_levels coins o lang_cpp t n).volatiles
  unfolding pointee_levels
  pointee_levels-Exclusive (pointer t) n h =
      let ok = is_volatile_ok_on_one_level t lang_cpp in
      let here = pick_level coins o lang_cpp ok true n in
      let (c, v) = pointee_levels-length t here.made in
      Exclusive-append _ _ here.is_const here.is_volatile (c ∙ sym v)
        (pointee_levels-Exclusive t here.made h) (pick_level_exclusive ok true n h)
  pointee_levels-Exclusive _ n h = tt

-- The qualifiers that `random_qualifiers` makes for a type pass `sanity_check` for that type: they
-- have one constant and one volatile flag more than the type has levels of indirection.
pub random_type_qualifiers-sanity_check :
    (coins : ℕ → Bool) (o : QualifierOptions) (lang_cpp : Bool) (t : CType) (access : Access)
    (side_effect_free no_volatile : Bool)
    → sanity_check
        (random_type_qualifiers coins o lang_cpp (some t) access side_effect_free no_volatile)
        (indirect_level t)
      ≡ true
unfolding random_type_qualifiers sanity_check
random_type_qualifiers-sanity_check coins o lang_cpp t access side_effect_free no_volatile =
    let below = pointee_levels coins o lang_cpp t 0 in
    let own =
      pick_level coins o lang_cpp (side_effect_free && is_volatile_ok_on_one_level t lang_cpp)
        (not (is_write access)) below.made in
    let vs = below.volatiles ++ own.is_volatile ∷ [] in
    let cs = below.consts ++ own.is_const ∷ [] in
    let (c, v) = pointee_levels-length coins o lang_cpp t 0 in
    ground (
      arith,
      c,
      v,
      length-append below.volatiles (own.is_volatile ∷ []),
      length-append below.consts (own.is_const ∷ []),
      length-make_scalar_consts o cs,
      length-make_scalar_volatiles o (if no_volatile then replicate (length vs) false else vs),
      length-replicate (length vs) false,
    )

-- Unless the options allow it, no level of the qualifiers that `random_qualifiers` makes for a type
-- is both constant and volatile.
pub random_type_qualifiers-Exclusive :
    (coins : ℕ → Bool) (o : QualifierOptions) (lang_cpp : Bool) (t : CType) (access : Access)
    (side_effect_free no_volatile : Bool)
    → o.allow_const_volatile ≡ false
    → Exclusive
        (random_type_qualifiers coins o lang_cpp
          (some t)
          access
          side_effect_free
          no_volatile).is_consts
        (random_type_qualifiers coins o lang_cpp
          (some t)
          access
          side_effect_free
          no_volatile).is_volatiles
unfolding random_type_qualifiers
random_type_qualifiers-Exclusive coins o lang_cpp t access side_effect_free no_volatile h =
    let below = pointee_levels coins o lang_cpp t 0 in
    let ok = side_effect_free && is_volatile_ok_on_one_level t lang_cpp in
    let own = pick_level coins o lang_cpp ok (not (is_write access)) below.made in
    let (c, v) = pointee_levels-length coins o lang_cpp t 0 in
    Exclusive-make_scalar_consts o _ _ (
      Exclusive-make_scalar_volatiles o _ _
        (elim no_volatile
          as (λ b. Exclusive (below.consts ++ own.is_const ∷ []) (
            if b
            then replicate (length (below.volatiles ++ own.is_volatile ∷ [])) false
            else below.volatiles ++ own.is_volatile ∷ [])) [
              | true ↦ Exclusive-clear_right _ _
              | false ↦
                  Exclusive-append below.consts below.volatiles own.is_const own.is_volatile
                    (c ∙ sym v) (pointee_levels-Exclusive coins o lang_cpp t 0 h)
                    (pick_level_exclusive coins o lang_cpp ok (not (is_write access)) below.made h)
            ]))
