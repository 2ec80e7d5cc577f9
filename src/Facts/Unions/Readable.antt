-- ===== src/Facts/Unions/Readable.antt =====
-- src/FactUnion.cpp, `is_nonreadable_field`: fields inside of unions.
use hipsmith.Prelude.{
  ℕ, zero, suc, ◌+◌, true, elem, get_elem?, ◌≡◌, ◌↔◌, refl, ap, sym, ◌∙◌, false, some, List, [],
  ◌∷◌, ◌==◌, arith, Bool-cases, Option-cases, inl, inr,
}
use hipsmith.Prelude.Int.{ℤ, pos, negsuc, int_eq, int_eq_refl, int_eq→eq}
use hipsmith.Variables.Store.{Store, IsStore, containers, is_union}
use hipsmith.Variables.Chain.{containers-some}
use hipsmith.Variables.Sets.{NoDup}
use hipsmith.Facts.Defs.{Fact, point_to, union_write, is_related, imply, top}
use hipsmith.Facts.Env.{find_related_fact}
use hipsmith.Facts.Unions.{
  first_union_field, is_union_field, position, get_field_id, is_nonreadable_field,
}

-- What is found for a union does not depend on the field that is asked with.
pub find_related_fact_any :
    (facts : List Fact) (u : ℕ) (a b : ℤ)
    → find_related_fact facts (union_write u a) ≡ find_related_fact facts (union_write u b)
unfolding find_related_fact is_related
find_related_fact_any [] u a b = refl
find_related_fact_any (point_to w xs ∷ facts) u a b = find_related_fact_any facts u a b
find_related_fact_any (union_write w c ∷ facts) u a b =
    ground (arith, find_related_fact_any facts u a b)

-- What is found for a union is a fact about it.
pub find_related_fact_union :
    (facts : List Fact) (u : ℕ) (a : ℤ) (f : Fact)
    → find_related_fact facts (union_write u a) ≡ some f
    → (fid : ℤ) × (f ≡ union_write u fid)
unfolding find_related_fact is_related
find_related_fact_union [] u a f h = absurd (ground (arith, h))
find_related_fact_union (point_to w xs ∷ facts) u a f h = find_related_fact_union facts u a f h
find_related_fact_union (union_write w c ∷ facts) u a f h = elim (Bool-cases (u == w)) [
  | inl e ↦ let same : u ≡ w = ground (arith, e) in (c, rw same (ground (arith, e, h)))
  | inr n ↦ find_related_fact_union facts u a f (ground (arith, n, h))
]

imply_written :
    (u i : ℕ) (fid : ℤ) → imply (union_write u (pos i)) (union_write u fid) ≡ int_eq (pos i) fid
unfolding imply
imply_written u i (pos j) = ground arith
imply_written u i (negsuc j) = ground arith

-- What `is_nonreadable_field` answers where its walk finds the field `w` of the union `u`.
written_last :
    (m : Store) (facts : List Fact) (v : ℕ) {w u i : ℕ}
    → first_union_field m (containers m v) ≡ some w
    → m.field_var_of w ≡ some u
    → get_field_id m w ≡ pos i
    → (is_nonreadable_field m facts v ≡ false)
      ↔ (find_related_fact facts (union_write u top) ≡ some (union_write u (pos i)))
unfolding is_nonreadable_field imply
written_last m facts v {w = w} {u = u} {i = i} hw hu hi =
    let any = find_related_fact_any facts u top (get_field_id m w) in
    elim (Option-cases (find_related_fact facts (union_write u (get_field_id m w)))) [
      | inl n ↦
          (λ h. absurd (ground (arith, hw, hu, n, h)), λ h. absurd (ground (arith, n, h, any)))
      | inr (f, e) ↦
          let (fid, is_fid) = find_related_fact_union facts u (get_field_id m w) f e in
          let step = imply_written u i fid in
          let eq = int_eq→eq (pos i) fid in
          let e' : find_related_fact facts (union_write u (pos i)) ≡ some (union_write u fid) =
            rw (← hi) (rw (← is_fid) e) in
          (
            λ h.
                let same = eq (ground (arith, hw, hu, hi, e', step, h)) in
                any ∙ e ∙ ap some is_fid ∙ ap (λ x. some (union_write u x)) (sym same),
            λ h.
                let found : find_related_fact facts (union_write u (pos i))
                    ≡ some (union_write u (pos i)) =
                  find_related_fact_any facts u (pos i) top ∙ h in
                ground (arith, hw, hu, hi, found, imply_written u i (pos i), int_eq_refl (pos i)),
          )
    ]

-- The field `w` of the union `u` is the variable itself, or holds its container, where no union is
-- nearer.
pub data InUnionField (m : Store) (w u : ℕ) : ℕ → Type 0 where
  union_field : m.field_var_of w ≡ some u → is_union (m.type u) ≡ true → InUnionField m w u w
  inside :
      {v t : ℕ}
      → m.field_var_of v ≡ some t
      → is_union (m.type t) ≡ false
      → InUnionField m w u t
      → InUnionField m w u v

module _ (m : Store) (ok : IsStore m) where
  first_union_field-InUnionField :
      {w u v : ℕ} → InUnionField m w u v → first_union_field m (containers m v) ≡ some w
  unfolding first_union_field is_union_field
  first_union_field-InUnionField {w = w} {u = u} (union_field e y) =
      rw (containers-some m ok w u e) (ground (arith, e, y))
  first_union_field-InUnionField {w = w} (inside {v = v} {t = t} e n h) =
      rw (containers-some m ok v t e) (ground (arith, e, n, first_union_field-InUnionField h))

  union_of-InUnionField : {w u v : ℕ} → InUnionField m w u v → m.field_var_of w ≡ some u
  union_of-InUnionField (union_field e y) = e
  union_of-InUnionField (inside e n h) = union_of-InUnionField h

get_elem?-elem : (xs : List ℕ) (i v : ℕ) → get_elem? xs i ≡ some v → elem v xs ≡ true
get_elem?-elem [] i v h = ground (arith, h)
get_elem?-elem (x ∷ xs) zero v h = ground (arith, h)
get_elem?-elem (x ∷ xs) (suc i) v h = ground (arith, get_elem?-elem xs i v h)

position_lem :
    (v k i : ℕ) (xs : List ℕ) → NoDup xs → get_elem? xs i ≡ some v → position v k xs ≡ pos (k + i)
unfolding position
position_lem v k i [] d h = ground (arith, h)
position_lem v k zero (x ∷ xs) d h =
    let here : x ≡ v = ground (arith, h) in
    let sum : k ≡ k + 0 = omega arith in ground (arith, here, ap pos sum)
position_lem v k (suc i) (x ∷ xs) d h =
    let later = get_elem?-elem xs i v h in
    let apart : (x == v) ≡ false = ground (arith, later, d.0) in
    let rest = position_lem v (suc k) i xs d.1 h in
    let sum : suc k + i ≡ k + suc i = omega arith in ground (arith, apart, rest ∙ ap pos sum)

-- A field inside of a union can be read exactly if the facts say that the field of the nearest union
-- around it was written last, whose number is its place in the union. The containers of variables are
-- structs and unions that were created before them, and the union lists each of its fields once.
pub is_nonreadable_field_iff :
    (m : Store) (facts : List Fact) (v w u i : ℕ)
    → IsStore m
    → InUnionField m w u v
    → NoDup (m.field_vars u)
    → get_elem? (m.field_vars u) i ≡ some w
    → (is_nonreadable_field m facts v ≡ false)
      ↔ (find_related_fact facts (union_write u top) ≡ some (union_write u (pos i)))
unfolding get_field_id
is_nonreadable_field_iff m facts v w u i ok h d at_i =
    let e = union_of-InUnionField m ok h in
    let place = position_lem w 0 i (m.field_vars u) d at_i in
    written_last m facts v (first_union_field-InUnionField m ok h) e (ground (arith, e, place))
