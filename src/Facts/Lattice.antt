-- ===== src/Facts/Lattice.antt =====
-- `imply` is an order on related facts, and `join` is its least upper bound.
use hipsmith.Prelude.{
  ℕ, ◌≡◌, ◌↔◌, refl, ap, sym, ◌∙◌, Bool, true, false, not, List, if◌then◌else◌, arith, Bool-cases,
  ◌⊎◌, inl, inr,
}
use hipsmith.Prelude.Int.{ℤ, pos, negsuc, int_eq, int_eq_refl, int_eq→eq}
use hipsmith.Variables.Sets.{Included, add_variables_to_set}
use hipsmith.Variables.Sets.Laws.{
  elem-add_variables_to_set, NoDup-add_variables_to_set, sub_variable_sets_iff,
  add_variables_to_set_changed, all_in_set_iff,
}
use hipsmith.Facts.Defs.{Fact, point_to, union_write, bottom, is_related, imply, join, IsWf}

-- The facts of one variable and kind, from the one that knows most to the one that knows least.
abbrev pub Below : Fact → Fact → Type 0
Below (point_to v set) (point_to w set') = (v ≡ w) × Included set set'
Below (union_write v fid) (union_write w fid') = (v ≡ w) × ((fid' ≡ bottom) ⊎ (fid ≡ fid'))
Below _ _ = ⊥

-- `imply f g` decides that `g` lies below `f`.
pub imply_iff : (f g : Fact) → IsWf g → (imply f g ≡ true) ↔ Below g f
unfolding imply
imply_iff (point_to v set) (point_to w set') h = (
  λ e. (ground (arith, e), (sub_variable_sets_iff set' set h).0 (ground (arith, e))),
  λ b. ground (arith, b.0, (sub_variable_sets_iff set' set h).1 b.1),
)
imply_iff (point_to v set) (union_write w fid) h = (λ e. ground (arith, e), λ b. absurd b)
imply_iff (union_write v fid) (point_to w set) h = (λ e. ground (arith, e), λ b. absurd b)
imply_iff (union_write v fid) (union_write w fid') h = (
  λ e. (ground (arith, e), ground (arith, e, int_eq→eq fid bottom, int_eq→eq fid fid')),
  λ b. elim b.1 [
    | inl e ↦ ground (arith, b.0, ap (λ x. int_eq x bottom) e)
    | inr e ↦ ground (arith, b.0, ap (int_eq fid) e, int_eq_refl fid)
  ],
)

pub Below-refl : (f : Fact) → Below f f
Below-refl (point_to v set) = (refl, λ a h. h)
Below-refl (union_write v fid) = (refl, inr refl)

pub Below-trans : (f g h : Fact) → Below f g → Below g h → Below f h
Below-trans (point_to u xs) (point_to v ys) (point_to w zs) p q =
    (p.0 ∙ q.0, λ a e. q.1 a (p.1 a e))
Below-trans (point_to u xs) (point_to v ys) (union_write w c) p q = absurd q
Below-trans (point_to u xs) (union_write v b) h p q = absurd p
Below-trans (union_write u a) (point_to v ys) h p q = absurd p
Below-trans (union_write u a) (union_write v b) (point_to w zs) p q = absurd q
Below-trans (union_write u a) (union_write v b) (union_write w c) p q = ground arith

abbrev join_fids : ℤ → ℤ → ℤ
join_fids a b = if int_eq a b then a else bottom

module _ (a b c : ℤ) where
  join_fids_lower :
      (c ≡ bottom) ⊎ (join_fids a b ≡ c) → ((c ≡ bottom) ⊎ (a ≡ c)) × ((c ≡ bottom) ⊎ (b ≡ c))
  join_fids_lower (inl e) = (inl e, inl e)
  join_fids_lower (inr e) = elim (Bool-cases (int_eq a b)) [
    | inl s ↦ let same = int_eq→eq a b s in let e' = rw s at e in (inr e', inr (sym same ∙ e'))
    | inr n ↦ let e' = rw n at e in (inl (sym e'), inl (sym e'))
  ]

  join_fids_greatest :
      (c ≡ bottom) ⊎ (a ≡ c) → (c ≡ bottom) ⊎ (b ≡ c) → (c ≡ bottom) ⊎ (join_fids a b ≡ c)
  join_fids_greatest (inl e) q = inl e
  join_fids_greatest (inr e) (inl f) = inl f
  join_fids_greatest (inr e) (inr f) =
      let same : a ≡ b = e ∙ sym f in
      let t : int_eq a b ≡ true = ap (int_eq a) (sym same) ∙ int_eq_refl a in inr (rw t e)

join_point_to :
    (v w : ℕ) (xs ys : List ℕ)
    → v ≡ w
    → join (point_to v xs) (point_to w ys)
      ≡ (point_to v (add_variables_to_set xs ys).0, (add_variables_to_set xs ys).1)
unfolding join
join_point_to v w xs ys e = ground (arith, e)

-- Two different written fields, TOP and BOTTOM among them, leave BOTTOM.
join_union_write :
    (v w : ℕ) (a b : ℤ)
    → v ≡ w
    → (join (union_write v a) (union_write w b)).0 ≡ union_write v (join_fids a b)
unfolding join
join_union_write v w (pos a) (pos b) e = ground (arith, e)
join_union_write v w (pos a) (negsuc b) e = ground (arith, e)
join_union_write v w (negsuc a) (pos b) e = ground (arith, e)
join_union_write v w (negsuc a) (negsuc b) e = ground (arith, e)

-- The join of two facts of one variable and kind lies below exactly what both lie below.
join-Below : (f g h : Fact) → is_related f g ≡ true → Below (join f g).0 h ↔ (Below f h × Below g h)
unfolding is_related
join-Below (point_to v xs) (point_to w ys) (point_to u zs) r =
    let e : v ≡ w = ground (arith, r) in
    let elems = λ (a : ℕ). elem-add_variables_to_set a xs ys in
    rw (join_point_to v w xs ys e) (
      λ b. (
        (b.0, λ a h. b.1 a (ground (arith, h, elems a))),
        (sym e ∙ b.0, λ a h. b.1 a (ground (arith, h, elems a))),
      ),
      λ b. (b.0.0, λ a h. ground (arith, h, elems a, b.0.1 a, b.1.1 a)),
    )
join-Below (point_to v xs) (point_to w ys) (union_write u c) r =
    rw (join_point_to v w xs ys (ground (arith, r))) (λ b. absurd b, λ b. b.0)
join-Below (point_to v xs) (union_write w b) h r = ground (arith, r)
join-Below (union_write v a) (point_to w ys) h r = ground (arith, r)
join-Below (union_write v a) (union_write w b) (point_to u zs) r =
    rw (join_union_write v w a b (ground (arith, r))) (λ b. absurd b, λ b. b.0)
join-Below (union_write v a) (union_write w b) (union_write u c) r =
    let e : v ≡ w = ground (arith, r) in
    rw (join_union_write v w a b e) (
      λ h. let l = join_fids_lower a b c h.1 in ((h.0, l.0), (sym e ∙ h.0, l.1)),
      λ h. (h.0.0, join_fids_greatest a b c h.0.1 h.1.1),
    )

pub join-IsWf : (f g : Fact) → IsWf f → is_related f g ≡ true → IsWf (join f g).0
unfolding is_related
join-IsWf (point_to v xs) (point_to w ys) d r =
    rw (join_point_to v w xs ys (ground (arith, r))) (NoDup-add_variables_to_set xs ys d)
join-IsWf (point_to v xs) (union_write w b) d r = ground (arith, r)
join-IsWf (union_write v a) (point_to w ys) d r = ground (arith, r)
join-IsWf (union_write v a) (union_write w b) d r =
    rw (join_union_write v w a b (ground (arith, r))) tt

-- `join` is the least upper bound: a fact implies the join of two related facts exactly when it
-- implies both of them. No points-to set of the two holds a variable twice.
pub imply-join :
    (f g h : Fact)
    → IsWf f
    → IsWf g
    → is_related f g ≡ true
    → (imply h (join f g).0 ≡ true) ↔ ((imply h f ≡ true) × (imply h g ≡ true))
imply-join f g h wf wg r =
    let j = imply_iff h (join f g).0 (join-IsWf f g wf r) in
    let both = join-Below f g h r in
    (
      λ e. let b = both.0 (j.0 e) in ((imply_iff h f wf).1 b.0, (imply_iff h g wg).1 b.1),
      λ e. j.1 (both.1 ((imply_iff h f wf).0 e.0, (imply_iff h g wg).0 e.1)),
    )

not_iff : (a b : Bool) → ((a ≡ true) ↔ (b ≡ true)) → a ≡ b
not_iff true true h = refl
not_iff true false h = sym (h.0 refl)
not_iff false true h = h.1 refl
not_iff false false h = refl

union_write_changed :
    (v w : ℕ) (a b : ℤ)
    → v ≡ w
    → (join (union_write v a) (union_write w b)).1 ≡ not (imply (union_write v a) (union_write w b))
unfolding join
union_write_changed v w a b e = ground (arith, e)

-- `join` reports a change exactly when the first of two related facts did not imply the second,
-- whose points-to set holds no variable twice.
pub join_changed : (f g : Fact) → IsWf g → is_related f g ≡ true → (join f g).1 ≡ not (imply f g)
unfolding is_related
join_changed (point_to v xs) (point_to w ys) d r =
    let e : v ≡ w = ground (arith, r) in
    rw (join_point_to v w xs ys e, add_variables_to_set_changed xs ys)
      (ap not (
        not_iff _ _ (
          λ h. (imply_iff (point_to v xs) (point_to w ys) d).1 (sym e, (all_in_set_iff ys xs).0 h),
          λ h. (all_in_set_iff ys xs).1 ((imply_iff (point_to v xs) (point_to w ys) d).0 h).1,
        )))
join_changed (point_to v xs) (union_write w b) d r = ground (arith, r)
join_changed (union_write v a) (point_to w ys) d r = ground (arith, r)
join_changed (union_write v a) (union_write w b) d r =
    union_write_changed v w a b (ground (arith, r))
