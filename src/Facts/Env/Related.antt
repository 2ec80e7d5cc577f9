-- ===== src/Facts/Env/Related.antt =====
-- `is_related` is an equivalence, which the lattice operations keep.
use hipsmith.Prelude.{ℕ, ◌≡◌, refl, true, List, ◌==◌, arith, Bool-cases, inl, inr}
use hipsmith.Facts.Defs.{Fact, point_to, union_write, is_related, imply, join, IsWf}
use hipsmith.Facts.Lattice.{imply_iff, Below-refl, Below-trans, imply-join, join-IsWf}

pub is_related_refl : (f : Fact) → is_related f f ≡ true
unfolding is_related
is_related_refl (point_to v xs) = ground arith
is_related_refl (union_write v a) = ground arith

pub is_related_comm : (f g : Fact) → is_related f g ≡ is_related g f
unfolding is_related
is_related_comm (point_to v xs) (point_to w ys) = ground arith
is_related_comm (point_to v xs) (union_write w b) = refl
is_related_comm (union_write v a) (point_to w ys) = refl
is_related_comm (union_write v a) (union_write w b) = ground arith

-- Related facts are related to the same facts.
pub is_related_same : (f g x : Fact) → is_related f g ≡ true → is_related x f ≡ is_related x g
unfolding is_related
is_related_same (point_to v xs) (point_to w ys) (point_to u zs) h = ground arith
is_related_same (point_to v xs) (point_to w ys) (union_write u c) h = refl
is_related_same (point_to v xs) (union_write w b) x h = ground arith
is_related_same (union_write v a) (point_to w ys) x h = ground arith
is_related_same (union_write v a) (union_write w b) (point_to u zs) h = refl
is_related_same (union_write v a) (union_write w b) (union_write u c) h = ground arith

pub is_related_set :
    (v : ℕ) (xs ys : List ℕ) (x : Fact)
    → is_related x (point_to v xs) ≡ is_related x (point_to v ys)
unfolding is_related
is_related_set v xs ys (point_to u zs) = refl
is_related_set v xs ys (union_write u c) = refl

pub is_related-join : (f g x : Fact) → is_related x (join f g).0 ≡ is_related x f
unfolding is_related join
is_related-join (point_to v xs) (point_to w ys) x = elim (Bool-cases (v == w)) [
  | inl e ↦ rw e (is_related_set v _ xs x)
  | inr e ↦ rw e refl
]
is_related-join (point_to v xs) (union_write w b) x = refl
is_related-join (union_write v a) (point_to w ys) x = refl
is_related-join (union_write v a) (union_write w b) (point_to u zs) = ground arith
is_related-join (union_write v a) (union_write w b) (union_write u c) = ground arith

pub imply_refl : (f : Fact) → IsWf f → imply f f ≡ true
imply_refl f w = (imply_iff f f w).1 (Below-refl f)

pub imply_trans :
    (f g h : Fact) → IsWf g → IsWf h → imply f g ≡ true → imply g h ≡ true → imply f h ≡ true
imply_trans f g h wg wh p q =
    (imply_iff f h wh).1 (Below-trans h g f ((imply_iff g h wh).0 q) ((imply_iff f g wg).0 p))

-- The join of two related facts implies both.
pub imply-join_both :
    (f g : Fact)
    → IsWf f
    → IsWf g
    → is_related f g ≡ true
    → (imply (join f g).0 f ≡ true) × (imply (join f g).0 g ≡ true)
imply-join_both f g wf wg r =
    (imply-join f g (join f g).0 wf wg r).0 (imply_refl (join f g).0 (join-IsWf f g wf r))

pub imply_related : (f g : Fact) → imply f g ≡ true → is_related f g ≡ true
unfolding imply is_related
imply_related (point_to v xs) (point_to w ys) h = ground (arith, h)
imply_related (point_to v xs) (union_write w b) h = ground (arith, h)
imply_related (union_write v a) (point_to w ys) h = ground (arith, h)
imply_related (union_write v a) (union_write w b) h = ground (arith, h)
