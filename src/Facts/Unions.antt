-- ===== src/Facts/Unions.antt =====
-- src/FactUnion.cpp: which field of a union may be read.
pub mod Readable
pub mod Joined
use hipsmith.Prelude.{
  ℕ, zero, suc, ◌≡◌, refl, Bool, true, false, not, ◌&&◌, ◌||◌, Option, none, some, List, [], ◌∷◌,
  ◌==◌, if◌then◌else◌, elem, arith, Bool-cases, Option-cases, inl, inr,
}
use hipsmith.Prelude.Int.{ℤ, pos, negsuc, int_eq, int_eq_refl, int_eq→eq}
use hipsmith.Variables.Store.{Store, containers, is_union}
use hipsmith.Facts.Defs.{
  Fact, point_to, union_write, is_related, get_var, top, bottom, equal, imply, join,
}
use hipsmith.Facts.Env.{find_related_fact}

unfoldable pub make_union_facts : List ℕ → ℤ → List Fact
make_union_facts [] fid = []
make_union_facts (v ∷ vars) fid = union_write v fid ∷ make_union_facts vars fid

unfoldable pub set_var : Fact → ℕ → Fact
set_var (point_to v vars) w = point_to v vars
set_var (union_write v fid) w = union_write w fid

-- The loop of `join_var_facts`; `fu` is `none` where it is null.
unfoldable pub join_var_facts_from : List Fact → List ℕ → Option Fact → Option Fact
unfolding find_related_fact set_var join get_var
join_var_facts_from facts [] fu = fu
join_var_facts_from facts (v ∷ vars) fu = elim (find_related_fact facts (union_write v top)) [
  | none ↦ join_var_facts_from facts vars fu
  | some exist_fact ↦ elim fu [
    | none ↦ join_var_facts_from facts vars (some exist_fact)
    | some f ↦
        join_var_facts_from facts vars (some (join (set_var f (get_var exist_fact)) exist_fact).0)
  ]
]

unfoldable pub join_var_facts : List Fact → List ℕ → Option Fact
unfolding join_var_facts_from
join_var_facts facts vars = join_var_facts_from facts vars none

-- The position of a field in its container, counted from `i`; -1 if it is not there.
unfoldable pub position : ℕ → ℕ → List ℕ → ℤ
position v i [] = negsuc 0
position v i (x ∷ xs) = if x == v then pos i else position v (suc i) xs

-- Variable::get_field_id
unfoldable pub get_field_id : Store → ℕ → ℤ
unfolding position
get_field_id m v = elim (m.field_var_of v) [
  | none ↦ negsuc 0
  | some u ↦ position v 0 (m.field_vars u)
]

-- Variable::is_union_field
unfoldable pub is_union_field : Store → ℕ → Bool
unfolding is_union
is_union_field m v = elim (m.field_var_of v) [ none ↦ false | some u ↦ is_union (m.type u) ]

-- The first union field of a walk: what `is_inside_union_field` looks for.
unfoldable pub first_union_field : Store → List ℕ → Option ℕ
unfolding is_union_field
first_union_field m [] = none
first_union_field m (v ∷ vs) = if is_union_field m v then some v else first_union_field m vs

unfoldable pub is_inside_union_field : Store → ℕ → Bool
unfolding first_union_field containers
is_inside_union_field m v = elim (first_union_field m (containers m v)) [
  | none ↦ false
  | some w ↦ true
]

-- The test of `is_nonreadable_field` on the union field `w` of the union `u`.
unfoldable pub is_not_last_written : Store → List Fact → ℕ → ℕ → Bool
unfolding find_related_fact get_field_id imply
is_not_last_written m facts w u =
    let tmp = union_write u (get_field_id m w) in
    elim (find_related_fact facts tmp) [ none ↦ true | some fu ↦ not (imply tmp fu) ]

unfoldable pub is_nonreadable_field : Store → List Fact → ℕ → Bool
unfolding first_union_field containers is_not_last_written
is_nonreadable_field m facts v = elim (first_union_field m (containers m v)) [
  | none ↦ false
  | some w ↦ elim (m.field_var_of w) [ none ↦ false | some u ↦ is_not_last_written m facts w u ]
]
