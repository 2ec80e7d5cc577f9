-- ===== src/Facts/Unions/Joined.antt =====
-- src/FactUnion.cpp, `join_var_facts`: one fact that stands for the facts of several unions.
use hipsmith.Prelude.{
  ℕ, ◌≡◌, refl, ap, sym, ◌∙◌, Bool, true, not, ◌&&◌, ◌||◌, Option, none, some, List, [], ◌∷◌, ◌==◌,
  elem, arith, Bool-cases, Option-cases, inl, inr,
}
use hipsmith.Prelude.Int.{ℤ, int_eq, int_eq_refl, int_eq→eq}
use hipsmith.Facts.Defs.{Fact, union_write, get_var, imply, join, top, bottom}
use hipsmith.Facts.Env.{find_related_fact}
use hipsmith.Facts.Unions.{set_var, join_var_facts_from, join_var_facts}
use hipsmith.Facts.Unions.Readable.{find_related_fact_union}

-- `imply` of two facts about one union.
abbrev below : ℤ → ℤ → Bool
below x y = int_eq x bottom || (not (int_eq y bottom) && int_eq x y)

imply-below : (u : ℕ) (x y : ℤ) → imply (union_write u x) (union_write u y) ≡ below x y
unfolding imply
imply-below u x y = ground arith

below_trans : (x y z : ℤ) → below x y ≡ true → below y z ≡ true → below x z ≡ true
below_trans x y z h k = elim (Bool-cases (int_eq x bottom)) [
  | inl e ↦ ground (arith, e)
  | inr n ↦ let same : x ≡ y = int_eq→eq x y (ground (arith, n, h)) in rw same k
]

below_refl : (x : ℤ) → below x x ≡ true
below_refl x = ground (arith, int_eq_refl x)

-- A join is about the same union, and stands below both of its parts.
join-below :
    (u : ℕ) (x y : ℤ)
    → (z : ℤ) × ((join (union_write u x) (union_write u y)).0 ≡ union_write u z)
      × (below z x ≡ true)
      × (below z y ≡ true)
unfolding join
join-below u x y = elim (Bool-cases (below x y)) [
  | inl e ↦ (x, ground (arith, imply-below u x y, e), below_refl x, e)
  | inr n ↦ elim (Bool-cases (below y x)) [
    | inl e ↦ (y, ground (arith, imply-below u x y, imply-below u y x, n, e), e, below_refl y)
    | inr k ↦ (bottom, ground (arith, imply-below u x y, imply-below u y x, n, k), refl, refl)
  ]
]

fid_of : Option Fact → ℤ
fid_of (some (union_write v fid)) = fid
fid_of _ = top

same_fid :
    (facts : List Fact) (v : ℕ) {a b : ℤ}
    → find_related_fact facts (union_write v top) ≡ some (union_write v a)
    → find_related_fact facts (union_write v top) ≡ some (union_write v b)
    → a ≡ b
unfolding fid_of
same_fid facts v h k = ap fid_of (sym h ∙ k)

module _ (facts : List Fact) where
  -- A fact for the union `w` that implies what the facts say of the unions `vars`.
  record Joined (vars : List ℕ) (fu : Option Fact) : Type 0 where
    var : ℕ
    fid : ℤ
    result : join_var_facts_from facts vars fu ≡ some (union_write var fid)
    lower :
        (v : ℕ) (y : ℤ)
        → elem v vars ≡ true
        → find_related_fact facts (union_write v top) ≡ some (union_write v y)
        → below fid y ≡ true

  from-Joined :
      (vars : List ℕ) (w : ℕ) (x : ℤ)
      → (j : Joined vars (some (union_write w x))) × (below j.fid x ≡ true)
  unfolding join_var_facts_from set_var get_var
  from-Joined [] w x = (
    record { var = w; fid = x; result = refl; lower = λ v y i e. absurd (ground (arith, i)) },
    below_refl x,
  )
  from-Joined (v ∷ vars) w x = elim (Option-cases (find_related_fact facts (union_write v top))) [
    | inl n ↦
        let (j, b) = from-Joined vars w x in
        (
          record {
            var = j.var;
            fid = j.fid;
            result = ground (arith, n, j.result);
            lower = λ u y i e. elim (Bool-cases (v == u)) [
              | inl s ↦
                  let same : v ≡ u = ground (arith, s) in
                  absurd (ground (arith, n, rw (← same) at e))
              | inr d ↦ j.lower u y (ground (arith, i, d)) e
            ];
          },
          b,
        )
    | inr (f, h) ↦
        let (c, is_c) = find_related_fact_union facts v top f h in
        let h' : find_related_fact facts (union_write v top) ≡ some (union_write v c) =
          h ∙ ap some is_c in
        let (z, is_z, bx, bc) = join-below v x c in
        let (j, b) = from-Joined vars v z in
        (
          record {
            var = j.var;
            fid = j.fid;
            result = ground (arith, h', is_z, j.result);
            lower = λ u y i e. elim (Bool-cases (v == u)) [
              | inl s ↦
                  let same : v ≡ u = ground (arith, s) in
                  let same_y : c ≡ y = same_fid facts u (rw (← same) h') e in
                  below_trans j.fid z y b (rw (← same_y) bc)
              | inr d ↦ j.lower u y (ground (arith, i, d)) e
            ];
          },
          below_trans j.fid z x b bx,
        )
  ]

  joined_none :
      (vars : List ℕ) (u : ℕ) (y : ℤ)
      → elem u vars ≡ true
      → find_related_fact facts (union_write u top) ≡ some (union_write u y)
      → (w : ℕ) × (z : ℤ) × (join_var_facts_from facts vars none ≡ some (union_write w z))
        × (below z y ≡ true)
  unfolding join_var_facts_from
  joined_none [] u y i e = absurd (ground (arith, i))
  joined_none (v ∷ vars) u y i e =
      elim (Option-cases (find_related_fact facts (union_write v top))) [
        | inl n ↦ elim (Bool-cases (v == u)) [
          | inl s ↦
              let same : v ≡ u = ground (arith, s) in absurd (ground (arith, n, rw (← same) at e))
          | inr d ↦
              let (w, z, r, b) = joined_none vars u y (ground (arith, i, d)) e in
              (w, z, ground (arith, n, r), b)
        ]
        | inr (f, h) ↦
            let (c, is_c) = find_related_fact_union facts v top f h in
            let h' : find_related_fact facts (union_write v top) ≡ some (union_write v c) =
              h ∙ ap some is_c in
            let (j, b) = from-Joined vars v c in
            (
              j.var,
              j.fid,
              ground (arith, h', j.result),
              elim (Bool-cases (v == u)) [
                | inl s ↦
                    let same : v ≡ u = ground (arith, s) in
                    let same_y : c ≡ y = same_fid facts u (rw (← same) h') e in rw (← same_y) b
                | inr d ↦ j.lower u y (ground (arith, i, d)) e
              ],
            )
      ]

-- Where there is a fact for one of several unions, `join_var_facts` gives a fact that, moved to that
-- union, implies it.
pub imply-join_var_facts :
    (facts : List Fact) (vars : List ℕ) (u : ℕ) {e : Fact}
    → elem u vars ≡ true
    → find_related_fact facts (union_write u top) ≡ some e
    → (r : Fact) × (join_var_facts facts vars ≡ some r) × (imply (set_var r u) e ≡ true)
unfolding join_var_facts set_var
imply-join_var_facts facts vars u {e = e} i h =
    let (y, is_y) = find_related_fact_union facts u top e h in
    let (w, z, r, b) = joined_none facts vars u y i (h ∙ ap some is_y) in
    (union_write w z, r, rw is_y (imply-below u z y ∙ b))
