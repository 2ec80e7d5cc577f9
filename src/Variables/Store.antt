-- ===== src/Variables/Store.antt =====
-- src/Variable.h and src/Variable.cpp: the variables of one run. A pointer to a variable is its
-- number, in the order of creation; a variable is created before its fields.
use hipsmith.Prelude.{
  ℕ, zero, suc, ◌<◌, ◌≡◌, Bool, true, false, ◌&&◌, ◌||◌, Option, none, some, List, [], ◌∷◌, ◌==◌,
  if◌then◌else◌, elem,
}

-- eTypeDesc, of src/Type.h
pub data TypeDesc : Type 0 where
  simple pointer union struct : TypeDesc

-- The types and the links of all variables. A type is `none` for the special variables null, garbage
-- and tbd, and for a function's return variable of type void.
pub record Store : Type 0 where
  pub type : ℕ → Option TypeDesc
  pub field_var_of : ℕ → Option ℕ
  pub field_vars : ℕ → List ℕ
  pub collective : ℕ → ℕ
  pub is_array : ℕ → Bool
  pub is_global : ℕ → Bool
  pub is_const : ℕ → Bool
  pub is_volatile : ℕ → Bool
  pub is_access_once : ℕ → Bool

unfoldable pub is_struct : Option TypeDesc → Bool
is_struct (some struct) = true
is_struct _ = false

unfoldable pub is_union : Option TypeDesc → Bool
is_union (some union) = true
is_union _ = false

-- Type::is_aggregate, and `Variable::is_aggregate`, which is false where there is no type
unfoldable pub is_aggregate : Option TypeDesc → Bool
is_aggregate (some struct) = true
is_aggregate (some union) = true
is_aggregate _ = false

-- The walk `for (; v; v = v->field_var_of)`: the variable and its containers, from the inside out.
-- It takes `steps` steps at most.
unfoldable pub containers_from : (ℕ → Option ℕ) → ℕ → ℕ → List ℕ
containers_from field_var_of zero v = v ∷ []
containers_from field_var_of (suc steps) v = elim (field_var_of v) [
  | none ↦ v ∷ []
  | some u ↦ v ∷ containers_from field_var_of steps u
]

-- A variable has at most as many containers as there are variables before it.
unfoldable pub containers : Store → ℕ → List ℕ
unfolding containers_from
containers m v = containers_from m.field_var_of v v

-- Every container was created before its fields, and is a struct or a union.
pub record IsStore (m : Store) : Type 0 where
  pub earlier : (v u : ℕ) → m.field_var_of v ≡ some u → u < v
  pub aggregate : (v u : ℕ) → m.field_var_of v ≡ some u → is_aggregate (m.type u) ≡ true
  pub typed : (v u : ℕ) → m.field_var_of v ≡ some u → (t : TypeDesc) × (m.type v ≡ some t)

-- Variable::is_field_var
unfoldable pub is_field_var : Store → ℕ → Bool
is_field_var m v = elim (m.field_var_of v) [ none ↦ false | some u ↦ true ]

-- Variable::has_field_var: `this` is `w`
unfoldable pub has_field_var : Store → ℕ → ℕ → Bool
unfolding containers
has_field_var m w v = if is_aggregate (m.type w) then elem w (containers m v) else false

unfoldable pub has_type : Store → ℕ → Bool
has_type m v = elim (m.type v) [ none ↦ false | some t ↦ true ]

-- Variable::match
unfoldable pub matches : Store → ℕ → ℕ → Bool
unfolding has_field_var has_type
matches m w v =
    if has_type m w && has_type m v && is_aggregate (m.type w)
    then (w == v) || has_field_var m w v
    else w == v

-- The first union of a walk.
unfoldable pub first_union : Store → List ℕ → Option ℕ
first_union m [] = none
first_union m (v ∷ vs) = if is_union (m.type v) then some v else first_union m vs

-- Variable::get_container_union
unfoldable pub get_container_union : Store → ℕ → Option ℕ
unfolding containers first_union
get_container_union m v = elim (m.type v) [ none ↦ none | some t ↦ first_union m (containers m v) ]

unfoldable pub same_some : Option ℕ → Option ℕ → Bool
same_some (some a) (some b) = a == b
same_some _ _ = false

-- Variable::loose_match
unfoldable pub loose_match : Store → ℕ → ℕ → Bool
unfolding matches get_container_union same_some
loose_match m w v =
    let me = m.collective w in
    let you = m.collective v in
    if matches m me you
    then true
    else same_some (get_container_union m you) (get_container_union m me)

-- Variable::is_array_field
unfoldable pub any_array : Store → List ℕ → Bool
any_array m [] = false
any_array m (v ∷ []) = m.is_array v
any_array m (v ∷ w ∷ ws) = any_array m (w ∷ ws)

unfoldable pub is_array_field : Store → ℕ → Bool
unfolding containers any_array
is_array_field m v = any_array m (containers m v)

-- Variable::get_top_container
unfoldable pub last_of : ℕ → List ℕ → ℕ
last_of d [] = d
last_of d (v ∷ vs) = last_of v vs

unfoldable pub get_top_container : Store → ℕ → ℕ
unfolding containers last_of
get_top_container m v = last_of v (containers m v)
