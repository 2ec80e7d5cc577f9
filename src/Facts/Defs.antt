-- ===== src/Facts/Defs.antt =====
-- src/Fact.h, src/FactPointTo.cpp and src/FactUnion.cpp: the two kinds of facts and their lattice
-- operations. A virtual method is one function with a clause for each kind. A pointer to a variable
-- is its number, and the three special variables are parameters of what needs them.
use hipsmith.Prelude.{ℕ, Bool, true, false, ◌&&◌, List, [], ◌∷◌, ◌==◌, if◌then◌else◌}
use hipsmith.Prelude.Int.{ℤ, negsuc, int_eq}
use hipsmith.Variables.Sets.{NoDup, add_variables_to_set, equal_variable_sets, sub_variable_sets}

-- The last written field of a union is a number, TOP or BOTTOM.
pub data Fact : Type 0 where
  point_to : (var : ℕ) (point_to_vars : List ℕ) → Fact
  union_write : (var : ℕ) (last_written_fid : ℤ) → Fact

-- FactUnion::TOP and FactUnion::BOTTOM
abbrev pub top : ℤ
top = negsuc 1

abbrev pub bottom : ℤ
bottom = negsuc 0

unfoldable pub get_var : Fact → ℕ
get_var (point_to v set) = v
get_var (union_write v fid) = v

-- Fact::is_related
unfoldable pub is_related : Fact → Fact → Bool
is_related (point_to v set) (point_to w set') = v == w
is_related (union_write v fid) (union_write w fid') = v == w
is_related _ _ = false

unfoldable pub is_top : Fact → Bool
is_top (point_to v []) = true
is_top (point_to v (x ∷ xs)) = false
is_top (union_write v fid) = int_eq fid top

unfoldable pub is_bottom : Fact → Bool
is_bottom (point_to v set) = false
is_bottom (union_write v fid) = int_eq fid bottom

unfoldable pub equal : Fact → Fact → Bool
equal (point_to v set) (point_to w set') = (v == w) && equal_variable_sets set set'
equal (union_write v fid) (union_write w fid') = if v == w then int_eq fid fid' else false
equal _ _ = false

-- FactPointTo::imply
abbrev pub imply_point_to : ℕ → List ℕ → ℕ → List ℕ → Bool
imply_point_to v set w set' = if v == w then sub_variable_sets set' set else false

unfoldable pub imply : Fact → Fact → Bool
unfolding is_bottom equal
imply (point_to v set) (point_to w set') = imply_point_to v set w set'
imply (union_write v fid) (union_write w fid') =
    if v == w
    then if int_eq fid bottom
      then true
      else if int_eq fid' bottom
      then false
      else equal (union_write v fid) (union_write w fid')
    else false
imply _ _ = false

-- The fact afterwards, and whether it has changed.
unfoldable pub join : Fact → Fact → Fact × Bool
unfolding imply
join (point_to v set) (point_to w set') =
    let r = add_variables_to_set set set' in
    if v == w then (point_to v r.0, r.1) else (point_to v set, false)
join (union_write v fid) (union_write w fid') =
    if v == w
    then if imply (union_write v fid) (union_write w fid')
      then (union_write v fid, false)
      else if imply (union_write w fid') (union_write v fid)
      then (union_write v fid', true)
      else (union_write v bottom, true)
    else (union_write v fid, false)
join f g = (f, false)

-- FactPointTo::is_tbd_only; `tbd` is FactPointTo::tbd_ptr.
unfoldable pub is_tbd_only : ℕ → List ℕ → Bool
is_tbd_only tbd (x ∷ []) = x == tbd
is_tbd_only tbd _ = false

-- Facts of two visits are joined, where FactPointTo ignores what is still to be determined.
unfoldable pub join_visits : ℕ → Fact → Fact → Fact × Bool
unfolding is_tbd_only join
join_visits tbd (point_to v set) (point_to w set') =
    let r = add_variables_to_set (if is_tbd_only tbd set then [] else set) set' in
    if v == w
    then if is_tbd_only tbd set' then (point_to v set, false) else (point_to v r.0, r.1)
    else (point_to v set, false)
join_visits tbd f g = join f g

-- The points-to set of a fact holds no variable twice.
abbrev pub IsWf : Fact → Type 0
IsWf (point_to v set) = NoDup set
IsWf (union_write v fid) = Unit
