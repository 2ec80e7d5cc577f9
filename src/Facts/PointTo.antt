-- ===== src/Facts/PointTo.antt =====
-- src/FactPointTo.cpp: the queries on points-to sets, and what the end of a block or a function
-- does to them. A points-to set of a fact is the list of its variables.
pub mod Marked
pub mod Pointees
use hipsmith.Prelude.{
  ℕ, zero, suc, ◌≡◌, Bool, true, false, not, ◌&&◌, ◌||◌, Option, none, some, List, [], ◌∷◌, ◌++◌,
  ◌==◌, ltb, leb, if◌then◌else◌, length, elem, set,
}
use hipsmith.Variables.Store.{Store, has_type, is_aggregate, loose_match}
use hipsmith.Variables.Sets.{find_variable_in_set, add_variables_to_set}
use hipsmith.Facts.Defs.{Fact, point_to, union_write}
use hipsmith.Facts.Env.{find_related_fact}

-- FactPointTo::null_ptr, garbage_ptr and tbd_ptr
pub record Specials : Type 0 where
  pub null_ptr : ℕ
  pub garbage_ptr : ℕ
  pub tbd_ptr : ℕ

-- The probabilities of CGOptions for the dereference of a bad pointer.
pub record Risks : Type 0 where
  pub null_pointer_dereference_prob : ℕ
  pub dead_pointer_dereference_prob : ℕ

unfoldable pub is_special_ptr : Specials → ℕ → Bool
is_special_ptr s p = (p == s.null_ptr) || (p == s.garbage_ptr) || (p == s.tbd_ptr)

unfoldable pub is_null : Specials → List ℕ → Bool
is_null s vars = elem s.null_ptr vars

unfoldable pub is_found : Option ℕ → Bool
is_found none = false
is_found (some i) = true

-- get_point_to_vars
unfoldable pub point_to_vars : Fact → List ℕ
point_to_vars (point_to v vars) = vars
point_to_vars (union_write v fid) = []

-- erase(begin() + i)
unfoldable pub erase_at : ℕ → List ℕ → List ℕ
erase_at i [] = []
erase_at zero (x ∷ xs) = xs
erase_at (suc i) (x ∷ xs) = x ∷ erase_at i xs

module _ (m : Store) (s : Specials) where
  unfoldable pub is_dead : List ℕ → Bool
  unfolding is_found find_variable_in_set
  is_dead vars = is_found (find_variable_in_set m vars s.garbage_ptr)

  -- FactPointTo::point_to
  unfoldable pub points_to : List ℕ → ℕ → Bool
  unfolding loose_match
  points_to [] v = false
  points_to (x ∷ xs) v = if loose_match m v x || loose_match m x v then true else points_to xs v

  -- The loop of `mark_func_end`; `has` is `has_garbage_ptr`. The set, and whether it has changed.
  unfoldable pub mark_on : (ℕ → Bool) → Bool → List ℕ → List ℕ × Bool
  mark_on on_stack has [] = ([], false)
  mark_on on_stack has (v ∷ vs) =
      let gone = mark_on on_stack has vs in
      let marked = mark_on on_stack true vs in
      if on_stack v
      then if has then (gone.0, true) else (s.garbage_ptr ∷ marked.0, true)
      else (v ∷ gone.0, gone.1)

  -- `on_stack` is `func->is_var_on_stack(v, stm)`. No fact is made where nothing has changed.
  unfoldable pub mark_func_end : (ℕ → Bool) → ℕ → List ℕ → Option Fact
  unfolding mark_on is_dead
  mark_func_end on_stack var vars =
      let r = mark_on on_stack (is_dead vars) vars in if r.1 then some (point_to var r.0) else none

  -- What `mark_dead_var` does at the position that it has found.
  unfoldable pub mark_at : List ℕ → ℕ → List ℕ
  unfolding is_dead erase_at
  mark_at vars pos = if is_dead vars then erase_at pos vars else set vars pos s.garbage_ptr

  -- `field_pos` is `find_field_variable_in_set(var_set, v)`.
  unfoldable pub mark_dead_var : (List ℕ → ℕ → Option ℕ) → ℕ → List ℕ → ℕ → Option Fact
  unfolding mark_at find_variable_in_set
  mark_dead_var field_pos var vars v = elim (find_variable_in_set m vars v) [
    | some pos ↦ some (point_to var (mark_at vars pos))
    | none ↦ elim (field_pos vars v) [
      | some pos ↦ some (point_to var (mark_at vars pos))
      | none ↦ none
    ]
  ]

  -- The fact about a pointer in an environment.
  unfoldable pub fact_of : List Fact → ℕ → Option Fact
  unfolding find_related_fact
  fact_of facts p = find_related_fact facts (point_to p (s.garbage_ptr ∷ []))

  unfoldable pub is_valid_ptr : Risks → List Fact → ℕ → Bool
  unfolding fact_of is_null is_dead point_to_vars
  is_valid_ptr r facts p = elim (fact_of facts p) [
    | none ↦ false
    | some f ↦
        (ltb 0 r.null_pointer_dereference_prob || not (is_null s (point_to_vars f)))
        && (ltb 0 r.dead_pointer_dereference_prob || not (is_dead (point_to_vars f)))
  ]

  unfoldable pub is_dangling_ptr : Risks → List Fact → ℕ → Bool
  unfolding fact_of is_dead point_to_vars
  is_dangling_ptr r facts p = elim (fact_of facts p) [
    | none ↦ false
    | some f ↦ is_dead (point_to_vars f) && (r.dead_pointer_dereference_prob == 0)
  ]

  -- `null_coin` and `dead_coin` are the two flips of `rnd_flipcoin`, `level` and `type_level` the
  -- levels of indirection of the variable's type and of the type.
  unfoldable pub opportunistic_validate : (null_coin dead_coin : Bool) → List Fact → ℕ → ℕ → ℕ → ℕ
  unfolding fact_of is_null is_dead point_to_vars
  opportunistic_validate null_coin dead_coin facts v level type_level =
      if leb level type_level then 1 else elim (fact_of facts (m.collective v)) [
        | none ↦ 0
        | some f ↦
            let ret = if is_null s (point_to_vars f) then 2 else 1 in
            if is_null s (point_to_vars f) && not null_coin
            then 0
            else if is_dead (point_to_vars f)
            then (if dead_coin then 2 else 0)
            else ret
      ]

  -- The loop of `merge_pointees_of_pointers`; `none` is the assertion on a pointer without a fact.
  unfoldable pub merge_pointees_from : List Fact → List ℕ → List ℕ → Option (List ℕ)
  unfolding is_special_ptr fact_of point_to_vars add_variables_to_set
  merge_pointees_from facts pointee_vars [] = some pointee_vars
  merge_pointees_from facts pointee_vars (p ∷ ptrs) =
      let skipped = merge_pointees_from facts pointee_vars ptrs in
      if is_special_ptr s p then skipped else elim (fact_of facts p) [
        | none ↦ none
        | some f ↦
            merge_pointees_from facts (add_variables_to_set pointee_vars (point_to_vars f)).0 ptrs
      ]

  unfoldable pub merge_pointees_of_pointers : List Fact → List ℕ → Option (List ℕ)
  unfolding merge_pointees_from
  merge_pointees_of_pointers facts ptrs = merge_pointees_from facts [] ptrs

  unfoldable pub trace_pointees : List Fact → ℕ → List ℕ → Option (List ℕ)
  unfolding merge_pointees_of_pointers
  trace_pointees facts zero tmp = some tmp
  trace_pointees facts (suc indirect) tmp = elim (merge_pointees_of_pointers facts tmp) [
    | none ↦ none
    | some tmp' ↦ trace_pointees facts indirect tmp'
  ]

  unfoldable pub merge_pointees_of_pointer : List Fact → ℕ → ℕ → Option (List ℕ)
  unfolding trace_pointees
  merge_pointees_of_pointer facts ptr indirect = trace_pointees facts indirect (ptr ∷ [])

-- FactPointTo::make_facts: special variables have no type, and get no fact.
unfoldable pub make_facts : Store → List ℕ → List ℕ → List Fact
unfolding has_type
make_facts m [] vars = []
make_facts m (v ∷ vs) vars =
    let rest = make_facts m vs vars in if has_type m v then point_to v vars ∷ rest else rest

-- What the known aliases of a pointer grow by.
unfoldable pub grow_aliases : Store → List ℕ → List ℕ → List ℕ
unfolding is_found find_variable_in_set
grow_aliases m alias [] = alias
grow_aliases m alias (v ∷ vs) =
    grow_aliases m (if is_found (find_variable_in_set m alias v) then alias else alias ++ v ∷ []) vs

unfoldable pub alter_at : ℕ → (List ℕ → List ℕ) → List (List ℕ) → List (List ℕ)
alter_at i f [] = []
alter_at zero f (x ∷ xs) = f x ∷ xs
alter_at (suc i) f (x ∷ xs) = x ∷ alter_at i f xs

pub record Aliases : Type 0 where
  pub ptrs : List ℕ
  pub aliases : List (List ℕ)

unfoldable pub update_ptr_alias : Store → Aliases → Fact → Aliases
unfolding has_type find_variable_in_set grow_aliases alter_at
update_ptr_alias m a (union_write v fid) = a
update_ptr_alias m a (point_to v vars) =
    if has_type m v
    then elim (find_variable_in_set m a.ptrs v) [
      | none ↦ record { ptrs = a.ptrs ++ v ∷ []; aliases = a.aliases ++ vars ∷ [] }
      | some pos ↦ record a {
        aliases = alter_at pos (λ alias. grow_aliases m alias vars) a.aliases;
      }
    ]
    else a

unfoldable pub update_ptr_aliases : Store → List Fact → Aliases → Aliases
unfolding update_ptr_alias
update_ptr_aliases m [] a = a
update_ptr_aliases m (f ∷ facts) a = update_ptr_aliases m facts (update_ptr_alias m a f)
