-- ===== src/Effects/Defs.antt =====
-- src/Effect.cpp. `this == &e` is only a shortcut where the result is the same, and is left out. A
-- method that changes the object returns the new one.
use hipsmith.Prelude.{
  ℕ, zero, suc, Bool, true, false, not, ◌&&◌, ◌||◌, Option, none, some, List, [], ◌∷◌, ◌++◌,
  if◌then◌else◌, elem,
}
use hipsmith.Variables.Store.{Store, containers, matches, is_struct, get_container_union, same_some}
use hipsmith.Variables.Sets.{add_variables_to_set}

pub record Effect : Type 0 where
  pub read_vars : List ℕ
  pub write_vars : List ℕ
  pub lhs_write_vars : List ℕ
  pub pure : Bool
  pub side_effect_free : Bool

unfoldable pub empty_effect : Effect
empty_effect = record {
  read_vars = [];
  write_vars = [];
  lhs_write_vars = [];
  pure = true;
  side_effect_free = true;
}

-- Effect(const Effect &e)
unfoldable pub copy_effect : Effect → Effect
copy_effect e = record e { lhs_write_vars = [] }

-- *this = e
unfoldable pub assign_effect : Effect → Effect → Effect
assign_effect this e = record e { lhs_write_vars = this.lhs_write_vars }

unfoldable pub clear : Effect → Effect
clear e = record e { read_vars = []; write_vars = []; pure = true; side_effect_free = true }

unfoldable pub is_empty : Effect → Bool
is_empty (e) = elim e.read_vars [
  | [] ↦ elim e.write_vars [ [] ↦ true | w ∷ ws ↦ false ]
  | r ∷ rs ↦ false
]

module _ (m : Store) where
  -- `is_read` along the walk through the containers: it goes on only to a struct.
  unfoldable pub read_on : List ℕ → List ℕ → Bool
  unfolding is_struct
  read_on read_vars [] = false
  read_on read_vars (v ∷ []) = elem v read_vars
  read_on read_vars (v ∷ u ∷ us) =
      if elem v read_vars
      then true
      else if is_struct (m.type u)
      then read_on read_vars (u ∷ us)
      else false

  unfoldable pub is_read : Effect → ℕ → Bool
  unfolding read_on containers
  is_read e v = read_on e.read_vars (containers m v)

  -- `is_written` along the walk through the containers.
  unfoldable pub written_on : List ℕ → List ℕ → Bool
  written_on write_vars [] = false
  written_on write_vars (v ∷ vs) = elem v write_vars || written_on write_vars vs

  unfoldable pub is_written : Effect → ℕ → Bool
  unfolding written_on containers
  is_written e v = written_on e.write_vars (containers m v)

  unfoldable pub read_var : Effect → ℕ → Effect
  unfolding is_read
  read_var e v = record e {
    read_vars = if not (is_read e v) then e.read_vars ++ v ∷ [] else e.read_vars;
    pure = e.pure && (m.is_const v && not (m.is_volatile v) && not (m.is_access_once v));
    side_effect_free = e.side_effect_free && (not (m.is_volatile v) && not (m.is_access_once v));
  }

  unfoldable pub write_var : Effect → ℕ → Effect
  unfolding is_written
  write_var e v = record e {
    write_vars = if not (is_written e v) then e.write_vars ++ v ∷ [] else e.write_vars;
    side_effect_free = e.side_effect_free && (not (m.is_volatile v) && not (m.is_access_once v));
  }

  unfoldable pub write_var_set : Effect → List ℕ → Effect
  unfolding write_var
  write_var_set e [] = e
  write_var_set e (v ∷ vs) = write_var_set (write_var e v) vs

  -- The loops of `add_effect`, which leave the two flags alone.
  unfoldable pub add_reads : Effect → List ℕ → Effect
  unfolding is_read
  add_reads e [] = e
  add_reads e (v ∷ vs) =
      add_reads (if not (is_read e v) then record e { read_vars = e.read_vars ++ v ∷ [] } else e) vs

  unfoldable pub add_writes : Effect → List ℕ → Effect
  unfolding is_written
  add_writes e [] = e
  add_writes e (v ∷ vs) =
      add_writes
        (if not (is_written e v) then record e { write_vars = e.write_vars ++ v ∷ [] } else e) vs

  unfoldable pub add_effect : Effect → Effect → Bool → Effect
  unfolding add_reads add_writes
  add_effect this e include_lhs_effects =
      let sum = add_writes (add_reads this e.read_vars) e.write_vars in
      record sum {
        lhs_write_vars =
            if include_lhs_effects
            then (add_variables_to_set sum.lhs_write_vars e.lhs_write_vars).0
            else sum.lhs_write_vars;
        pure = sum.pure && e.pure;
        side_effect_free = sum.side_effect_free && e.side_effect_free;
      }

  -- add_external_effect(e, call_chain): `on_stack` says of a variable whether a block of the call
  -- chain has it on its stack. Without a call chain, only global variables count.
  module _ (on_stack : ℕ → Bool) where
    unfoldable pub external_reads : Effect → List ℕ → Effect
    unfolding read_var
    external_reads e [] = e
    external_reads e (v ∷ vs) =
        external_reads
          (if m.is_global v then read_var e v else if on_stack v then read_var e v else e) vs

    unfoldable pub external_writes : Effect → List ℕ → Effect
    unfolding write_var
    external_writes e [] = e
    external_writes e (v ∷ vs) =
        external_writes
          (if m.is_global v
            then record (write_var e v) { pure = false }
            else if on_stack v
            then record (write_var e v) { pure = false }
            else e)
          vs

    unfoldable pub add_external_effect : Effect → Effect → Effect
    unfolding external_reads external_writes
    add_external_effect this e =
        let sum = external_writes (external_reads this e.read_vars) e.write_vars in
        record sum { side_effect_free = sum.side_effect_free && e.side_effect_free }

  -- non_empty_intersection
  unfoldable pub meets : ℕ → List ℕ → Bool
  unfolding matches
  meets v [] = false
  meets v (w ∷ ws) = (matches m v w || matches m w v) || meets v ws

  unfoldable pub non_empty_intersection : List ℕ → List ℕ → Bool
  unfolding meets
  non_empty_intersection [] vb = false
  non_empty_intersection (v ∷ va) vb = meets v vb || non_empty_intersection va vb

  unfoldable pub has_race_with : Effect → Effect → Bool
  unfolding non_empty_intersection
  has_race_with this e =
      non_empty_intersection this.read_vars e.write_vars
      || non_empty_intersection this.write_vars e.read_vars
      || non_empty_intersection this.write_vars e.write_vars

  unfoldable pub any_global : List ℕ → Bool
  any_global [] = false
  any_global (v ∷ vs) = m.is_global v || any_global vs

  unfoldable pub has_global_effect : Effect → Bool
  unfolding any_global
  has_global_effect e = any_global e.read_vars || any_global e.write_vars

  unfoldable pub update_purity : Effect → Effect
  unfolding has_global_effect
  update_purity e = if has_global_effect e then record e { pure = false } else e

  -- The loops of `sibling_union_field_is_read` and of its twin for writes, at a union `you`.
  unfoldable pub same_union : Option ℕ → List ℕ → Bool
  unfolding get_container_union same_some
  same_union you [] = false
  same_union you (v ∷ vs) =
      same_some you (get_container_union m (m.collective v)) || same_union you vs

  unfoldable pub sibling_union_field_is_read : Effect → ℕ → Bool
  unfolding same_union
  sibling_union_field_is_read e v = same_union (get_container_union m (m.collective v)) e.read_vars

  unfoldable pub sibling_union_field_is_written : Effect → ℕ → Bool
  unfolding same_union
  sibling_union_field_is_written e v =
      same_union (get_container_union m (m.collective v)) e.write_vars

  -- The loop of `consolidate` over one vector: `kept` is what stands before the index. An element
  -- goes where a container of it is already covered by the vector as it is then.
  unfoldable pub consolidate_on : (List ℕ → List ℕ → Bool) → List ℕ → List ℕ → List ℕ
  unfolding containers
  consolidate_on covered kept [] = kept
  consolidate_on covered kept (v ∷ vs) = elim (m.field_var_of v) [
    | none ↦ consolidate_on covered (kept ++ v ∷ []) vs
    | some u ↦
        consolidate_on covered
          (if covered (kept ++ v ∷ vs) (containers m u) then kept else kept ++ v ∷ []) vs
  ]

  unfoldable pub consolidate : Effect → Effect
  unfolding consolidate_on read_on written_on
  consolidate e = record e {
    read_vars = consolidate_on read_on [] e.read_vars;
    write_vars = consolidate_on written_on [] e.write_vars;
  }

  -- The loop of `access_deref_volatile`; `volatile_after` says whether the variable is volatile after
  -- that many dereferences.
  unfoldable pub volatile_within : (ℕ → ℕ → Bool) → ℕ → ℕ → Bool
  volatile_within volatile_after v zero = false
  volatile_within volatile_after v (suc level) =
      if volatile_after v (suc level) then true else volatile_within volatile_after v level

  unfoldable pub access_deref_volatile : (ℕ → ℕ → Bool) → Bool → Effect → ℕ → ℕ → Effect
  unfolding volatile_within
  access_deref_volatile volatile_after strict_volatile_rule e v deref_level =
      if not strict_volatile_rule
      then e
      else if volatile_within volatile_after v deref_level
      then record e { side_effect_free = false }
      else e
