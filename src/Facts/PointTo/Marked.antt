-- ===== src/Facts/PointTo/Marked.antt =====
-- src/FactPointTo.cpp: what the end of a function leaves of a points-to set.
use hipsmith.Prelude.{
  ℕ, suc, ◌+◌, ◌≡◌, ◌↔◌, refl, Bool, true, false, not, ◌&&◌, ◌||◌, Option, none, some, List, [],
  ◌∷◌, ◌==◌, if◌then◌else◌, elem, arith, Bool-cases, inl, inr,
}
use hipsmith.Variables.Store.{Store, has_type, matches}
use hipsmith.Variables.Sets.{find_variable_in_set}
use hipsmith.Facts.Defs.{Fact}
use hipsmith.Facts.PointTo.{Specials, is_found, is_dead, mark_on, mark_func_end, point_to_vars}
use mathlib.Core.Option

unfoldable pub any_of : (ℕ → Bool) → List ℕ → Bool
any_of f [] = false
any_of f (x ∷ xs) = f x || any_of f xs

-- The points-to set that holds after `mark_func_end`.
unfoldable pub after_func_end : List ℕ → Option Fact → List ℕ
unfolding point_to_vars
after_func_end vars none = vars
after_func_end vars (some f) = point_to_vars f

unfoldable pub count : ℕ → List ℕ → ℕ
count a [] = 0
count a (x ∷ xs) = if x == a then suc (count a xs) else count a xs

count-none : (a : ℕ) (vars : List ℕ) → elem a vars ≡ false → count a vars ≡ 0
unfolding count
count-none a [] h = refl
count-none a (x ∷ xs) h = ground (arith, count-none a xs, h)

is_found-map : (f : ℕ → ℕ) (o : Option ℕ) → is_found (Option.map f o) ≡ is_found o
unfolding is_found
is_found-map f none = refl
is_found-map f (some i) = refl

module _ (m : Store) (s : Specials) (untyped : has_type m s.garbage_ptr ≡ false) where
  -- A variable without a type matches itself only.
  is_dead-elem : (vars : List ℕ) → is_dead m s vars ≡ elem s.garbage_ptr vars
  unfolding is_dead is_found find_variable_in_set matches
  is_dead-elem [] = refl
  is_dead-elem (x ∷ xs) =
      let rest = is_dead-elem xs in
      let step = is_found-map suc (find_variable_in_set m xs s.garbage_ptr) in
      ground (arith, untyped, rest, step)

  module _ (on_stack : ℕ → Bool) (kept : on_stack s.garbage_ptr ≡ false) where
    elem-mark_on :
        (a : ℕ) (has : Bool) (vars : List ℕ)
        → elem a (mark_on m s on_stack has vars).0 ≡ (
            if a == s.garbage_ptr
            then elem a vars || (not has && any_of on_stack vars)
            else elem a vars && not (on_stack a))
    unfolding mark_on any_of
    elem-mark_on a has [] = ground arith
    elem-mark_on a has (v ∷ vs) = elim (Bool-cases (v == a)) [
      | inl e ↦
          let same : v ≡ a = ground (arith, e) in
          let gone = elem-mark_on v has vs in
          let marked = elem-mark_on v true vs in
          rw (← same) (elim (Bool-cases (v == s.garbage_ptr)) [
            | inl g ↦
                let is_g : v ≡ s.garbage_ptr = ground (arith, g) in
                let off : on_stack v ≡ false = rw is_g kept in ground (arith, g, off, gone)
            | inr n ↦ ground (arith, n, gone, marked)
          ])
      | inr n ↦ ground (arith, n, kept, elem-mark_on a has vs, elem-mark_on a true vs)
    ]

    mark_on_changed :
        (has : Bool) (vars : List ℕ) → (mark_on m s on_stack has vars).1 ≡ any_of on_stack vars
    unfolding mark_on any_of
    mark_on_changed has [] = refl
    mark_on_changed has (v ∷ vs) = ground (arith, mark_on_changed has vs, mark_on_changed true vs)

    not-on_stack :
        (a : ℕ) (vars : List ℕ)
        → any_of on_stack vars ≡ false
        → elem a vars ≡ elem a vars && not (on_stack a)
    unfolding any_of
    not-on_stack a [] h = refl
    not-on_stack a (v ∷ vs) h = elim (Bool-cases (v == a)) [
      | inl e ↦ let same : v ≡ a = ground (arith, e) in rw (← same) (ground (arith, h))
      | inr n ↦ ground (arith, n, h, not-on_stack a vs (ground (arith, h)))
    ]

    -- How often a variable stands in what the loop leaves.
    count-mark_on :
        (a : ℕ) (has : Bool) (vars : List ℕ)
        → count a (mark_on m s on_stack has vars).0 ≡ (
            if a == s.garbage_ptr
            then count a vars + (if not has && any_of on_stack vars then 1 else 0)
            else if on_stack a
            then 0
            else count a vars)
    unfolding mark_on any_of count
    count-mark_on a has [] = ground arith
    count-mark_on a has (v ∷ vs) = elim (Bool-cases (v == a)) [
      | inl e ↦
          let same : v ≡ a = ground (arith, e) in
          let gone = count-mark_on v has vs in
          let marked = count-mark_on v true vs in
          rw (← same) (elim (Bool-cases (v == s.garbage_ptr)) [
            | inl g ↦
                let is_g : v ≡ s.garbage_ptr = ground (arith, g) in
                let off : on_stack v ≡ false = rw is_g kept in ground (arith, g, off, gone)
            | inr n ↦ ground (arith, n, gone, marked)
          ])
      | inr n ↦ ground (arith, n, kept, count-mark_on a has vs, count-mark_on a true vs)
    ]

    -- `mark_func_end` replaces the variables that leave the stack by one garbage pointer: afterwards
    -- a set has garbage exactly if it had garbage or a variable on the stack, and of the others
    -- exactly those that are not on the stack. It makes a new fact exactly if the set had a variable
    -- on the stack. One garbage pointer is added where the set had none but a variable on the stack,
    -- and else none; and a variable that is not on the stack stands in the set as often as before.
    -- The garbage pointer has no type, and is not on the stack.
    pub elem-mark_func_end :
        (var a : ℕ) (vars : List ℕ)
        → (elem a (after_func_end vars (mark_func_end m s on_stack var vars)) ≡ (
            if a == s.garbage_ptr
            then elem a vars || any_of on_stack vars
            else elem a vars && not (on_stack a)))
          × ((mark_func_end m s on_stack var vars ≡ none) ↔ (any_of on_stack vars ≡ false))
          × (count a (after_func_end vars (mark_func_end m s on_stack var vars)) ≡ (
              if a == s.garbage_ptr
              then count a vars + (if not (elem a vars) && any_of on_stack vars then 1 else 0)
              else if on_stack a
              then 0
              else count a vars))
    unfolding mark_func_end after_func_end point_to_vars
    elem-mark_func_end var a vars = elim (Bool-cases (any_of on_stack vars)) [
      | inl h ↦
          let r = mark_on_changed (is_dead m s vars) vars in
          let e = elem-mark_on a (is_dead m s vars) vars in
          let d = is_dead-elem vars in
          let c = count-mark_on a (is_dead m s vars) vars in
          (
            elim (Bool-cases (a == s.garbage_ptr)) [
              | inl g ↦
                  let same : a ≡ s.garbage_ptr = ground (arith, g) in
                  ground (arith, g, same, h, r, e, d)
              | inr n ↦ ground (arith, n, h, r, e)
            ],
            ground (arith, h, r),
            elim (Bool-cases (a == s.garbage_ptr)) [
              | inl g ↦
                  let same : a ≡ s.garbage_ptr = ground (arith, g) in
                  ground (arith, g, same, h, r, c, d)
              | inr n ↦ ground (arith, n, h, r, c)
            ],
          )
      | inr h ↦
          let r = mark_on_changed (is_dead m s vars) vars in
          (
            ground (arith, h, r, not-on_stack a vars h),
            ground (arith, h, r),
            ground (arith, h, r, count-none a vars, not-on_stack a vars h),
          )
    ]
