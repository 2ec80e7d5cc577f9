-- ===== src/Search/Nodes.antt =====
-- Lists of nodes that are split at a position, and the loops over the numbers at a node.
use hipsmith.Prelude.{
  ℕ, zero, suc, ◌+◌, ◌-◌, ◌<◌, ◌≡◌, refl, ap, sym, ◌∙◌, Bool, true, not, ◌&&◌, Option, none, some,
  List, [], ◌∷◌, ◌++◌, map, length, get_elem?, arith, Bool-cases, ◌⊎◌, inl, inr,
}
use hipsmith.Search.Defs.{
  SearchState, Search, modify_from, modify_at, close, next_value, first_value,
}
use hipsmith.Search.Runs.{branches}

pub get_elem?-append :
    (front back : List SearchState) (x : SearchState)
    → get_elem? (front ++ x ∷ back) (length front) ≡ some x
get_elem?-append [] back x = refl
get_elem?-append (y ∷ front) back x = get_elem?-append front back x

pub modify_at-append :
    (f : SearchState → SearchState) (front back : List SearchState) (x : SearchState)
    → modify_at (length front) f (front ++ x ∷ back) ≡ front ++ f x ∷ back
unfolding modify_at
modify_at-append f [] back x = refl
modify_at-append f (y ∷ front) back x = ap (λ xs. y ∷ xs) (modify_at-append f front back x)

pub modify_from-append :
    (f : SearchState → SearchState) (front back : List SearchState)
    → modify_from (length front) f (front ++ back) ≡ front ++ modify_from 0 f back
unfolding modify_from
modify_from-append f [] back = refl
modify_from-append f (y ∷ front) back = ap (λ xs. y ∷ xs) (modify_from-append f front back)

pub length-modify_from :
    (f : SearchState → SearchState) (back : List SearchState)
    → length (modify_from 0 f back) ≡ length back
unfolding modify_from
length-modify_from f [] = refl
length-modify_from f (x ∷ back) = ap suc (length-modify_from f back)

unfoldable pub all_closed : List SearchState → Bool
all_closed [] = true
all_closed (x ∷ xs) = not x.init && all_closed xs

pub all_closed-close : (back : List SearchState) → all_closed (modify_from 0 close back) ≡ true
unfolding all_closed modify_from close
all_closed-close [] = refl
all_closed-close (x ∷ back) = all_closed-close back

-- The next number is not filtered, or it is the bound; the numbers before it are passed over.
pub branches-next_value {ℓ} :
    {A : Type ℓ} (sub : ℕ → List (Option A)) (filtered : ℕ → Bool) (bound steps v : ℕ)
    → v + steps ≡ bound
    → ((next_value filtered steps v < bound)
        × (branches sub filtered steps v
            ≡ sub (next_value filtered steps v)
              ++ branches sub filtered
                  (bound - suc (next_value filtered steps v))
                  (suc (next_value filtered steps v))))
      ⊎ ((bound ≡ next_value filtered steps v) × (branches sub filtered steps v ≡ none ∷ []))
unfolding branches next_value
branches-next_value sub filtered bound zero v h = inr (omega (arith, h), refl)
branches-next_value sub filtered bound (suc steps) v h = elim (Bool-cases (filtered v)) [
  | inl y ↦ rw y (branches-next_value sub filtered bound steps (suc v) (omega (arith, h)))
  | inr n ↦
      let exact : bound - suc v ≡ steps = omega (arith, h) in
      rw (n, exact) (inl (omega (arith, h), refl))
]

pub first_value-next_value :
    (filtered : ℕ → Bool) (pos steps v : ℕ) (s : Search)
    → (first_value filtered pos steps v s).0 ≡ next_value filtered steps v
unfolding first_value next_value
first_value-next_value filtered pos zero v s = refl
first_value-next_value filtered pos (suc steps) v s = elim (Bool-cases (filtered v)) [
  | inl y ↦ rw y (first_value-next_value filtered pos steps (suc v) _)
  | inr n ↦ rw n refl
]

-- What the loop of a new node leaves: the nodes from there on, open or closed as they were.
pub record IsTouched (front back : List SearchState) (s t : Search) : Type 0 where
  pub back' : List SearchState
  pub states_at : t.states ≡ front ++ back'
  pub length_back : length back' ≡ length back
  pub inits : map (λ x. x.init) back' ≡ map (λ x. x.init) back
  pub pos_at : t.current_pos ≡ s.current_pos
  pub same_done : t.all_done ≡ s.all_done
  pub same_debug : t.use_debug_sequence ≡ s.use_debug_sequence
  pub same_error : t.error ≡ s.error

inits-modify_from :
    (back : List SearchState)
    → map (λ x. x.init) (modify_from 0 (λ x. record x { value = 0 }) back) ≡ map (λ x. x.init) back
unfolding modify_from
inits-modify_from [] = refl
inits-modify_from (x ∷ back) = ap (λ xs. x.init ∷ xs) (inits-modify_from back)

pub first_value-IsTouched :
    (filtered : ℕ → Bool) (front back : List SearchState) (steps v : ℕ) (s : Search)
    → s.states ≡ front ++ back
    → s.decision_depth ≡ suc (length front)
    → s.current_pos ≡ suc (length front)
    → IsTouched front back s (first_value filtered (length front) steps v s).1
unfolding first_value
first_value-IsTouched filtered front back zero v s h d p = record {
  back' = back;
  states_at = h;
  length_back = refl;
  inits = refl;
  pos_at = refl;
  same_done = refl;
  same_debug = refl;
  same_error = refl;
}
first_value-IsTouched filtered front back (suc steps) v s h d p = elim (Bool-cases (filtered v)) [
  | inr n ↦ rw n (record {
    back' = back;
    states_at = h;
    length_back = refl;
    inits = refl;
    pos_at = refl;
    same_done = refl;
    same_debug = refl;
    same_error = refl;
  })
  | inl y ↦
      let back1 = modify_from 0 (λ x. record x { value = 0 }) back in
      let next = record s {
        states = modify_from (s.decision_depth - 1) (λ x. record x { value = 0 }) s.states;
        decision_depth = suc (length front);
        current_pos = suc (length front);
      } in
      let pred : suc (length front) - 1 ≡ length front = omega arith in
      let rest =
        first_value-IsTouched filtered front back1 steps (suc v) next
          (rw (h, d, pred) (modify_from-append (λ x. record x { value = 0 }) front back)) refl
          refl in
      rw y (record {
        back' = rest.back';
        states_at = rest.states_at;
        length_back = rest.length_back ∙ length-modify_from (λ x. record x { value = 0 }) back;
        inits = rest.inits ∙ inits-modify_from back;
        pos_at = rest.pos_at ∙ sym p;
        same_done = rest.same_done;
        same_debug = rest.same_debug;
        same_error = rest.same_error;
      })
]
