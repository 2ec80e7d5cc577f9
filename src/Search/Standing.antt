-- ===== src/Search/Standing.antt =====
-- A search whose nodes are known, and what `random_choice` meets at the next one.
use hipsmith.Prelude.{
  ℕ, suc, ◌+◌, ◌≤◌, ◌≡◌, refl, ap, ◌∙◌, Bool, false, ◌||◌, Option, some, List, [], ◌∷◌, ◌++◌,
  length, length-append, get_elem?, ltb, leb, ◌==◌, arith,
}
use mathlib.Core.List.{append_assoc}
use hipsmith.Search.Defs.{SearchState, Search, success, choose_at, random_choice}
use hipsmith.Search.Nodes.{get_elem?-append, modify_at-append}

-- A search in a run that has passed the nodes of `front` and stands before those of `back`, `depth` of
-- which are known.
abbrev pub standing : List SearchState → List SearchState → ℕ → List (ℕ × ℕ) → Search
standing front back depth seq_map = record {
  decision_depth = length front + depth;
  current_pos = length front;
  all_done = false;
  seq_map = seq_map;
  use_debug_sequence = false;
  states = front ++ back;
  error = success;
}

-- A search at the end of a run, with what is left of the nodes behind `front`.
pub record IsEnd (front back : List SearchState) (depth : ℕ) (s : Search) : Type 0 where
  pub states_at : s.states ≡ front ++ back
  pub depth_at : s.decision_depth ≡ length front + depth
  pub done_at : s.all_done ≡ (length front + depth == 0)
  pub no_debug : s.use_debug_sequence ≡ false

pub standing_intro :
    (front back : List SearchState) (depth : ℕ) (s : Search)
    → s.states ≡ front ++ back
    → s.current_pos ≡ length front
    → s.decision_depth ≡ length front + depth
    → s.all_done ≡ false
    → s.use_debug_sequence ≡ false
    → s.error ≡ success
    → s ≡ standing front back depth s.seq_map
standing_intro front back depth s states pos deep done debug error = λ i. record {
  decision_depth = deep i;
  current_pos = pos i;
  all_done = done i;
  seq_map = s.seq_map;
  use_debug_sequence = debug i;
  states = states i;
  error = error i;
}

-- One node further.
pub standing-next :
    (front back : List SearchState) (x : SearchState) (depth : ℕ) (seq_map : List (ℕ × ℕ))
    → Path Search
        (record (standing front (x ∷ back) (suc depth) seq_map) {
          current_pos = suc (length front);
        })
        (standing (front ++ x ∷ []) back depth seq_map)
standing-next front back x depth seq_map =
    let more : length (front ++ x ∷ []) ≡ suc (length front) =
      omega (arith, length-append front (x ∷ [])) in
    let further : length front + suc depth ≡ suc (length front) + depth = omega arith in
    rw (more, further, append_assoc front (x ∷ []) back) refl

module _ (max_depth bound : ℕ) (filter : Option (ℕ → Bool)) (invalid_nums : Option (List ℕ)) where
  abbrev pub bound_set : SearchState → SearchState
  bound_set x = record x { bound = bound }

  -- The search that stands at the node `x`.
  abbrev pub entered : List SearchState → SearchState → List SearchState → ℕ → List (ℕ × ℕ) → Search
  entered front x back depth seq_map = record (standing front (bound_set x ∷ back) depth seq_map) {
    current_pos = suc (length front);
  }

  pub at_node :
      (front back : List SearchState) (x : SearchState) (depth : ℕ) (seq_map : List (ℕ × ℕ))
      → max_depth ≡ length front + length (x ∷ back)
      → depth ≤ length (x ∷ back)
      → random_choice max_depth bound filter invalid_nums (standing front (x ∷ back) depth seq_map)
        ≡ choose_at
            (length front)
            bound
            filter
            invalid_nums
            (entered front x back depth seq_map)
            (some (bound_set x))
  unfolding random_choice
  at_node front back x depth seq_map m le =
      let inside : leb max_depth (length front) || ltb max_depth (length front + depth) ≡ false =
        ground (arith, m, le) in
      let set_here = modify_at-append bound_set front back x in
      let read_here = get_elem?-append front back (bound_set x) in
      let at = λ (ss : List SearchState).
        choose_at (length front) bound filter invalid_nums
          (record (entered front x back depth seq_map) { states = ss }) in
      rw inside (
        ap (λ ss. at ss (get_elem? ss (length front))) set_here
        ∙ ap (at (front ++ bound_set x ∷ back)) read_here)
