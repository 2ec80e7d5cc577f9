-- ===== src/Search/Defs.antt =====
-- src/DFSRndNumGenerator.cpp. `decision_depth` and `current_pos` are one more than in the source, where
-- they start at -1: `current_pos` numbers have been drawn in this run, and the number drawn next has
-- `current_pos` as its position. A failing assertion, and an access out of range, is `none`; the
-- answer -1 is `none` inside. Filters are functions of the number, without an effect of their own:
-- neither what the filter of src/Statement.cpp changes in the partial expander is modelled, nor that
-- the source puts its positions back after filters that draw numbers.
use hipsmith.Prelude.{
  ℕ, zero, suc, ◌+◌, ◌-◌, Bool, true, false, not, ◌&&◌, ◌||◌, Option, none, some, List, [], ◌∷◌,
  ltb, leb, ◌==◌, if◌then◌else◌, elem, get_elem?,
}
use hipsmith.Search.Sequence.{add_number, get_number_by_pos, sequence_length}

-- The codes of src/Error.h that a search meets.
pub data ErrorCode : Type 0 where
  success : ErrorCode
  exceed_max_depth_error : ErrorCode
  filter_error : ErrorCode
  backtracking_error : ErrorCode

pub record SearchState : Type 0 where
  pub init : Bool
  pub value : ℕ
  pub bound : ℕ

pub record Search : Type 0 where
  pub decision_depth : ℕ
  pub current_pos : ℕ
  pub all_done : Bool
  pub seq_map : List (ℕ × ℕ)
  pub use_debug_sequence : Bool
  pub states : List SearchState
  pub error : ErrorCode

-- The loops `for (i = from; i < max_exhaustive_depth; ++i)` over `states_`.
unfoldable pub modify_from : ℕ → (SearchState → SearchState) → List SearchState → List SearchState
modify_from i f [] = []
modify_from zero f (x ∷ xs) = f x ∷ modify_from zero f xs
modify_from (suc i) f (x ∷ xs) = x ∷ modify_from i f xs

unfoldable pub modify_at : ℕ → (SearchState → SearchState) → List SearchState → List SearchState
modify_at i f [] = []
modify_at zero f (x ∷ xs) = f x ∷ xs
modify_at (suc i) f (x ∷ xs) = x ∷ modify_at i f xs

unfoldable pub close : SearchState → SearchState
close x = record x { init = false }

unfoldable pub init_states : ℕ → List SearchState
init_states zero = []
init_states (suc n) = record { init = false; value = 0; bound = 0 } ∷ init_states n

-- The generator that the constructor makes for a program, and before every run.
unfoldable pub make_search : ℕ → Search
unfolding init_states
make_search max_depth = record {
  decision_depth = 0;
  current_pos = 0;
  all_done = false;
  seq_map = [];
  use_debug_sequence = false;
  states = init_states max_depth;
  error = success;
}

unfoldable pub reset_state : Search → Search
reset_state s = record s { current_pos = 0; seq_map = [] }

unfoldable pub filter_invalid_nums : Option (List ℕ) → ℕ → Bool
filter_invalid_nums none v = false
filter_invalid_nums (some invalid_nums) v = elem v invalid_nums

-- What the loops over the numbers pass over.
unfoldable pub is_filtered : Option (ℕ → Bool) → Option (List ℕ) → ℕ → Bool
unfolding filter_invalid_nums
is_filtered filter invalid_nums v =
    let by_filter : Bool = elim filter [ none ↦ false | some f ↦ f v ] in
    by_filter || filter_invalid_nums invalid_nums v

-- The loop of a known node: the first number from `v` on that is not filtered, or the bound. It takes
-- as many steps as there are numbers below the bound.
unfoldable pub next_value : (ℕ → Bool) → ℕ → ℕ → ℕ
next_value filtered zero v = v
next_value filtered (suc steps) v =
    let rest = next_value filtered steps (suc v) in if filtered v then rest else v

-- The loop of a new node at `pos`, which also touches the search.
unfoldable pub first_value : (ℕ → Bool) → ℕ → ℕ → ℕ → Search → ℕ × Search
unfolding modify_from
first_value filtered pos zero v s = (v, s)
first_value filtered pos (suc steps) v s =
    let next = record s {
      states = modify_from (s.decision_depth - 1) (λ x. record x { value = 0 }) s.states;
      decision_depth = suc pos;
      current_pos = suc pos;
    } in
    let rest = first_value filtered pos steps (suc v) next in if filtered v then rest else (v, s)

-- All numbers at `pos` have been tried.
unfoldable pub exhausted : ℕ → Search → Search
unfolding modify_from close
exhausted pos s = record s {
  current_pos = suc pos;
  states = modify_from pos close s.states;
  decision_depth = s.decision_depth - 1;
  all_done = if s.decision_depth - 1 == 0 then true else s.all_done;
  error = backtracking_error;
}

unfoldable pub drawn : ℕ → ℕ → Search → Option (Option ℕ × Search)
unfolding add_number
drawn pos v s = some (some v, record s { seq_map = add_number s.seq_map v pos })

unfoldable pub revisit_node :
    ℕ → SearchState → ℕ → Option (ℕ → Bool) → Search → Option (Option ℕ × Search)
unfolding drawn
revisit_node pos state bound filter s = elim filter [
  | none ↦ drawn pos state.value s
  | some f ↦ if leb bound state.value then none else drawn pos state.value s
]

-- A node that is known, at the decision depth: the branch after the last one.
unfoldable pub switch_branch :
    ℕ → SearchState → ℕ → (ℕ → Bool) → Search → Option (Option ℕ × Search)
unfolding next_value exhausted drawn modify_at
switch_branch pos state bound filtered s =
    let v = next_value filtered (bound - suc state.value) (suc state.value) in
    let t = record s { states = modify_at pos (λ x. record x { value = v }) s.states } in
    if leb bound v then some (none, exhausted pos t) else drawn pos v t

unfoldable pub first_visit : ℕ → ℕ → (ℕ → Bool) → Search → Option (Option ℕ × Search)
unfolding first_value exhausted drawn modify_at
first_visit pos bound filtered s =
    let t = record s {
      decision_depth = suc s.decision_depth;
      states = modify_at pos (λ x. record { init = true; value = 0; bound = bound }) s.states;
    } in
    let found = first_value filtered pos bound 0 t in
    let v = found.0 in
    let u = record found.1 { decision_depth = suc pos } in
    if leb bound v
    then some (none, exhausted pos u)
    else drawn pos v (record u { states = modify_at pos (λ x. record x { value = v }) u.states })

-- A number of the sequence that the options give. The filter's answer is not used.
unfoldable pub replay_sequence : ℕ → Search → Option (Option ℕ × Search)
unfolding get_number_by_pos sequence_length
replay_sequence pos s =
    let read = get_number_by_pos s.seq_map pos in
    let last = leb (sequence_length read.1 - 1) pos in
    some (some read.0, record s { seq_map = read.1; all_done = if last then true else s.all_done })

-- What is done at the node `here` of the position.
unfoldable pub choose_at :
    ℕ
    → ℕ
    → Option (ℕ → Bool)
    → Option (List ℕ)
    → Search
    → Option SearchState
    → Option (Option ℕ × Search)
unfolding revisit_node switch_branch first_visit is_filtered
choose_at pos bound filter invalid_nums s none = none
choose_at pos bound filter invalid_nums s (some state) =
    let filtered = is_filtered filter invalid_nums in
    if ltb (suc pos) s.decision_depth && state.init
    then revisit_node pos state bound filter s
    else if state.init
    then switch_branch pos state bound filtered s
    else first_visit pos bound filtered s

unfoldable pub random_choice :
    ℕ → ℕ → Option (ℕ → Bool) → Option (List ℕ) → Search → Option (Option ℕ × Search)
unfolding modify_at choose_at replay_sequence
random_choice max_depth bound filter invalid_nums s =
    let pos = s.current_pos in
    let t = record s { current_pos = suc pos } in
    let u = record t { states = modify_at pos (λ x. record x { bound = bound }) t.states } in
    elim s.error [
      | backtracking_error ↦ some (none, s)
      | success ↦
          if s.use_debug_sequence
          then replay_sequence pos t
          else if leb max_depth pos || ltb max_depth s.decision_depth
          then some (none, record t { error = exceed_max_depth_error })
          else choose_at pos bound filter invalid_nums u (get_elem? u.states pos)
      | _ ↦ none
    ]

-- `depth_needed` more numbers are wanted; the answer is whether this run is given up.
unfoldable pub eager_backtracking : ℕ → ℕ → Search → Bool × Search
unfolding modify_from close
eager_backtracking max_depth depth_needed s =
    let pos = s.current_pos - 1 in
    if leb s.current_pos 1
    then (false, s)
    else if leb (depth_needed + pos) max_depth
    then (false, s)
    else if ltb s.decision_depth s.current_pos
    then (true, record s { error = backtracking_error })
    else (
      true,
      record s {
        decision_depth = s.current_pos;
        states = modify_from s.current_pos close s.states;
        error = backtracking_error;
      },
    )

-- The answer -1 becomes the largest number of the type, which the assertion lets pass.
unfoldable pub rnd_upto : ℕ → ℕ → Option (ℕ → Bool) → Search → Option (Option ℕ × Search)
unfolding random_choice
rnd_upto max_depth n f s = elim (random_choice max_depth n f none s) [
  | none ↦ none
  | some (none, t) ↦ some (none, t)
  | some (some x, t) ↦ if ltb x n then some (some x, t) else none
]

-- The answer -1 is a `true`, as are all but 0.
unfoldable pub rnd_flipcoin : ℕ → ℕ → Option (ℕ → Bool) → Search → Option (Bool × Search)
unfolding random_choice
rnd_flipcoin max_depth n f s =
    let invalid : Option (List ℕ) =
      if n == 100 then some (0 ∷ []) else if n == 0 then some (1 ∷ []) else none in
    elim (random_choice max_depth 2 f invalid s) [
      | none ↦ none
      | some (none, t) ↦ some (true, t)
      | some (some y, t) ↦ if ltb y 2 then some (not (y == 0), t) else none
    ]
