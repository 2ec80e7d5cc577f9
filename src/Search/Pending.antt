-- ===== src/Search/Pending.antt =====
-- A run goes on where the runs before it have stopped: it yields what comes next of the results that
-- are left, and leaves the search at the one after that.
use hipsmith.Prelude.{
  ℕ, zero, suc, ◌+◌, ◌-◌, ◌<◌, ◌≡◌, refl, Bool, true, false, Option, some, List, [], ◌∷◌, ◌++◌,
  length, ltb, arith,
}
use hipsmith.Search.Defs.{
  SearchState, Search, backtracking_error, modify_from, close, is_filtered, eager_backtracking,
}
use hipsmith.Search.Runs.{Generator, finished, choose, needs, branches, given_up, yields}
use hipsmith.Search.Nodes.{modify_from-append, length-modify_from, all_closed, all_closed-close}
use hipsmith.Search.Standing.{standing, IsEnd}

pub eager_backtracking-kept :
    (max_depth depth_needed : ℕ) (front back : List SearchState) (depth : ℕ)
    (seq_map : List (ℕ × ℕ))
    → max_depth ≡ length front + length back
    → given_up (length front) (length back) depth_needed ≡ false
    → eager_backtracking max_depth depth_needed (standing front back depth seq_map)
      ≡ (false, standing front back depth seq_map)
unfolding eager_backtracking given_up
eager_backtracking-kept max_depth depth_needed front back depth seq_map m h = ground (arith, m, h)

pub eager_backtracking-given_up :
    (max_depth depth_needed : ℕ) (front back : List SearchState) (seq_map : List (ℕ × ℕ))
    → max_depth ≡ length front + length back
    → given_up (length front) (length back) depth_needed ≡ true
    → (t : Search) × (back' : List SearchState) × (eager_backtracking max_depth depth_needed
          (standing front back 0 seq_map)
        ≡ (true, t))
      × IsEnd front back' 0 t
      × (all_closed back' ≡ true)
      × (length back' ≡ length back)
unfolding eager_backtracking given_up
eager_backtracking-given_up max_depth depth_needed front back seq_map m h =
    let s = standing front back 0 seq_map in
    (
      record s {
        decision_depth = length front;
        states = modify_from (length front) close s.states;
        error = backtracking_error;
      },
      modify_from 0 close back,
      ground (arith, m, h),
      record {
        states_at = modify_from-append close front back;
        depth_at = omega arith;
        done_at = ground (arith, h);
        no_debug = refl;
      },
      all_closed-close back,
      length-modify_from close back,
    )

module _ {ℓ} {A : Type ℓ} where
  -- The results that are left at a generator, of whose nodes the first `depth` are known.
  unfoldable pub Pending : ℕ → Generator A → ℕ → List SearchState → List (Option A) → Type ℓ
  Pending zero g pos back rest = (all_closed back ≡ true) × (rest ≡ [])
  Pending (suc depth) (finished a) pos back rest = ⊥ × (rest ≡ [])
  Pending (suc depth) (choose bound filter invalid_nums next) pos [] rest = ⊥ × (rest ≡ [])
  Pending (suc depth) (choose bound filter invalid_nums next) pos (x ∷ back) rest =
      (x.init ≡ true)
      × (x.value < bound)
      × (inner : List (Option A)) × Pending depth (next x.value) (suc pos) back inner
      × (rest
          ≡ inner
            ++ branches (λ v. yields (next v) (suc pos) (length back))
                (is_filtered filter invalid_nums) (bound - suc x.value) (suc x.value))
  Pending (suc depth) (needs depth_needed g) pos back rest =
      (given_up pos (length back) depth_needed ≡ false) × Pending (suc depth) g pos back rest

  -- Whether a generator draws a number at all.
  unfoldable pub draws : Generator A → ℕ → Bool
  draws (finished a) left = false
  draws (choose bound filter invalid_nums next) left = ltb 0 left
  draws (needs depth_needed g) left = draws g left

  -- A run ends with the first of the results, and leaves the others pending.
  pub record Ran (g : Generator A) (front : List SearchState) (left : ℕ) (results : List (Option A))
      (o : Option (Option A × Search)) : Type ℓ where
    pub result : Option A
    pub search : Search
    pub back : List SearchState
    pub depth : ℕ
    pub rest : List (Option A)
    pub runs : o ≡ some (result, search)
    pub first : results ≡ result ∷ rest
    pub ends : IsEnd front back depth search
    pub as_long : length back ≡ left
    pub pending : Pending depth g (length front) back rest
