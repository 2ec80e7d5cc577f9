-- ===== src/Search/Runs.antt =====
-- src/DFSProgramGenerator.cpp, `goGenerator`: one run of the generator after the other, until the
-- search says that all is done. What the runs make of their numbers, `GenerateFunctions`, is a
-- parameter: a tree of the numbers it asks for.
use hipsmith.Prelude.{
  ℕ, zero, suc, Bool, true, false, ◌&&◌, Option, none, some, List, [], ◌∷◌, ◌++◌, ltb,
  if◌then◌else◌,
}
use hipsmith.Search.Defs.{
  success, Search, make_search, reset_state, is_filtered, random_choice, eager_backtracking,
}

-- A generator that ends with a result, asks for a number below a bound, or says how many more numbers
-- it needs.
pub data Generator {ℓ} (A : Type ℓ) : Type ℓ where
  finished : A → Generator A
  choose : ℕ → Option (ℕ → Bool) → Option (List ℕ) → (ℕ → Generator A) → Generator A
  needs : ℕ → Generator A → Generator A

module _ {ℓ} {A : Type ℓ} (max_depth : ℕ) where
  -- One run: its result, if no number was refused. A failing assertion is `none`.
  unfoldable pub generate : Generator A → Search → Option (Option A × Search)
  unfolding random_choice eager_backtracking
  generate (finished a) s = some (some a, s)
  generate (choose bound filter invalid_nums next) s =
      elim (random_choice max_depth bound filter invalid_nums s) [
        | none ↦ none
        | some (none, t) ↦ some (none, t)
        | some (some v, t) ↦ generate (next v) t
      ]
  generate (needs depth_needed g) s =
      let asked = eager_backtracking max_depth depth_needed s in
      let rest = generate g asked.1 in if asked.0 then some (none, asked.1) else rest

  -- The loop of `goGenerator`, for at most `runs` runs: the result of each run, and the search
  -- afterwards.
  unfoldable pub explore : Generator A → ℕ → Search → Option (List (Option A) × Search)
  unfolding generate reset_state
  explore g zero s = some ([], s)
  explore g (suc runs) s = elim s.all_done [
    | true ↦ some ([], s)
    | false ↦ elim (generate g (record s { error = success })) [
      | none ↦ none
      | some (r, t) ↦ elim (explore g runs (reset_state t)) [
        | none ↦ none
        | some (rs, u) ↦ some (r ∷ rs, u)
      ]
    ]
  ]

  unfoldable pub go_generator : Generator A → ℕ → Option (List (Option A) × Search)
  unfolding explore make_search
  go_generator g runs = explore g runs (make_search max_depth)

unfoldable pub given_up : ℕ → ℕ → ℕ → Bool
given_up pos left depth_needed = ltb 1 pos && ltb (suc left) depth_needed

-- The reference: what the runs of an exhaustive search yield, from a generator that is reached with
-- `pos` numbers drawn and `left` more to be drawn. A run without a result stands for a generator that
-- goes too deep, one that is given up, and the numbers at a node when they have all been tried.
module _ {ℓ} {A : Type ℓ} where
  unfoldable pub branches : (ℕ → List (Option A)) → (ℕ → Bool) → ℕ → ℕ → List (Option A)
  branches sub filtered zero v = none ∷ []
  branches sub filtered (suc steps) v =
      let rest = branches sub filtered steps (suc v) in if filtered v then rest else sub v ++ rest

  unfoldable pub yields : Generator A → ℕ → ℕ → List (Option A)
  unfolding branches is_filtered given_up
  yields (finished a) pos left = some a ∷ []
  yields (choose bound filter invalid_nums next) pos zero = none ∷ []
  yields (choose bound filter invalid_nums next) pos (suc left) =
      branches (λ v. yields (next v) (suc pos) left) (is_filtered filter invalid_nums) bound 0
  yields (needs depth_needed g) pos left =
      if given_up pos left depth_needed then none ∷ [] else yields g pos left
