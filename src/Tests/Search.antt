-- ===== src/Tests/Search.antt =====
-- The exhaustive search of a small program.
use hipsmith.Prelude.{
  ℕ, Bool, if◌then◌else◌, ◌+◌, ◌*◌, ◌≤◌, ◌≡◌, refl, true, false, Option, some, none, List, [], ◌∷◌,
  ◌==◌, length, arith,
}
use hipsmith.Search.Defs.{Search, make_search, random_choice, eager_backtracking, rnd_flipcoin}
use hipsmith.Search.Runs.{Generator, finished, choose, needs, generate, go_generator, yields}
use hipsmith.Search.Pending.{draws}
use hipsmith.Search.Exhaustive.{go_generator-yields}
use hipsmith.Search.Results.{results, outputs, go_generator-results}
use hipsmith.Search.Replay.{generate-replay}

-- Two numbers that differ, and the second one is not 2. After a 1 the program wants more numbers than
-- there are.
abbrev last : ℕ → ℕ → Generator ℕ
last v w = finished (10 * v + w)

abbrev second : ℕ → Generator ℕ
second v =
    if v == 1
    then choose 2 none none (λ w. needs 2 (last v w))
    else choose 3 (some (λ w. w == v)) (some (2 ∷ [])) (last v)

abbrev program : Generator ℕ
program = choose 3 none none second

sample_results : results program 0 2 ≡ 1 ∷ 20 ∷ 21 ∷ []
unfolding results
sample_results = refl

sample_runs :
    yields program 0 2 ≡ some 1 ∷ none ∷ none ∷ none ∷ none ∷ some 20 ∷ some 21 ∷ none ∷ none ∷ []
unfolding yields
sample_runs = refl

enough_runs : length (yields program 0 2) ≤ 9
enough_runs = rw sample_runs (omega arith)

sample_draws : draws program 2 ≡ true
unfolding draws
sample_draws = refl

go_generator-yields_example :
    (u : Search) × (go_generator 2 program 9 ≡ some (yields program 0 2, u)) × (u.all_done ≡ true)
go_generator-yields_example = go_generator-yields 2 program 9 sample_draws enough_runs

go_generator-results_example :
    (rs : List (Option ℕ)) × (u : Search) × (go_generator 2 program 9 ≡ some (rs, u))
    × (outputs rs ≡ results program 0 2)
    × (u.all_done ≡ true)
go_generator-results_example = go_generator-results 2 program 9 sample_draws enough_runs

-- The loop itself, run by run.
abbrev runs_of : Option (List (Option ℕ) × Search) → List (Option ℕ)
runs_of none = []
runs_of (some r) = r.0

loop_runs : runs_of (go_generator 2 program 20) ≡ yields program 0 2
unfolding go_generator yields generate random_choice eager_backtracking
loop_runs = refl

-- The first run, which draws 0 and 1.
abbrev search_of : Option (Option ℕ × Search) → Search
search_of none = make_search 0
search_of (some r) = r.1

abbrev first_run : Option (Option ℕ × Search)
first_run = generate 2 program (make_search 2)

first_run_draws : first_run ≡ some (some 1, search_of first_run)
unfolding generate random_choice make_search
first_run_draws = refl

first_run_sequence : (search_of first_run).seq_map ≡ (0, 0) ∷ (1, 1) ∷ []
unfolding generate random_choice make_search
first_run_sequence = refl

generate-replay_example :
    (u : Search) × (generate 2 program (record (make_search 2) {
      use_debug_sequence = true;
      seq_map = (search_of first_run).seq_map;
    })
      ≡ some (some 1, u))
unfolding make_search
generate-replay_example =
    generate-replay 2 program (make_search 2) (search_of first_run) 1 refl refl first_run_draws

abbrev drawn_coin : Option (Bool × Search) → Option Bool
drawn_coin none = none
drawn_coin (some r) = some r.0

-- A coin of no chance shows 0, one of certainty 1.
coins :
    (drawn_coin (rnd_flipcoin 2 0 none (make_search 2)) ≡ some false)
    × (drawn_coin (rnd_flipcoin 2 100 none (make_search 2)) ≡ some true)
unfolding rnd_flipcoin make_search
coins = (refl, refl)
