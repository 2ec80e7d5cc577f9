-- ===== src/Choices/Distribution.antt =====
-- src/Probabilities.cpp, DistributionTable: keys with their probabilities. Keys and probabilities
-- are natural numbers, as they are in the tables of the program; a failing assertion is `none`.
pub mod Shares
use hipsmith.Prelude.{
  ℕ, ◌+◌, ◌-◌, ◌≡◌, Bool, true, false, not, ◌||◌, ◌&&◌, Option, none, some, List, [], ◌∷◌, ◌++◌,
  ◌==◌, ltb, if◌then◌else◌, length,
}

pub record DistributionTable : Type 0 where
  pub max_prob : ℕ
  pub keys : List ℕ
  pub probs : List ℕ

unfoldable pub empty_distribution : DistributionTable
empty_distribution = record { max_prob = 0; keys = []; probs = [] }

unfoldable pub add_entry : DistributionTable → ℕ → ℕ → DistributionTable
add_entry t key prob = record {
  max_prob = t.max_prob + prob;
  keys = t.keys ++ key ∷ [];
  probs = t.probs ++ prob ∷ [];
}

-- The loop of `key_to_prob`.
unfoldable pub prob_at : ℕ → List ℕ → List ℕ → ℕ
prob_at key (k ∷ keys) (p ∷ probs) = if k == key then p else prob_at key keys probs
prob_at key _ _ = 0

unfoldable pub key_to_prob : DistributionTable → ℕ → ℕ
unfolding prob_at
key_to_prob t key = prob_at key t.keys t.probs

-- The loop of `rnd_num_to_key`.
unfoldable pub key_at : List ℕ → List ℕ → ℕ → Option ℕ
key_at (k ∷ keys) (p ∷ probs) rnd =
    let rest = key_at keys probs (rnd - p) in if ltb rnd p then some k else rest
key_at _ _ rnd = none

unfoldable pub rnd_num_to_key : DistributionTable → ℕ → Option ℕ
unfolding key_at
rnd_num_to_key t rnd =
    if ltb rnd t.max_prob && (length t.keys == length t.probs)
    then key_at t.keys t.probs rnd
    else none

unfoldable pub sum : List ℕ → ℕ
sum [] = 0
sum (x ∷ xs) = x + sum xs

-- What `add_entry` keeps.
pub record IsDistribution (t : DistributionTable) : Type 0 where
  pub paired : length t.keys ≡ length t.probs
  pub summed : t.max_prob ≡ sum t.probs
