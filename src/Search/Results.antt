-- ===== src/Search/Results.antt =====
-- The results of an exhaustive search, without its runs: those of all numbers that may be drawn, in
-- the order of the numbers.
use hipsmith.Prelude.{
  ℕ, zero, suc, ◌≤◌, ◌≡◌, refl, ap, ◌∙◌, Bool, true, Option, none, some, List, [], ◌∷◌, ◌++◌,
  length, if◌then◌else◌, Bool-cases, inl, inr,
}
use hipsmith.Search.Defs.{Search, is_filtered}
use hipsmith.Search.Runs.{
  Generator, finished, choose, needs, go_generator, branches, given_up, yields,
}
use hipsmith.Search.Pending.{draws}
use hipsmith.Search.Exhaustive.{go_generator-yields}

-- The numbers from `v` on that are not filtered, of as many as `steps`.
unfoldable pub allowed : (ℕ → Bool) → ℕ → ℕ → List ℕ
allowed filtered zero v = []
allowed filtered (suc steps) v =
    let rest = allowed filtered steps (suc v) in if filtered v then rest else v ∷ rest

module _ {ℓ} {A : Type ℓ} where
  unfoldable pub for_all : (ℕ → List A) → List ℕ → List A
  for_all f [] = []
  for_all f (v ∷ vs) = f v ++ for_all f vs

  -- `pos` numbers have been drawn, and `left` more may be drawn.
  unfoldable pub results : Generator A → ℕ → ℕ → List A
  unfolding allowed for_all is_filtered given_up
  results (finished a) pos left = a ∷ []
  results (choose bound filter invalid_nums next) pos zero = []
  results (choose bound filter invalid_nums next) pos (suc left) =
      for_all (λ v. results (next v) (suc pos) left)
        (allowed (is_filtered filter invalid_nums) bound 0)
  results (needs depth_needed g) pos left =
      if given_up pos left depth_needed then [] else results g pos left

  -- The programs that the runs put out.
  unfoldable pub outputs : List (Option A) → List A
  outputs [] = []
  outputs (none ∷ rs) = outputs rs
  outputs (some a ∷ rs) = a ∷ outputs rs

  outputs-append : (rs qs : List (Option A)) → outputs (rs ++ qs) ≡ outputs rs ++ outputs qs
  unfolding outputs
  outputs-append [] qs = refl
  outputs-append (none ∷ rs) qs = outputs-append rs qs
  outputs-append (some a ∷ rs) qs = ap (λ xs. a ∷ xs) (outputs-append rs qs)

  outputs-branches :
      (sub : ℕ → List (Option A)) (f : ℕ → List A) (filtered : ℕ → Bool) (steps v : ℕ)
      → ((w : ℕ) → outputs (sub w) ≡ f w)
      → outputs (branches sub filtered steps v) ≡ for_all f (allowed filtered steps v)
  unfolding branches allowed for_all outputs
  outputs-branches sub f filtered zero v h = refl
  outputs-branches sub f filtered (suc steps) v h =
      let rest = outputs-branches sub f filtered steps (suc v) h in
      elim (Bool-cases (filtered v)) [
        | inl y ↦ rw (branches, allowed, y) rest
        | inr n ↦
            rw (branches, allowed, n)
              (outputs-append (sub v) (branches sub filtered steps (suc v)) ∙ rw (h v, rest) refl)
      ]

  outputs-yields :
      (g : Generator A) (pos left : ℕ) → outputs (yields g pos left) ≡ results g pos left
  unfolding yields results outputs
  outputs-yields (finished a) pos left = refl
  outputs-yields (choose bound filter invalid_nums next) pos zero = refl
  outputs-yields (choose bound filter invalid_nums next) pos (suc left) =
      outputs-branches (λ v. yields (next v) (suc pos) left) (λ v. results (next v) (suc pos) left)
        (is_filtered filter invalid_nums) bound 0 (λ w. outputs-yields (next w) (suc pos) left)
  outputs-yields (needs depth_needed g) pos left =
      let inner = outputs-yields g pos left in
      elim (Bool-cases (given_up pos left depth_needed)) [ inl y ↦ rw y refl | inr n ↦ rw n inner ]

-- The exhaustive search ends, and the programs that it puts out are those of all the numbers that may
-- be drawn, each once and in the order of the numbers. The program draws at least one number, and the
-- depth allows one; as many runs are allowed as the search needs.
pub go_generator-results {ℓ} :
    {A : Type ℓ} (max_depth : ℕ) (g : Generator A) (runs : ℕ)
    → draws g max_depth ≡ true
    → length (yields g 0 max_depth) ≤ runs
    → (rs : List (Option A)) × (u : Search) × (go_generator max_depth g runs ≡ some (rs, u))
      × (outputs rs ≡ results g 0 max_depth)
      × (u.all_done ≡ true)
go_generator-results max_depth g runs d l =
    let (u, e, done) = go_generator-yields max_depth g runs d l in
    (yields g 0 max_depth, u, e, outputs-yields g 0 max_depth, done)
