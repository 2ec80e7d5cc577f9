-- ===== src/Search/Ran.antt =====
-- A run that goes on below a node, and one that is refused a number.
use hipsmith.Prelude.{
  ℕ, zero, suc, ◌+◌, ◌-◌, ◌<◌, ◌≡◌, refl, ap, sym, ◌∙◌, Bool, true, false, Option, none, some, List,
  [], ◌∷◌, ◌++◌, length, length-append, arith,
}
use mathlib.Core.Path.{subst}
use mathlib.Core.List.{append_assoc}
use hipsmith.Search.Defs.{SearchState, Search, is_filtered, random_choice, eager_backtracking}
use hipsmith.Search.Runs.{Generator, finished, choose, needs, generate, branches, given_up, yields}
use hipsmith.Search.Nodes.{all_closed}
use hipsmith.Search.Standing.{IsEnd}
use hipsmith.Search.Pending.{Pending, Ran}

pub longer :
    (max_depth : ℕ) (front back ys : List SearchState) (y : SearchState)
    → max_depth ≡ length front + suc (length back)
    → length ys ≡ length back
    → max_depth ≡ length (front ++ y ∷ []) + length ys
longer max_depth front back ys y m l = omega (arith, m, l, length-append front (y ∷ []))

module _ {ℓ} {A : Type ℓ} where
  Pending-needs :
      (depth depth_needed : ℕ) (g : Generator A) (pos : ℕ) (back : List SearchState)
      (rest : List (Option A))
      → given_up pos (length back) depth_needed ≡ false
      → Pending depth g pos back rest
      → Pending depth (needs depth_needed g) pos back rest
  unfolding Pending
  Pending-needs zero depth_needed g pos back rest kept p = p
  Pending-needs (suc depth) depth_needed g pos back rest kept p = (kept, p)

  -- A run of the generator behind a number is one of the generator that draws it.
  pub Ran-choose :
      (bound : ℕ) (filter : Option (ℕ → Bool)) (invalid_nums : Option (List ℕ))
      (next : ℕ → Generator A) (front : List SearchState) (left n w : ℕ) (y : SearchState)
      (out results tail : List (Option A)) (o : Option (Option A × Search))
      → y.init ≡ true
      → y.value ≡ w
      → w < bound
      → branches
          (λ v. yields (next v) (suc (length front)) left)
          (is_filtered filter invalid_nums)
          (bound - suc w)
          (suc w)
        ≡ tail
      → Ran (next w) (front ++ y ∷ []) n out o
      → n ≡ left
      → out ≡ results
      → Ran (choose bound filter invalid_nums next) front (suc left) (results ++ tail) o
  unfolding Pending
  Ran-choose bound filter invalid_nums next front left n w y out results tail o known same below e
        ran l r =
      let more : length (front ++ y ∷ []) ≡ suc (length front) =
        omega (arith, length-append front (y ∷ [])) in
      record {
        result = ran.result;
        search = ran.search;
        back = y ∷ ran.back;
        depth = suc ran.depth;
        rest = ran.rest ++ tail;
        runs = ran.runs;
        first = ap (λ rs. rs ++ tail) (sym r ∙ ran.first);
        ends = record {
          states_at = ran.ends.states_at ∙ append_assoc front (y ∷ []) ran.back;
          depth_at = omega (arith, ran.ends.depth_at, more);
          done_at = ground (arith, ran.ends.done_at, more);
          no_debug = ran.ends.no_debug;
        };
        as_long = omega (arith, ran.as_long, l);
        pending = (
          known,
          rw same below,
          ran.rest,
          subst (λ v. Pending ran.depth (next v) (suc (length front)) ran.back ran.rest) (sym same)
              (subst (λ p. Pending ran.depth (next w) p ran.back ran.rest) more ran.pending),
          rw (same, ran.as_long, l, e) refl,
        );
      }

  pub Ran-needs :
      (depth_needed : ℕ) (g : Generator A) (front : List SearchState) (left : ℕ)
      (results : List (Option A)) (o : Option (Option A × Search))
      → given_up (length front) left depth_needed ≡ false
      → Ran g front left results o
      → Ran (needs depth_needed g) front left results o
  Ran-needs depth_needed g front left results o kept ran = record {
    result = ran.result;
    search = ran.search;
    back = ran.back;
    depth = ran.depth;
    rest = ran.rest;
    runs = ran.runs;
    first = ran.first;
    ends = ran.ends;
    as_long = ran.as_long;
    pending =
        Pending-needs ran.depth depth_needed g (length front) ran.back ran.rest
          (rw ran.as_long kept) ran.pending;
  }

  -- A run that is refused a number leaves no node behind.
  pub Ran-refused :
      (g : Generator A) (front back : List SearchState) (left : ℕ) (t : Search)
      (o : Option (Option A × Search))
      → o ≡ some (none, t)
      → IsEnd front back 0 t
      → all_closed back ≡ true
      → length back ≡ left
      → Ran g front left (none ∷ []) o
  unfolding Pending
  Ran-refused g front back left t o e ends closed l = record {
    result = none;
    search = t;
    back = back;
    depth = 0;
    rest = [];
    runs = e;
    first = refl;
    ends = ends;
    as_long = l;
    pending = (closed, refl);
  }

  module _ (max_depth : ℕ) where
    pub generate-finished :
        (a : A) (s : Search) → generate max_depth (finished a) s ≡ some (some a, s)
    unfolding generate
    generate-finished a s = refl

    pub generate-drawn :
        (bound : ℕ) (filter : Option (ℕ → Bool)) (invalid_nums : Option (List ℕ))
        (next : ℕ → Generator A) (v : ℕ) (s t : Search)
        → random_choice max_depth bound filter invalid_nums s ≡ some (some v, t)
        → generate max_depth (choose bound filter invalid_nums next) s
          ≡ generate max_depth (next v) t
    unfolding generate
    generate-drawn bound filter invalid_nums next v s t e = rw (generate, e) refl

    pub generate-refused :
        (bound : ℕ) (filter : Option (ℕ → Bool)) (invalid_nums : Option (List ℕ))
        (next : ℕ → Generator A) (s t : Search)
        → random_choice max_depth bound filter invalid_nums s ≡ some (none, t)
        → generate max_depth (choose bound filter invalid_nums next) s ≡ some (none, t)
    unfolding generate
    generate-refused bound filter invalid_nums next s t e = rw (generate, e) refl

    pub generate-kept :
        (depth_needed : ℕ) (g : Generator A) (s : Search)
        → eager_backtracking max_depth depth_needed s ≡ (false, s)
        → generate max_depth (needs depth_needed g) s ≡ generate max_depth g s
    unfolding generate
    generate-kept depth_needed g s e = rw (generate, e) refl

    pub generate-given_up :
        (depth_needed : ℕ) (g : Generator A) (s t : Search)
        → eager_backtracking max_depth depth_needed s ≡ (true, t)
        → generate max_depth (needs depth_needed g) s ≡ some (none, t)
    unfolding generate
    generate-given_up depth_needed g s t e = rw (generate, e) refl
