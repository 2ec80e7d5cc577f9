-- ===== src/Search/Exhaustive.antt =====
-- src/DFSProgramGenerator.cpp, `goGenerator`: the search is exhaustive.
use hipsmith.Prelude.{
  ℕ, zero, suc, ◌-◌, ◌≤◌, ◌≡◌, refl, ap, sym, ◌∙◌, true, false, Option, some, List, [], ◌∷◌, length,
  arith, inr,
}
use hipsmith.Search.Defs.{SearchState, Search, success, init_states, make_search, reset_state}
use hipsmith.Search.Runs.{Generator, generate, explore, go_generator, yields}
use hipsmith.Search.Nodes.{all_closed}
use hipsmith.Search.Standing.{standing, standing_intro, IsEnd}
use hipsmith.Search.Pending.{Pending, draws, Ran}
use hipsmith.Search.Resume.{enter, resume}

all_closed-init_states : (n : ℕ) → all_closed (init_states n) ≡ true
unfolding all_closed init_states
all_closed-init_states zero = refl
all_closed-init_states (suc n) = all_closed-init_states n

length-init_states : (n : ℕ) → length (init_states n) ≡ n
unfolding init_states
length-init_states zero = refl
length-init_states (suc n) = ap suc (length-init_states n)

module _ {ℓ} {A : Type ℓ} (max_depth : ℕ) where
  explore-done :
      (g : Generator A) (runs : ℕ) (s : Search)
      → s.all_done ≡ true
      → explore max_depth g runs s ≡ some ([], s)
  unfolding explore
  explore-done g zero s h = refl
  explore-done g (suc runs) s h = ground (arith, h)

  explore-run :
      (g : Generator A) (runs : ℕ) (s t u : Search) (r : Option A) (rs : List (Option A))
      → s.all_done ≡ false
      → generate max_depth g (record s { error = success }) ≡ some (r, t)
      → explore max_depth g runs (reset_state t) ≡ some (rs, u)
      → explore max_depth g (suc runs) s ≡ some (r ∷ rs, u)
  unfolding explore
  explore-run g runs s t u r rs h e k = rw (explore, h, e, k) refl

  -- The loop ends with these results, from the search after a run.
  abbrev EndsWith : Generator A → ℕ → List (Option A) → Search → Type ℓ
  EndsWith g runs rest s =
      (u : Search) × (explore max_depth g runs s ≡ some (rest, u)) × (u.all_done ≡ true)

  abbrev AllPendingEnd : Generator A → ℕ → Type ℓ
  AllPendingEnd g runs =
      (depth : ℕ) (back : List SearchState) (rest : List (Option A)) (s : Search)
      → IsEnd [] back depth s
      → s.current_pos ≡ 0
      → Pending depth g 0 back rest
      → max_depth ≡ length back
      → length rest ≤ runs
      → EndsWith g runs rest s

  explore-Ran :
      (g : Generator A) (runs left : ℕ) (results : List (Option A)) (s s' : Search)
      → s.all_done ≡ false
      → record s { error = success } ≡ s'
      → max_depth ≡ left
      → Ran g [] left results (generate max_depth g s')
      → length results ≤ suc runs
      → AllPendingEnd g runs
      → EndsWith g (suc runs) results s
  unfolding reset_state
  explore-Ran g runs left results s s' not_done ready m ran l k =
      let long = ap length ran.first in
      let later =
        k ran.depth ran.back ran.rest (reset_state ran.search)
          (record {
            states_at = ran.ends.states_at;
            depth_at = ran.ends.depth_at;
            done_at = ran.ends.done_at;
            no_debug = ran.ends.no_debug;
          })
          refl ran.pending (m ∙ sym ran.as_long) (omega (arith, long, l)) in
      (
        later.0,
        rw ran.first (
            explore-run g runs s ran.search later.0 ran.result ran.rest not_done
              (ap (generate max_depth g) ready ∙ ran.runs) later.1),
        later.2,
      )

  explore-Pending : (g : Generator A) (runs : ℕ) → AllPendingEnd g runs
  unfolding Pending
  explore-Pending g runs zero back rest s ends pos (closed, e) m l =
      let is_done = ends.done_at in (s, rw e (explore-done g runs s is_done), is_done)
  explore-Pending g zero (suc depth) back rest s ends pos p m l =
      let ran = resume max_depth g depth [] back rest s.seq_map p (omega (arith, m)) in
      let long = ap length ran.first in absurd (omega (arith, long, l))
  explore-Pending g (suc runs) (suc depth) back rest s ends pos p m l =
      let s' = record s { error = success } in
      let not_done : s.all_done ≡ false = ground (arith, ends.done_at) in
      let ready =
        standing_intro [] back (suc depth) s' ends.states_at pos ends.depth_at not_done
          ends.no_debug refl in
      let ran = resume max_depth g depth [] back rest s.seq_map p (omega (arith, m)) in
      explore-Ran g runs (length back) rest s (standing [] back (suc depth) s.seq_map) not_done
        ready m ran l (explore-Pending g runs)

  -- From the search that is made for a program, `goGenerator` ends after as many runs as the
  -- reference has results, and the runs give just these. The program draws at least one number, and
  -- the depth allows one.
  pub go_generator-yields :
      (g : Generator A) (runs : ℕ)
      → draws g max_depth ≡ true
      → length (yields g 0 max_depth) ≤ runs
      → (u : Search) × (go_generator max_depth g runs ≡ some (yields g 0 max_depth, u))
        × (u.all_done ≡ true)
  unfolding go_generator make_search
  go_generator-yields g runs d l =
      let nodes = init_states max_depth in
      let long = length-init_states max_depth in
      let ran =
        enter max_depth g [] nodes [] (all_closed-init_states max_depth) (omega (arith, long))
          (inr (ap (draws g) long ∙ d)) in
      let results = ap (yields g 0) long in
      let some_run = ap length ran.first in
      let back : suc (runs - 1) ≡ runs = omega (arith, some_run, ap length results, l) in
      let ends =
        explore-Ran g (runs - 1) (length nodes) (yields g 0 (length nodes)) (make_search max_depth)
          (standing [] nodes 0 []) refl refl (sym long) ran (omega (arith, ap length results, l))
          (explore-Pending g (runs - 1)) in
      rw (← results, ← back) ends
