-- ===== src/Search/Resume.antt =====
-- One run of the generator, from any point of the search.
use hipsmith.Prelude.{
  ℕ, zero, suc, ◌+◌, ◌-◌, ◌<◌, ◌≤◌, ◌≡◌, refl, ap, sym, ◌∙◌, true, false, Option, some, List, [],
  ◌∷◌, ◌++◌, length, length-append, arith, Bool-cases, ◌⊎◌, inl, inr,
}
use mathlib.Core.Path.{subst}
use hipsmith.Search.Defs.{SearchState, next_value, is_filtered}
use hipsmith.Search.Runs.{Generator, finished, choose, needs, generate, branches, given_up, yields}
use hipsmith.Search.Nodes.{all_closed, branches-next_value}
use hipsmith.Search.Standing.{standing}
use hipsmith.Search.Known.{
  random_choice-exceed, random_choice-revisit, random_choice-switch, random_choice-exhausted,
}
use hipsmith.Search.Fresh.{random_choice-first, random_choice-none}
use hipsmith.Search.Pending.{
  Pending, draws, Ran, eager_backtracking-kept, eager_backtracking-given_up,
}
use hipsmith.Search.Ran.{
  longer, Ran-choose, Ran-needs, Ran-refused, generate-finished, generate-drawn, generate-refused,
  generate-kept, generate-given_up,
}

split_closed :
    (x : SearchState) (back : List SearchState)
    → all_closed (x ∷ back) ≡ true
    → (x.init ≡ false) × (all_closed back ≡ true)
unfolding all_closed
split_closed x back c = (ground (arith, c), ground (arith, c))

module _ {ℓ} {A : Type ℓ} where
  module _ (max_depth : ℕ) where
    -- A generator that is reached for the first time.
    pub enter :
        (g : Generator A) (front back : List SearchState) (seq_map : List (ℕ × ℕ))
        → all_closed back ≡ true
        → max_depth ≡ length front + length back
        → (0 < length front) ⊎ (draws g (length back) ≡ true)
        → Ran g front
            (length back)
            (yields g (length front) (length back))
            (generate max_depth g (standing front back 0 seq_map))
    unfolding yields draws Pending
    enter (finished a) front back seq_map c m started = record {
      result = some a;
      search = standing front back 0 seq_map;
      back = back;
      depth = 0;
      rest = [];
      runs = generate-finished max_depth a (standing front back 0 seq_map);
      first = refl;
      ends = record {
        states_at = refl;
        depth_at = refl;
        done_at = elim started [ inl p ↦ ground (arith, p) | inr d ↦ ground (arith, d) ];
        no_debug = refl;
      };
      as_long = refl;
      pending = (c, refl);
    }
    enter (choose bound filter invalid_nums next) front [] seq_map c m started =
        let (t, e, ends) =
          random_choice-exceed max_depth bound filter invalid_nums front seq_map (omega (arith, m))
            (elim started [ inl p ↦ p | inr d ↦ ground (arith, d) ]) in
        Ran-refused (choose bound filter invalid_nums next) front [] 0 t _
          (generate-refused max_depth bound filter invalid_nums next _ t e) ends c refl
    enter (choose bound filter invalid_nums next) front (x ∷ back) seq_map c m started =
        let filtered = is_filtered filter invalid_nums in
        let sub = λ (v : ℕ). yields (next v) (suc (length front)) (length back) in
        let w = next_value filtered bound 0 in
        let (new, closed) = split_closed x back c in
        elim (branches-next_value sub filtered bound bound 0 (omega arith)) [
          | inl (below, e) ↦
              let (y, ys, seq_map', r, known, same, closed', l) =
                random_choice-first max_depth bound filter invalid_nums front back x seq_map w m new
                  closed refl below in
              let more : length (front ++ y ∷ []) ≡ suc (length front) =
                omega (arith, length-append front (y ∷ [])) in
              let inner =
                enter (next w) (front ++ y ∷ []) ys seq_map' closed'
                  (longer max_depth front back ys y m l) (inl (omega (arith, more))) in
              rw (e, generate-drawn max_depth bound filter invalid_nums next w _ _ r)
                (Ran-choose bound filter invalid_nums next front (length back) (length ys) w y _
                  (sub w) _ _ known same below refl inner l
                  (ap (λ p. yields (next w) p (length ys)) more
                    ∙ ap (yields (next w) (suc (length front))) l))
          | inr (above, e) ↦
              let (t, back', r, ends, closed', l) =
                random_choice-none max_depth bound filter invalid_nums front back x seq_map m new
                  above in
              rw e (
                Ran-refused (choose bound filter invalid_nums next) front back' (suc (length back))
                  t _ (generate-refused max_depth bound filter invalid_nums next _ t r) ends closed'
                  l)
        ]
    enter (needs depth_needed g) front back seq_map c m started =
        elim (Bool-cases (given_up (length front) (length back) depth_needed)) [
          | inl up ↦
              let (t, back', r, ends, closed', l) =
                eager_backtracking-given_up max_depth depth_needed front back seq_map m up in
              rw up (
                Ran-refused (needs depth_needed g) front back' (length back) t _
                  (generate-given_up max_depth depth_needed g _ t r) ends closed' l)
          | inr kept ↦
              let same =
                eager_backtracking-kept max_depth depth_needed front back 0 seq_map m kept in
              rw (kept, generate-kept max_depth depth_needed g _ same)
                (Ran-needs depth_needed g front (length back) _ _ kept
                  (enter g front back seq_map c m started))
        ]

  Pending-length :
      (depth : ℕ) (g : Generator A) (pos : ℕ) (back : List SearchState) (rest : List (Option A))
      → Pending depth g pos back rest
      → depth ≤ length back
  unfolding Pending
  Pending-length zero g pos back rest p = omega arith
  Pending-length (suc depth) (finished a) pos back rest p = absurd p.0
  Pending-length (suc depth) (choose bound filter invalid_nums next) pos [] rest p = absurd p.0
  Pending-length (suc depth) (choose bound filter invalid_nums next) pos (x ∷ back) rest
        (known, below, inner, p, e) =
      let deep = Pending-length depth (next x.value) (suc pos) back inner p in omega (arith, deep)
  Pending-length (suc depth) (needs depth_needed g) pos back rest (kept, p) =
      Pending-length (suc depth) g pos back rest p

  module _ (max_depth : ℕ) where
    -- A generator with nodes that are known already.
    pub resume :
        (g : Generator A) (depth : ℕ) (front back : List SearchState) (rest : List (Option A))
        (seq_map : List (ℕ × ℕ))
        → Pending (suc depth) g (length front) back rest
        → max_depth ≡ length front + length back
        → Ran g front
            (length back)
            rest
            (generate max_depth g (standing front back (suc depth) seq_map))
    unfolding Pending
    resume (finished a) depth front back rest seq_map p m = absurd p.0
    resume (choose bound filter invalid_nums next) depth front [] rest seq_map p m = absurd p.0
    resume (choose bound filter invalid_nums next) zero front (x ∷ back) rest seq_map
          (known, below, inner, (closed, none_left), e) m =
        let sub = λ (v : ℕ). yields (next v) (suc (length front)) (length back) in
        let filtered = is_filtered filter invalid_nums in
        let v = x.value in
        let w = next_value filtered (bound - suc v) (suc v) in
        let e' = e ∙ ap (λ rs. rs ++ branches sub filtered (bound - suc v) (suc v)) none_left in
        elim (branches-next_value sub filtered bound (bound - suc v) (suc v)
          (omega (arith, below))) [
            | inl (below', b) ↦
                let x' = record x { bound = bound; value = w } in
                let r =
                  random_choice-switch max_depth bound filter invalid_nums front back x seq_map w m
                    known refl below' in
                let more : length (front ++ x' ∷ []) ≡ suc (length front) =
                  omega (arith, length-append front (x' ∷ [])) in
                let run =
                  enter max_depth (next w) (front ++ x' ∷ []) back _ closed
                    (longer max_depth front back back x' m refl) (inl (omega (arith, more))) in
                rw (e', b, generate-drawn max_depth bound filter invalid_nums next w _ _ r)
                  (Ran-choose bound filter invalid_nums next front (length back) (length back) w x'
                    _ (sub w) _ _ known refl below' refl run refl
                    (ap (λ p. yields (next w) p (length back)) more))
            | inr (above, b) ↦
                let (t, back', r, ends, closed', l) =
                  random_choice-exhausted max_depth bound filter invalid_nums front back x seq_map m
                    known above in
                rw (e', b)
                  (Ran-refused (choose bound filter invalid_nums next) front back'
                    (suc (length back)) t _
                    (generate-refused max_depth bound filter invalid_nums next _ t r) ends closed'
                    l)
          ]
    resume (choose bound filter invalid_nums next) (suc depth) front (x ∷ back) rest seq_map
          (known, below, inner, p, e) m =
        let x' = record x { bound = bound } in
        let v = x.value in
        let deep = Pending-length (suc depth) (next v) (suc (length front)) back inner p in
        let r =
          random_choice-revisit max_depth bound filter invalid_nums front back x depth seq_map m
            (omega (arith, deep)) known below in
        let more : length (front ++ x' ∷ []) ≡ suc (length front) =
          omega (arith, length-append front (x' ∷ [])) in
        let run =
          resume (next v) depth (front ++ x' ∷ []) back inner _
            (subst (λ n. Pending (suc depth) (next v) n back inner) (sym more) p)
            (longer max_depth front back back x' m refl) in
        rw (e, generate-drawn max_depth bound filter invalid_nums next v _ _ r)
          (Ran-choose bound filter invalid_nums next front (length back) (length back) v x' inner
            inner _ _ known refl below refl run refl refl)
    resume (needs depth_needed g) depth front back rest seq_map (kept, p) m =
        let same =
          eager_backtracking-kept max_depth depth_needed front back (suc depth) seq_map m kept in
        rw (generate-kept max_depth depth_needed g _ same) (
          Ran-needs depth_needed g front (length back) rest _ kept
            (resume g depth front back rest seq_map p m))
