-- ===== src/Search/Fresh.antt =====
-- What `random_choice` does at a node that is new.
use hipsmith.Prelude.{
  ℕ, suc, ◌+◌, ◌-◌, ◌<◌, ◌≡◌, refl, ap, sym, ◌∙◌, Bool, true, false, Option, none, some, List, [],
  ◌∷◌, ◌++◌, map, length, length-append, leb, arith,
}
use mathlib.Core.List.{append_assoc}
use hipsmith.Search.Sequence.{add_number}
use hipsmith.Search.Defs.{
  SearchState, Search, modify_from, modify_at, close, next_value, first_value, is_filtered,
  exhausted, drawn, first_visit, choose_at, random_choice,
}
use hipsmith.Search.Nodes.{
  modify_at-append, modify_from-append, length-modify_from, all_closed, all_closed-close,
  first_value-next_value, first_value-IsTouched,
}
use hipsmith.Search.Standing.{standing, IsEnd, standing_intro, bound_set, entered, at_node}

inits-all_closed :
    (xs ys : List SearchState)
    → map (λ x. x.init) xs ≡ map (λ x. x.init) ys
    → all_closed ys ≡ true
    → all_closed xs ≡ true
unfolding all_closed
inits-all_closed [] ys h c = refl
inits-all_closed (x ∷ xs) [] h c = cc
inits-all_closed (x ∷ xs) (y ∷ ys) h c =
    let a : x.init ≡ y.init = cc in
    let b : map (λ z. z.init) xs ≡ map (λ z. z.init) ys = cc in
    ground (arith, a, c, inits-all_closed xs ys b)

split_touched :
    (b : Bool) (back back' : List SearchState)
    → length back' ≡ suc (length back)
    → map (λ x. x.init) back' ≡ b ∷ map (λ x. x.init) back
    → all_closed back ≡ true
    → (y : SearchState) × (ys : List SearchState) × (back' ≡ y ∷ ys)
      × (y.init ≡ b)
      × (all_closed ys ≡ true)
      × (length ys ≡ length back)
split_touched b back [] l h c = cc
split_touched b back (y ∷ ys) l h c =
    let p : y.init ≡ b = cc in
    let q : map (λ z. z.init) ys ≡ map (λ z. z.init) back = cc in
    (y, ys, refl, p, inits-all_closed ys back q c, omega (arith, l))

module _ (max_depth bound : ℕ) (filter : Option (ℕ → Bool)) (invalid_nums : Option (List ℕ)) where
  choose_at-first :
      (pos : ℕ) (state : SearchState) (s : Search)
      → state.init ≡ false
      → choose_at pos bound filter invalid_nums s (some state)
        ≡ first_visit pos bound (is_filtered filter invalid_nums) s
  unfolding choose_at
  choose_at-first pos state s i = ground (arith, i)

  abbrev opened : SearchState
  opened = record { init = true; value = 0; bound = bound }

  -- The search before the loop of a new node.
  abbrev new_node : ℕ → Search → Search
  new_node pos s = record s {
    decision_depth = suc s.decision_depth;
    states = modify_at pos (λ y. opened) s.states;
  }

  first_visit-drawn :
      (pos : ℕ) (filtered : ℕ → Bool) (s : Search) (w : ℕ)
      → (first_value filtered pos bound 0 (new_node pos s)).0 ≡ w
      → w < bound
      → first_visit pos bound filtered s
        ≡ drawn pos w (record (first_value filtered pos bound 0 (new_node pos s)).1 {
          decision_depth = suc pos;
          states =
              modify_at pos
                (λ x. record x { value = w })
                (first_value filtered pos bound 0 (new_node pos s)).1.states;
        })
  unfolding first_visit
  first_visit-drawn pos filtered s w e b =
      let below : leb bound w ≡ false = ground (arith, b) in rw (e, below) refl

  first_visit-exhausted :
      (pos : ℕ) (filtered : ℕ → Bool) (s : Search)
      → (first_value filtered pos bound 0 (new_node pos s)).0 ≡ bound
      → first_visit pos bound filtered s
        ≡ some (
          none,
          exhausted pos (record (first_value filtered pos bound 0 (new_node pos s)).1 {
            decision_depth = suc pos;
          }),
        )
  unfolding first_visit
  first_visit-exhausted pos filtered s e =
      let above : leb bound bound ≡ true = ground arith in rw (e, above) refl

  -- A new node takes the first number that is not filtered.
  pub random_choice-first :
      (front back : List SearchState) (x : SearchState) (seq_map : List (ℕ × ℕ)) (w : ℕ)
      → max_depth ≡ length front + length (x ∷ back)
      → x.init ≡ false
      → all_closed back ≡ true
      → next_value (is_filtered filter invalid_nums) bound 0 ≡ w
      → w < bound
      → (y : SearchState) × (ys : List SearchState) × (seq_map' : List (ℕ × ℕ)) × (random_choice
            max_depth bound filter invalid_nums
            (standing front (x ∷ back) 0 seq_map)
          ≡ some (some w, standing (front ++ y ∷ []) ys 0 seq_map'))
        × (y.init ≡ true)
        × (y.value ≡ w)
        × (all_closed ys ≡ true)
        × (length ys ≡ length back)
  unfolding drawn
  random_choice-first front back x seq_map w m i c e b =
      let here = entered max_depth bound filter invalid_nums front x back 0 seq_map in
      let filtered = is_filtered filter invalid_nums in
      let t = new_node (length front) here in
      let touched =
        first_value-IsTouched filtered front (opened ∷ back) bound 0 t
          (modify_at-append (λ y. opened) front back
            (bound_set max_depth bound filter invalid_nums x))
          (omega arith) refl in
      let (y, ys, split, open_y, closed, same_length) =
        split_touched true back touched.back' touched.length_back touched.inits c in
      let f1 = (first_value filtered (length front) bound 0 t).1 in
      let set_value = λ (z : SearchState). record z { value = w } in
      let y' = set_value y in
      let more : length (front ++ y' ∷ []) ≡ suc (length front) =
        omega (arith, length-append front (y' ∷ [])) in
      let states_at =
        ap (modify_at (length front) set_value) (touched.states_at ∙ ap (λ zs. front ++ zs) split)
        ∙ modify_at-append set_value front ys y
        ∙ sym (append_assoc front (y' ∷ []) ys) in
      let u = record f1 {
        decision_depth = suc (length front);
        states = modify_at (length front) set_value f1.states;
        seq_map = add_number f1.seq_map w (length front);
      } in
      (
        y',
        ys,
        u.seq_map,
        at_node max_depth bound filter invalid_nums front back x 0 seq_map m (omega arith)
            ∙ choose_at-first (length front) (bound_set max_depth bound filter invalid_nums x) here
                i
            ∙ first_visit-drawn (length front) filtered here w
                (first_value-next_value filtered (length front) bound 0 t ∙ e) b
            ∙ ap (λ z. some (some w, z))
                (standing_intro (front ++ y' ∷ []) ys 0 u states_at (touched.pos_at ∙ sym more)
                  (omega (arith, more)) touched.same_done touched.same_debug touched.same_error),
        open_y,
        refl,
        closed,
        same_length,
      )

  -- Or there is none.
  pub random_choice-none :
      (front back : List SearchState) (x : SearchState) (seq_map : List (ℕ × ℕ))
      → max_depth ≡ length front + length (x ∷ back)
      → x.init ≡ false
      → bound ≡ next_value (is_filtered filter invalid_nums) bound 0
      → (t : Search) × (back' : List SearchState) × (random_choice max_depth bound filter
            invalid_nums
            (standing front (x ∷ back) 0 seq_map)
          ≡ some (none, t))
        × IsEnd front back' 0 t
        × (all_closed back' ≡ true)
        × (length back' ≡ length (x ∷ back))
  unfolding exhausted
  random_choice-none front back x seq_map m i e =
      let here = entered max_depth bound filter invalid_nums front x back 0 seq_map in
      let filtered = is_filtered filter invalid_nums in
      let t = new_node (length front) here in
      let touched =
        first_value-IsTouched filtered front (opened ∷ back) bound 0 t
          (modify_at-append (λ y. opened) front back
            (bound_set max_depth bound filter invalid_nums x))
          (omega arith) refl in
      let f1 = (first_value filtered (length front) bound 0 t).1 in
      let back' = touched.back' in
      let pred : suc (length front) - 1 ≡ length front = omega arith in
      (
        exhausted (length front) (record f1 { decision_depth = suc (length front) }),
        modify_from 0 close back',
        at_node max_depth bound filter invalid_nums front back x 0 seq_map m (omega arith)
            ∙ choose_at-first (length front) (bound_set max_depth bound filter invalid_nums x) here
                i
            ∙ first_visit-exhausted (length front) filtered here
                (first_value-next_value filtered (length front) bound 0 t ∙ sym e),
        record {
          states_at =
              ap (modify_from (length front) close) touched.states_at
              ∙ modify_from-append close front back';
          depth_at = omega arith;
          done_at = ground (arith, touched.same_done);
          no_debug = touched.same_debug;
        },
        all_closed-close back',
        length-modify_from close back' ∙ touched.length_back,
      )
