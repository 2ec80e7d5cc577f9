-- ===== src/Search/Known.antt =====
-- What `random_choice` does at a node that is known, and below the last one.
use hipsmith.Prelude.{
  ℕ, suc, ◌+◌, ◌-◌, ◌<◌, ◌≤◌, ◌≡◌, refl, ap, sym, ◌∙◌, Bool, true, false, ◌&&◌, Option, none, some,
  List, [], ◌∷◌, ◌++◌, length, ltb, leb, arith,
}
use hipsmith.Search.Sequence.{add_number}
use hipsmith.Search.Defs.{
  SearchState, Search, exceed_max_depth_error, modify_from, modify_at, close, next_value,
  is_filtered, exhausted, drawn, revisit_node, switch_branch, choose_at, random_choice,
}
use hipsmith.Search.Nodes.{
  modify_at-append, modify_from-append, length-modify_from, all_closed, all_closed-close,
}
use hipsmith.Search.Standing.{standing, IsEnd, standing-next, bound_set, entered, at_node}

module _ (max_depth bound : ℕ) (filter : Option (ℕ → Bool)) (invalid_nums : Option (List ℕ)) where
  pub random_choice-exceed :
      (front : List SearchState) (seq_map : List (ℕ × ℕ))
      → max_depth ≡ length front
      → 0 < length front
      → (t : Search) × (random_choice max_depth bound filter invalid_nums
            (standing front [] 0 seq_map)
          ≡ some (none, t))
        × IsEnd front [] 0 t
  unfolding random_choice
  random_choice-exceed front seq_map m pos = (
    record (standing front [] 0 seq_map) {
      current_pos = suc (length front);
      error = exceed_max_depth_error;
    },
    ground (arith, m),
    record { states_at = refl; depth_at = refl; done_at = ground (arith, pos); no_debug = refl },
  )

  revisit_node-drawn :
      (pos : ℕ) (state : SearchState) (f : Option (ℕ → Bool)) (s : Search)
      → state.value < bound
      → revisit_node pos state bound f s ≡ drawn pos state.value s
  unfolding revisit_node
  revisit_node-drawn pos state none s b = refl
  revisit_node-drawn pos state (some f) s b = ground (arith, b)

  -- A node that is known, before the last one that is.
  pub random_choice-revisit :
      (front back : List SearchState) (x : SearchState) (depth : ℕ) (seq_map : List (ℕ × ℕ))
      → max_depth ≡ length front + length (x ∷ back)
      → suc (suc depth) ≤ length (x ∷ back)
      → x.init ≡ true
      → x.value < bound
      → random_choice max_depth bound filter invalid_nums
          (standing front (x ∷ back) (suc (suc depth)) seq_map)
        ≡ some (
          some x.value,
          standing
              (front ++ bound_set max_depth bound filter invalid_nums x ∷ [])
              back
              (suc depth)
              (add_number seq_map x.value (length front)),
        )
  unfolding choose_at revisit_node drawn
  random_choice-revisit front back x depth seq_map m le i b =
      let known : ltb (suc (length front)) (length front + suc (suc depth)) && x.init ≡ true =
        ground (arith, i) in
      let seq_map' = add_number seq_map x.value (length front) in
      at_node max_depth bound filter invalid_nums front back x (suc (suc depth)) seq_map m le
      ∙ rw (choose_at, known)
          (revisit_node-drawn (length front) (bound_set max_depth bound filter invalid_nums x)
              filter
              (entered max_depth bound filter invalid_nums front x back (suc (suc depth)) seq_map) b
            ∙ ap (λ t. some (some x.value, t))
                (standing-next front back (bound_set max_depth bound filter invalid_nums x)
                  (suc depth) seq_map'))

  choose_at-switch :
      (pos : ℕ) (state : SearchState) (s : Search)
      → ltb (suc pos) s.decision_depth ≡ false
      → state.init ≡ true
      → choose_at pos bound filter invalid_nums s (some state)
        ≡ switch_branch pos state bound (is_filtered filter invalid_nums) s
  unfolding choose_at
  choose_at-switch pos state s h i = ground (arith, h, i)

  switch_branch-drawn :
      (pos : ℕ) (state : SearchState) (filtered : ℕ → Bool) (s : Search) (w : ℕ)
      → next_value filtered (bound - suc state.value) (suc state.value) ≡ w
      → w < bound
      → switch_branch pos state bound filtered s
        ≡ drawn pos w (record s { states = modify_at pos (λ x. record x { value = w }) s.states })
  unfolding switch_branch
  switch_branch-drawn pos state filtered s w e b =
      let below : leb bound w ≡ false = ground (arith, b) in rw (e, below) refl

  switch_branch-exhausted :
      (pos : ℕ) (state : SearchState) (filtered : ℕ → Bool) (s : Search)
      → next_value filtered (bound - suc state.value) (suc state.value) ≡ bound
      → switch_branch pos state bound filtered s
        ≡ some (
          none,
          exhausted pos
              (record s { states = modify_at pos (λ x. record x { value = bound }) s.states }),
        )
  unfolding switch_branch
  switch_branch-exhausted pos state filtered s e =
      let above : leb bound bound ≡ true = ground arith in rw (e, above) refl

  -- At the last node that is known, the next number is drawn.
  pub random_choice-switch :
      (front back : List SearchState) (x : SearchState) (seq_map : List (ℕ × ℕ)) (w : ℕ)
      → max_depth ≡ length front + length (x ∷ back)
      → x.init ≡ true
      → next_value (is_filtered filter invalid_nums) (bound - suc x.value) (suc x.value) ≡ w
      → w < bound
      → random_choice max_depth bound filter invalid_nums (standing front (x ∷ back) 1 seq_map)
        ≡ some (
          some w,
          standing
              (front ++ record x { bound = bound; value = w } ∷ [])
              back
              0
              (add_number seq_map w (length front)),
        )
  unfolding choose_at switch_branch drawn
  random_choice-switch front back x seq_map w m i e b =
      let here = entered max_depth bound filter invalid_nums front x back 1 seq_map in
      let seq_map' = add_number seq_map w (length front) in
      at_node max_depth bound filter invalid_nums front back x 1 seq_map m (omega arith)
      ∙ choose_at-switch (length front) (bound_set max_depth bound filter invalid_nums x) here
          (ground arith) i
      ∙ switch_branch-drawn (length front) (bound_set max_depth bound filter invalid_nums x)
          (is_filtered filter invalid_nums) here w e b
      ∙ rw
          (modify_at-append (λ y. record y { value = w }) front back
            (bound_set max_depth bound filter invalid_nums x))
          (ap (λ t. some (some w, t))
            (standing-next front back (record x { bound = bound; value = w }) 0 seq_map'))

  -- Or all of them have been tried.
  pub random_choice-exhausted :
      (front back : List SearchState) (x : SearchState) (seq_map : List (ℕ × ℕ))
      → max_depth ≡ length front + length (x ∷ back)
      → x.init ≡ true
      → bound ≡ next_value (is_filtered filter invalid_nums) (bound - suc x.value) (suc x.value)
      → (t : Search) × (back' : List SearchState) × (random_choice max_depth bound filter
            invalid_nums
            (standing front (x ∷ back) 1 seq_map)
          ≡ some (none, t))
        × IsEnd front back' 0 t
        × (all_closed back' ≡ true)
        × (length back' ≡ length (x ∷ back))
  unfolding choose_at switch_branch exhausted
  random_choice-exhausted front back x seq_map m i e =
      let here = entered max_depth bound filter invalid_nums front x back 1 seq_map in
      let x' = record x { bound = bound; value = bound } in
      let set_here =
        modify_at-append (λ y. record y { value = bound }) front back
          (bound_set max_depth bound filter invalid_nums x) in
      let pred : length front + 1 - 1 ≡ length front = omega arith in
      (
        exhausted (length front) (record here {
          states = modify_at (length front) (λ y. record y { value = bound }) here.states;
        }),
        modify_from 0 close (x' ∷ back),
        at_node max_depth bound filter invalid_nums front back x 1 seq_map m (omega arith)
            ∙ choose_at-switch (length front) (bound_set max_depth bound filter invalid_nums x) here
                (ground arith) i
            ∙ switch_branch-exhausted (length front)
                (bound_set max_depth bound filter invalid_nums x) (is_filtered filter invalid_nums)
                here (sym e),
        record {
          states_at =
              ap (modify_from (length front) close) set_here
              ∙ modify_from-append close front (x' ∷ back);
          depth_at = omega arith;
          done_at = ground arith;
          no_debug = refl;
        },
        all_closed-close (x' ∷ back),
        length-modify_from close (x' ∷ back),
      )
