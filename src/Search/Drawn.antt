-- ===== src/Search/Drawn.antt =====
-- What a number that `random_choice` draws leaves of the sequence.
use hipsmith.Prelude.{
  ℕ, zero, suc, ◌≡◌, refl, ap, sym, ◌∙◌, Bool, true, false, Option, none, some, List, leb,
  if◌then◌else◌, Bool-cases, inl, inr,
}
use hipsmith.Search.Sequence.{add_number}
use hipsmith.Search.Defs.{
  ErrorCode, success, exceed_max_depth_error, filter_error, backtracking_error, SearchState, Search,
  first_value, is_filtered, drawn, revisit_node, switch_branch, first_visit, choose_at,
  random_choice,
}

-- What a number that is drawn at `pos` leaves of a search with the sequence `seq_map`.
pub record IsDrawn (pos : ℕ) (seq_map : List (ℕ × ℕ)) (v : ℕ) (t : Search) : Type 0 where
  pub seq_at : t.seq_map ≡ add_number seq_map v pos
  pub pos_at : t.current_pos ≡ suc pos
  pub no_debug : t.use_debug_sequence ≡ false

module _ (pos : ℕ) (seq_map : List (ℕ × ℕ)) where
  abbrev Draws : Option (Option ℕ × Search) → Type 0
  Draws o = (v : ℕ) (t : Search) → o ≡ some (some v, t) → IsDrawn pos seq_map v t

  -- The search at the number, which is drawn next.
  record IsHere (s : Search) : Type 0 where
    seq_at : s.seq_map ≡ seq_map
    pos_at : s.current_pos ≡ suc pos
    no_debug : s.use_debug_sequence ≡ false

  Draws-refused : (u : Search) → Draws (some (none, u))
  Draws-refused u v t e = cc

  Draws-if :
      (b : Bool) (o p : Option (Option ℕ × Search)) → Draws o → Draws p → Draws (if b then o else p)
  Draws-if true o p h k = h
  Draws-if false o p h k = k

  Draws-drawn : (w : ℕ) (u : Search) → IsHere u → Draws (drawn pos w u)
  unfolding drawn
  Draws-drawn w u here v t e =
      let same_v : w ≡ v = cc in
      let u' = record u { seq_map = add_number u.seq_map w pos } in
      let same_t : u' ≡ t = cc in
      record {
        seq_at =
            sym (ap (λ z. z.seq_map) same_t)
            ∙ ap (λ m. add_number m w pos) here.seq_at
            ∙ ap (λ w'. add_number seq_map w' pos) same_v;
        pos_at = sym (ap (λ z. z.current_pos) same_t) ∙ here.pos_at;
        no_debug = sym (ap (λ z. z.use_debug_sequence) same_t) ∙ here.no_debug;
      }

  first_value-IsHere :
      (filtered : ℕ → Bool) (steps v : ℕ) (s : Search)
      → IsHere s
      → IsHere (first_value filtered pos steps v s).1
  unfolding first_value
  first_value-IsHere filtered zero v s here = here
  first_value-IsHere filtered (suc steps) v s here = elim (Bool-cases (filtered v)) [
    | inr n ↦ rw n here
    | inl y ↦ rw y (
        first_value-IsHere filtered steps (suc v) _
          (record { seq_at = here.seq_at; pos_at = refl; no_debug = here.no_debug }))
  ]

  module _ (bound : ℕ) (filter : Option (ℕ → Bool)) (invalid_nums : Option (List ℕ)) where
    Draws-revisit_node :
        (state : SearchState) (f : Option (ℕ → Bool)) (s : Search)
        → IsHere s
        → Draws (revisit_node pos state bound f s)
    unfolding revisit_node
    Draws-revisit_node state none s here = Draws-drawn state.value s here
    Draws-revisit_node state (some f) s here =
        Draws-if (leb bound state.value) _ _ (λ v t e. cc) (Draws-drawn state.value s here)

    Draws-switch_branch :
        (state : SearchState) (filtered : ℕ → Bool) (s : Search)
        → IsHere s
        → Draws (switch_branch pos state bound filtered s)
    unfolding switch_branch
    Draws-switch_branch state filtered s here = Draws-if _ _ _ (Draws-refused _) (
        Draws-drawn _ _
          (record { seq_at = here.seq_at; pos_at = here.pos_at; no_debug = here.no_debug }))

    Draws-first_visit :
        (filtered : ℕ → Bool) (s : Search) → IsHere s → Draws (first_visit pos bound filtered s)
    unfolding first_visit
    Draws-first_visit filtered s here =
        let found =
          first_value-IsHere filtered bound 0 _
            (record { seq_at = here.seq_at; pos_at = here.pos_at; no_debug = here.no_debug }) in
        Draws-if _ _ _ (Draws-refused _) (
          Draws-drawn _ _
            (record { seq_at = found.seq_at; pos_at = found.pos_at; no_debug = found.no_debug }))

    Draws-choose_at :
        (s : Search) (state : Option SearchState)
        → IsHere s
        → Draws (choose_at pos bound filter invalid_nums s state)
    unfolding choose_at
    Draws-choose_at s none here = λ v t e. cc
    Draws-choose_at s (some state) here = Draws-if _ _ _ (Draws-revisit_node state filter s here) (
        Draws-if _ _ _ (Draws-switch_branch state (is_filtered filter invalid_nums) s here)
          (Draws-first_visit (is_filtered filter invalid_nums) s here))

pub random_choice-IsDrawn :
    (max_depth bound : ℕ) (filter : Option (ℕ → Bool)) (invalid_nums : Option (List ℕ))
    (s t : Search) (v : ℕ)
    → s.use_debug_sequence ≡ false
    → random_choice max_depth bound filter invalid_nums s ≡ some (some v, t)
    → IsDrawn s.current_pos s.seq_map v t
unfolding random_choice
random_choice-IsDrawn max_depth bound filter invalid_nums s t v n e = go s.error refl
  where
    go : (code : ErrorCode) → s.error ≡ code → IsDrawn s.current_pos s.seq_map v t
    go success h =
        let e' = rw (random_choice, h, n) at e in
        Draws-if s.current_pos s.seq_map _ _ _ (Draws-refused s.current_pos s.seq_map _)
          (Draws-choose_at s.current_pos s.seq_map bound filter invalid_nums _ _
            (record { seq_at = refl; pos_at = refl; no_debug = refl }))
          v t e'
    go exceed_max_depth_error h = let e' = rw h at e in cc
    go filter_error h = let e' = rw h at e in cc
    go backtracking_error h = let e' = rw h at e in cc
