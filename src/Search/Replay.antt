-- ===== src/Search/Replay.antt =====
-- The sequence of numbers that a run has drawn gives the same program again.
use hipsmith.Prelude.{
  ℕ, suc, ◌-◌, ◌<◌, ◌≡◌, refl, ap, sym, ◌∙◌, Bool, true, false, Option, none, some, List, leb,
  if◌then◌else◌, arith, Bool-cases, inl, inr,
}
use hipsmith.Search.Sequence.{get_number_by_pos, sequence_length}
use hipsmith.Search.Defs.{
  make_search, success, Search, replay_sequence, random_choice, eager_backtracking,
}
use hipsmith.Search.Runs.{Generator, finished, choose, needs, generate}
use hipsmith.Search.Drawn.{random_choice-IsDrawn}
use hipsmith.Search.Recorded.{Records, Records-add_number, Records-add_number_other}

eager_backtracking_at :
    (max_depth depth_needed : ℕ) (s : Search)
    → (eager_backtracking max_depth depth_needed s).0 ≡ false
    → (u : Search) → u.current_pos ≡ s.current_pos
    → eager_backtracking max_depth depth_needed u ≡ (false, u)
unfolding eager_backtracking
eager_backtracking_at max_depth depth_needed s h u p = ground (arith, h, p)

-- A search that replays the sequence `seq_map` has come to the position `pos`.
pub record IsReplay (pos : ℕ) (seq_map : List (ℕ × ℕ)) (u : Search) : Type 0 where
  pub debug : u.use_debug_sequence ≡ true
  pub no_error : u.error ≡ success
  pos_at : u.current_pos ≡ pos
  seq_at : u.seq_map ≡ seq_map

random_choice-debug :
    (max_depth bound : ℕ) (filter : Option (ℕ → Bool)) (invalid_nums : Option (List ℕ)) (u : Search)
    → u.error ≡ success
    → u.use_debug_sequence ≡ true
    → random_choice max_depth bound filter invalid_nums u
      ≡ replay_sequence u.current_pos (record u { current_pos = suc u.current_pos })
unfolding random_choice
random_choice-debug max_depth bound filter invalid_nums u e d = ground (arith, e, d)

random_choice-IsReplay :
    (max_depth bound : ℕ) (filter : Option (ℕ → Bool)) (invalid_nums : Option (List ℕ)) (pos v : ℕ)
    (seq_map : List (ℕ × ℕ)) (u : Search)
    → IsReplay pos seq_map u
    → Records seq_map pos v
    → (u' : Search) × (random_choice max_depth bound filter invalid_nums u ≡ some (some v, u'))
      × IsReplay (suc pos) seq_map u'
unfolding random_choice replay_sequence
random_choice-IsReplay max_depth bound filter invalid_nums pos v seq_map u h (e, f) =
    let value =
      ap (λ m. (get_number_by_pos m u.current_pos).0) h.seq_at
      ∙ ap (λ p. (get_number_by_pos seq_map p).0) h.pos_at
      ∙ e in
    let kept =
      ap (λ m. (get_number_by_pos m u.current_pos).1) h.seq_at
      ∙ ap (λ p. (get_number_by_pos seq_map p).1) h.pos_at
      ∙ f in
    let read = get_number_by_pos u.seq_map u.current_pos in
    let last = leb (sequence_length read.1 - 1) u.current_pos in
    let u' = record u {
      current_pos = suc u.current_pos;
      seq_map = read.1;
      all_done = if last then true else u.all_done;
    } in
    (
      u',
      random_choice-debug max_depth bound filter invalid_nums u h.no_error h.debug
          ∙ ap (λ x. some (some x, u')) value,
      record { debug = h.debug; no_error = h.no_error; pos_at = ap suc h.pos_at; seq_at = kept },
    )

module _ {ℓ} {A : Type ℓ} (max_depth : ℕ) where
  generate-finished_inv :
      (b : A) (s t : Search) (a : A)
      → generate max_depth (finished b) s ≡ some (some a, t)
      → (b ≡ a) × (s ≡ t)
  unfolding generate
  generate-finished_inv b s t a e = (cc, cc)

  generate-choose_inv :
      (bound : ℕ) (filter : Option (ℕ → Bool)) (invalid_nums : Option (List ℕ))
      (next : ℕ → Generator A) (s t : Search) (a : A)
      → generate max_depth (choose bound filter invalid_nums next) s ≡ some (some a, t)
      → (v : ℕ) × (s' : Search) × (random_choice max_depth bound filter invalid_nums s
          ≡ some (some v, s'))
        × (generate max_depth (next v) s' ≡ some (some a, t))
  unfolding generate
  generate-choose_inv bound filter invalid_nums next s t a e =
      go (random_choice max_depth bound filter invalid_nums s) refl
    where
      go :
          (o : Option (Option ℕ × Search))
          → random_choice max_depth bound filter invalid_nums s ≡ o
          → (v : ℕ) × (s' : Search) × (random_choice max_depth bound filter invalid_nums s
              ≡ some (some v, s'))
            × (generate max_depth (next v) s' ≡ some (some a, t))
      go none h = let e' = rw (generate, h) at e in cc
      go (some (none, s')) h = let e' = rw (generate, h) at e in cc
      go (some (some v, s')) h = (v, s', h, rw (generate, h) at e)

  generate-needs_inv :
      (depth_needed : ℕ) (g : Generator A) (s t : Search) (a : A)
      → generate max_depth (needs depth_needed g) s ≡ some (some a, t)
      → ((eager_backtracking max_depth depth_needed s).0 ≡ false)
        × (generate max_depth g s ≡ some (some a, t))
  unfolding generate
  generate-needs_inv depth_needed g s t a e =
      elim (Bool-cases (eager_backtracking max_depth depth_needed s).0) [
        | inl y ↦ let e' = rw (generate, y) at e in cc
        | inr n ↦
            let kept = eager_backtracking_at max_depth depth_needed s n s refl in
            (n, rw (generate, kept) at e)
      ]

  -- A run that ends with a result keeps the numbers that were drawn before it.
  Records-generate :
      (g : Generator A) (s t : Search) (a : A) (k v : ℕ)
      → s.use_debug_sequence ≡ false
      → generate max_depth g s ≡ some (some a, t)
      → k < s.current_pos
      → Records s.seq_map k v
      → Records t.seq_map k v
  Records-generate (finished b) s t a k v n e l r =
      let same = generate-finished_inv b s t a e in rw (← ap (λ z. z.seq_map) same.1) r
  Records-generate (choose bound filter invalid_nums next) s t a k v n e l r =
      let (w, s', d, e') = generate-choose_inv bound filter invalid_nums next s t a e in
      let drawn_at = random_choice-IsDrawn max_depth bound filter invalid_nums s s' w n d in
      Records-generate (next w) s' t a k v drawn_at.no_debug e' (omega (arith, l, drawn_at.pos_at))
        (rw drawn_at.seq_at
          (Records-add_number_other s.seq_map v w k s.current_pos (λ x. omega (arith, x, l)) r))
  Records-generate (needs depth_needed g) s t a k v n e l r =
      let (kept, e') = generate-needs_inv depth_needed g s t a e in
      Records-generate g s t a k v n e' l r

  replay_from :
      (g : Generator A) (s t u : Search) (a : A)
      → s.use_debug_sequence ≡ false
      → generate max_depth g s ≡ some (some a, t)
      → IsReplay s.current_pos t.seq_map u
      → (u' : Search) × (generate max_depth g u ≡ some (some a, u'))
  unfolding generate
  replay_from (finished b) s t u a n e h =
      let same = generate-finished_inv b s t a e in (u, rw same.0 refl)
  replay_from (choose bound filter invalid_nums next) s t u a n e h =
      let (w, s', d, e') = generate-choose_inv bound filter invalid_nums next s t a e in
      let drawn_at = random_choice-IsDrawn max_depth bound filter invalid_nums s s' w n d in
      let kept =
        Records-generate (next w) s' t a s.current_pos w drawn_at.no_debug e'
          (omega (arith, drawn_at.pos_at))
          (rw drawn_at.seq_at (Records-add_number s.seq_map w s.current_pos)) in
      let (u', r, h') =
        random_choice-IsReplay max_depth bound filter invalid_nums s.current_pos w t.seq_map u h
          kept in
      let (u2, r2) = replay_from (next w) s' t u' a drawn_at.no_debug e' (rw drawn_at.pos_at h') in
      (u2, rw (generate, r) r2)
  replay_from (needs depth_needed g) s t u a n e h =
      let (kept, e') = generate-needs_inv depth_needed g s t a e in
      let (u', r) = replay_from g s t u a n e' h in
      let same = eager_backtracking_at max_depth depth_needed s kept u h.pos_at in
      (u', rw (generate, same) r)

  -- A program that a run has put out comes out again when the numbers of that run are given as the
  -- debugging sequence.
  pub generate-replay :
      (g : Generator A) (s t : Search) (a : A)
      → s.use_debug_sequence ≡ false
      → s.current_pos ≡ 0
      → generate max_depth g s ≡ some (some a, t)
      → (u : Search) × (generate max_depth g
            (record (make_search max_depth) { use_debug_sequence = true; seq_map = t.seq_map })
          ≡ some (some a, u))
  unfolding make_search
  generate-replay g s t a n z e =
      replay_from g s t
        (record (make_search max_depth) { use_debug_sequence = true; seq_map = t.seq_map }) a n e
        (record { debug = refl; no_error = refl; pos_at = sym z; seq_at = refl })
