-- ===== src/Choices/Enumerator/Steps.antt =====
-- src/Enumerator.h: `next` counts through all combinations.
use hipsmith.Prelude.{
  ℕ, zero, suc, ◌+◌, ◌-◌, ◌<◌, ◌≡◌, refl, ap, ◌∙◌, ◌⊎◌, none, some, List, [], ◌∷◌, if◌then◌else◌,
  length, drop, get_elem?, set, arith, Bool-cases, Option-cases, inl, inr,
}
use hipsmith.Choices.Enumerator.{
  EnumObject, Enumerator, bump, can_bump, reset_changed, reset_all_changed, advance_at, reset_pos,
  Step, moved, finished, failed, moved_to, next_within, next,
}
use hipsmith.Choices.Enumerator.Odometer.{
  total, place, place_bound, AllGood, increment, increment-advance_at, increment_stuck,
  roll_back-increment, increment-none, increment-Incremented,
}

-- At least two objects, every value below its bound, and the iterators at the last two objects.
pub record IsReady (e : Enumerator) : Type 0 where
  pub two : 1 < length e.objs
  pub good : AllGood e.objs
  pub at_last : e.forward_pos ≡ length e.objs - 1
  pub before_last : e.backward_pos ≡ length e.objs - 2

reset_place :
    (xs : List EnumObject)
    → (total (reset_all_changed xs) ≡ total xs)
      × (place (reset_all_changed xs) ≡ place xs)
      × (length (reset_all_changed xs) ≡ length xs)
unfolding total place reset_all_changed reset_changed
reset_place [] = (refl, refl, refl)
reset_place (x ∷ xs) = let (t, p, l) = reset_place xs in (rw t refl, rw (t, p) refl, ap suc l)

reset-AllGood : (xs : List EnumObject) → AllGood xs → AllGood (reset_all_changed xs)
unfolding reset_all_changed reset_changed
reset-AllGood [] g = tt
reset-AllGood (x ∷ xs) g = (g.0, reset-AllGood xs g.1)

-- The last object stands at the last position, and advancing it is advancing at that position.
last_object :
    (i : ℕ) (xs : List EnumObject)
    → i + 1 ≡ length xs
    → (x : EnumObject) × (get_elem? xs i ≡ some x)
      × (increment (drop (suc i) xs) ≡ none)
      × (advance_at i xs ≡ (if can_bump x then some (set xs i (bump x)) else none))
unfolding advance_at increment
last_object i [] e = absurd (omega (arith, e))
last_object zero (x ∷ []) e = (x, refl, refl, refl)
last_object zero (x ∷ y ∷ ys) e = absurd (omega (arith, e))
last_object (suc i) (x ∷ xs) e =
    let (y, at, last, adv) = last_object i xs (omega (arith, e)) in
    (y, at, last, ground (arith, adv))

reset_pos_ready :
    (e : Enumerator) (objs : List EnumObject)
    → IsReady e
    → length objs ≡ length e.objs
    → moved_to (reset_pos (record e { objs = objs })) ≡ moved (record e { objs = objs })
unfolding reset_pos moved_to
reset_pos_ready e objs ok l = ground (arith, l, ok.two, ok.at_last, ok.before_last)

-- What `next` does with the objects whose flags are reset: the increment of the combination.
next_within-increment :
    (calls : ℕ) (e : Enumerator)
    → IsReady e
    → next_within (suc calls) e ≡ elim (increment (reset_all_changed e.objs)) [
      | none ↦ finished
      | some objs ↦ moved (record e { objs = objs })
    ]
unfolding next_within
next_within-increment calls e ok =
    let objs = reset_all_changed e.objs in
    let (t, p, l) = reset_place e.objs in
    let at_end : e.forward_pos + 1 ≡ length objs = omega (arith, l, ok.two, ok.at_last) in
    let (x, at, last, adv) = last_object e.forward_pos objs at_end in
    elim (Bool-cases (can_bump x)) [
      | inl can ↦
          let up =
            increment-advance_at e.forward_pos objs (set objs e.forward_pos (bump x)) last
              (ground (arith, adv, can)) in
          ground (arith, at, can, up)
      | inr cannot ↦
          let stuck =
            increment_stuck e.forward_pos objs (omega (arith, at_end)) last
              (ground (arith, adv, cannot)) in
          let before : suc e.backward_pos ≡ e.forward_pos =
            omega (arith, ok.two, ok.at_last, ok.before_last) in
          let back =
            roll_back-increment e.backward_pos objs (omega (arith, before, at_end))
              (rw before stuck) in
          elim (Option-cases (increment objs)) [
            | inl n ↦ ground (arith, at, cannot, at_end, back, n)
            | inr (ys, up) ↦
                let inc = increment-Incremented objs ys (reset-AllGood e.objs ok.good) up in
                let reset = reset_pos_ready e ys ok (inc.same_length ∙ l) in
                ground (arith, at, cannot, at_end, back, up, reset)
          ]
    ]

-- Where the iterators stand at the last two objects and every value is below its bound, `next` goes
-- to the combination one place further, and the iterators and the bounds stay as they have to be.
-- It ends exactly at the last one of all combinations.
pub next-place :
    (e : Enumerator)
    → IsReady e
    → ((e' : Enumerator) × (next e ≡ moved e')
        × IsReady e'
        × (place e'.objs ≡ place e.objs + 1)
        × (total e'.objs ≡ total e.objs))
      ⊎ ((next e ≡ finished) × (place e.objs + 1 ≡ total e.objs))
unfolding next
next-place e ok =
    let objs = reset_all_changed e.objs in
    let (t, p, l) = reset_place e.objs in
    let good = reset-AllGood e.objs ok.good in
    let step = next_within-increment 1 e ok in
    elim (Option-cases (increment objs)) [
      | inl n ↦
          let last = increment-none objs good n in
          inr (ground (arith, step, n), omega (arith, last, t, p))
      | inr (ys, up) ↦
          let inc = increment-Incremented objs ys good up in
          inl (
            record e { objs = ys },
            ground (arith, step, up),
            record {
              two = omega (arith, inc.same_length, l, ok.two);
              good = inc.good;
              at_last = omega (arith, inc.same_length, l, ok.at_last);
              before_last = omega (arith, inc.same_length, l, ok.before_last);
            },
            omega (arith, inc.one_more, p),
            inc.same_total ∙ t,
          )
    ]

-- `n` calls of `next`.
unfoldable pub iterate : ℕ → Enumerator → Step
unfolding next
iterate zero e = moved e
iterate (suc n) e = elim (next e) [
  | moved e' ↦ iterate n e'
  | finished ↦ finished
  | failed ↦ failed
]

-- An enumeration ends: after as many calls of `next` as there are combinations after the first one
-- it stands at the last one, and the call after that one says so.
pub iterate_ends :
    (n : ℕ) (e : Enumerator)
    → IsReady e
    → place e.objs + n + 1 ≡ total e.objs
    → (e' : Enumerator) × (iterate n e ≡ moved e') × (next e' ≡ finished)
unfolding iterate
iterate_ends zero e ok h = elim (next-place e ok) [
  | inr (f, last) ↦ (e, refl, f)
  | inl (e', m, ok', p, t) ↦ absurd (omega (arith, h, p, t, place_bound e'.objs ok'.good))
]
iterate_ends (suc n) e ok h = elim (next-place e ok) [
  | inr (f, last) ↦ absurd (omega (arith, h, last))
  | inl (e', m, ok', p, t) ↦
      let (e2, run, stop) = iterate_ends n e' ok' (omega (arith, h, p, t)) in
      (e2, ground (arith, m, run), stop)
]
