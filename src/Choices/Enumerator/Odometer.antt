-- ===== src/Choices/Enumerator/Odometer.antt =====
-- src/Enumerator.h: the combination of values as a number, the last object being the lowest digit.
use hipsmith.Prelude.{
  ℕ, zero, suc, ◌+◌, ◌*◌, ◌<◌, ◌≤◌, ◌≡◌, refl, ap, true, Option, none, some, List, [], ◌∷◌,
  if◌then◌else◌, length, drop, arith, Option-cases, inl, inr,
}
use hipsmith.Choices.Enumerator.{
  EnumObject, bump, can_bump, clear_value, clear_all, advance_at, roll_back,
}

-- How many combinations there are, and the place of the one that is set.
unfoldable pub total : List EnumObject → ℕ
total [] = 1
total (x ∷ xs) = x.bound * total xs

unfoldable pub place : List EnumObject → ℕ
unfolding total
place [] = 0
place (x ∷ xs) = x.current_value * total xs + place xs

-- Every value is below its bound.
abbrev pub AllGood : List EnumObject → Type 0
AllGood [] = Unit
AllGood (x ∷ xs) = (x.current_value < x.bound) × AllGood xs

-- The last object that can advance does so, and the objects after it start again.
unfoldable pub increment : List EnumObject → Option (List EnumObject)
unfolding bump can_bump clear_all
increment [] = none
increment (x ∷ xs) = elim (increment xs) [
  | some ys ↦ some (x ∷ ys)
  | none ↦ if can_bump x then some (bump x ∷ clear_all xs) else none
]

pub increment-advance_at :
    (i : ℕ) (xs ys : List EnumObject)
    → increment (drop (suc i) xs) ≡ none
    → advance_at i xs ≡ some ys
    → increment xs ≡ some ys
unfolding increment advance_at
increment-advance_at i [] ys d h = absurd (ground (arith, h))
increment-advance_at zero (x ∷ xs) ys d h = ground (arith, d, h)
increment-advance_at (suc i) (x ∷ xs) ys d h = elim (Option-cases (advance_at i xs)) [
  | inl n ↦ absurd (ground (arith, n, h))
  | inr (zs, e) ↦ ground (arith, e, h, increment-advance_at i xs zs d e)
]

pub increment_stuck :
    (i : ℕ) (xs : List EnumObject)
    → i < length xs
    → increment (drop (suc i) xs) ≡ none
    → advance_at i xs ≡ none
    → increment (drop i xs) ≡ none
unfolding increment advance_at
increment_stuck i [] l d h = absurd (omega (arith, l))
increment_stuck zero (x ∷ xs) l d h = ground (arith, d, h)
increment_stuck (suc i) (x ∷ xs) l d h = elim (Option-cases (advance_at i xs)) [
  | inl n ↦ increment_stuck i xs (omega (arith, l)) d n
  | inr (zs, e) ↦ absurd (ground (arith, e, h))
]

-- Rolling back from a position after which nothing can advance is the increment.
pub roll_back-increment :
    (i : ℕ) (xs : List EnumObject)
    → i < length xs
    → increment (drop (suc i) xs) ≡ none
    → roll_back i xs ≡ increment xs
unfolding roll_back
roll_back-increment zero xs l d = elim (Option-cases (advance_at zero xs)) [
  | inl n ↦ ground (arith, n, increment_stuck zero xs l d n)
  | inr (ys, e) ↦ ground (arith, e, increment-advance_at zero xs ys d e)
]
roll_back-increment (suc i) xs l d = elim (Option-cases (advance_at (suc i) xs)) [
  | inl n ↦
      let down = increment_stuck (suc i) xs l d n in
      ground (arith, n, roll_back-increment i xs (omega (arith, l)) down)
  | inr (ys, e) ↦ ground (arith, e, increment-advance_at (suc i) xs ys d e)
]

clear_all-place :
    (xs : List EnumObject) → (total (clear_all xs) ≡ total xs) × (place (clear_all xs) ≡ 0)
unfolding total place clear_all clear_value
clear_all-place [] = (refl, refl)
clear_all-place (x ∷ xs) = let (t, p) = clear_all-place xs in (rw t refl, rw (t, p) (omega arith))

clear_all-AllGood : (xs : List EnumObject) → AllGood xs → AllGood (clear_all xs)
unfolding clear_all clear_value
clear_all-AllGood [] g = tt
clear_all-AllGood (x ∷ xs) g = (omega (arith, g.0), clear_all-AllGood xs g.1)

scale : (a t : ℕ) → (a + 1) * t ≡ a * t + t
scale a t = grind arith

scale_le : (a b t : ℕ) → a ≤ b → a * t ≤ b * t
scale_le a b t h = grind arith

pub increment-none :
    (xs : List EnumObject) → AllGood xs → increment xs ≡ none → place xs + 1 ≡ total xs
unfolding increment total place can_bump
increment-none [] g h = refl
increment-none (x ∷ xs) g h = elim (Option-cases (increment xs)) [
  | inr (ys, e) ↦ absurd (ground (arith, e, h))
  | inl n ↦
      let rest = increment-none xs g.1 n in
      let at_end : x.current_value + 1 ≡ x.bound = ground (arith, n, h, g.0) in
      rw (← at_end) (omega (arith, rest, scale x.current_value (total xs)))
]

-- What the increment leaves: all values are good, and the combination is the next one.
pub record Incremented (xs ys : List EnumObject) : Type 0 where
  pub good : AllGood ys
  pub one_more : place ys ≡ place xs + 1
  pub same_total : total ys ≡ total xs
  pub same_length : length ys ≡ length xs

length-clear_all : (xs : List EnumObject) → length (clear_all xs) ≡ length xs
unfolding clear_all
length-clear_all [] = refl
length-clear_all (x ∷ xs) = ap suc (length-clear_all xs)

pub increment-Incremented :
    (xs ys : List EnumObject) → AllGood xs → increment xs ≡ some ys → Incremented xs ys
unfolding increment total place can_bump bump
increment-Incremented [] ys g h = absurd (ground (arith, h))
increment-Incremented (x ∷ xs) ys g h = elim (Option-cases (increment xs)) [
  | inr (zs, e) ↦
      let rest = increment-Incremented xs zs g.1 e in
      let is_ys : x ∷ zs ≡ ys = ground (arith, e, h) in
      rw (← is_ys) (record {
        good = (g.0, rest.good);
        one_more = rw rest.same_total (omega (arith, rest.one_more));
        same_total = rw rest.same_total refl;
        same_length = ap suc rest.same_length;
      })
  | inl n ↦
      let can : can_bump x ≡ true = ground (arith, n, h) in
      let is_ys : bump x ∷ clear_all xs ≡ ys = ground (arith, n, can, h) in
      let (t, p) = clear_all-place xs in
      let rest = increment-none xs g.1 n in
      rw (← is_ys) (record {
        good = (ground (arith, can), clear_all-AllGood xs g.1);
        one_more = rw (t, p) (omega (arith, rest, scale x.current_value (total xs)));
        same_total = rw t refl;
        same_length = ap suc (length-clear_all xs);
      })
]

-- Every combination has a place below the number of combinations.
pub place_bound : (xs : List EnumObject) → AllGood xs → place xs < total xs
unfolding total place
place_bound [] g = omega arith
place_bound (x ∷ xs) g =
    let rest = place_bound xs g.1 in
    let up = scale_le (x.current_value + 1) x.bound (total xs) (omega (arith, g.0)) in
    omega (arith, rest, up, scale x.current_value (total xs))
