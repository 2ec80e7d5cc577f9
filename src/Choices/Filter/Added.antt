-- ===== src/Choices/Filter/Added.antt =====
-- src/VectorFilter.cpp: what one more element of a filter changes.
use hipsmith.Prelude.{
  ℕ, ◌≡◌, refl, Bool, true, not, ◌||◌, ◌&&◌, some, [], ◌∷◌, ◌==◌, elem, if◌then◌else◌, arith,
  Bool-cases, Option-cases, inl, inr,
}
use hipsmith.Variables.Sets.{elem-append}
use hipsmith.Choices.Filter.{Mode, VectorFilter, valid_filter, add, lookup, filter}
use mathlib.Core.Option

elem-add :
    (f : VectorFilter) (item key : ℕ) → elem key (add f item).vs ≡ elem key f.vs || item == key
unfolding add
elem-add f item key = elim (Bool-cases (elem item f.vs)) [
  | inl e ↦ elim (Bool-cases (item == key)) [
    | inl s ↦ let same : item ≡ key = ground (arith, s) in ground (arith, e, s, rw same at e)
    | inr n ↦ ground (arith, e, n)
  ]
  | inr e ↦ ground (arith, e, elem-append key f.vs (item ∷ []))
]

-- Adding an element leaves the rest of the filter alone.
add_same :
    (o : Mode) (f : VectorFilter) (item v : ℕ)
    → (valid_filter o (add f item).kinds ≡ valid_filter o f.kinds)
      × (lookup o (add f item) v ≡ lookup o f v)
      × ((add f item).filter_out ≡ f.filter_out)
unfolding add lookup
add_same o f item v = elim (Bool-cases (elem item f.vs)) [
  | inl e ↦ rw e (refl, refl, refl)
  | inr e ↦ rw e (refl, refl, refl)
]

-- What the filter says of a key that it has looked up.
pub verdict : VectorFilter → ℕ → ℕ → Bool
verdict f item key =
    if f.filter_out then elem key f.vs || item == key else not (elem key f.vs) && not (item == key)

-- Adding an element to a filter that applies in the mode of the run changes what it says of the draws
-- that the element is looked up for: they are filtered out too, or, where the elements are the valid
-- ones, let through. What it says of all other draws is as it was.
pub filter-add :
    (o : Mode) (f : VectorFilter) (item v : ℕ)
    → valid_filter o f.kinds ≡ some true
    → filter o (add f item) v ≡ Option.map (verdict f item) (lookup o f v)
unfolding filter verdict
filter-add o f item v h =
    let (kinds, same, flag) = add_same o f item v in
    elim (Option-cases (lookup o f v)) [
      | inl n ↦ ground (arith, h, kinds, same, flag, n)
      | inr (key, e) ↦ ground (arith, h, kinds, same, flag, e, elem-add f item key)
    ]
