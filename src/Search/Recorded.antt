-- ===== src/Search/Recorded.antt =====
-- src/LinearSequence.cpp: the numbers that a sequence has.
use hipsmith.Prelude.{
  ℕ, ◌≡◌, ◌≢◌, refl, ap, sym, false, List, [], ◌∷◌, ◌==◌, arith, Bool-cases, inl, inr, ◌⊎◌,
}
use hipsmith.Search.Sequence.{add_number, get_number_by_pos}

-- The sequence has the number `v` at the position `k`.
abbrev pub Records : List (ℕ × ℕ) → ℕ → ℕ → Type 0
Records m k v = ((get_number_by_pos m k).0 ≡ v) × ((get_number_by_pos m k).1 ≡ m)

Records-here : (b : ℕ × ℕ) (m : List (ℕ × ℕ)) (k : ℕ) → b.0 ≡ k → Records (b ∷ m) k b.1
unfolding get_number_by_pos
Records-here b m k e = (ground (arith, e), ground (arith, e))

Records-later :
    (b : ℕ × ℕ) (m : List (ℕ × ℕ)) (k v : ℕ) → b.0 ≢ k → Records m k v → Records (b ∷ m) k v
unfolding get_number_by_pos
Records-later b m k v n (e, f) =
    let apart : (b.0 == k) ≡ false = ground (arith, n) in
    (rw apart e, rw apart (ap (λ xs. b ∷ xs) f))

Records-cons :
    (b : ℕ × ℕ) (m : List (ℕ × ℕ)) (k v : ℕ)
    → Records (b ∷ m) k v
    → ((b.0 ≡ k) × (b.1 ≡ v)) ⊎ ((b.0 ≢ k) × Records m k v)
unfolding get_number_by_pos
Records-cons b m k v (e, f) = elim (Bool-cases (b.0 == k)) [
  | inl y ↦ inl (ground (arith, y), ground (arith, y, e))
  | inr n ↦
      let e' = rw n at e in
      let f' = rw n at f in
      let tails : (get_number_by_pos m k).1 ≡ m = cc in
      inr ((λ x. ground (arith, n, x)), (e', tails))
]

-- A number that is added is there, and the others stay.
pub Records-add_number : (m : List (ℕ × ℕ)) (v k : ℕ) → Records (add_number m v k) k v
unfolding add_number
Records-add_number [] v k = Records-here (k, v) [] k refl
Records-add_number (b ∷ m) v k = elim (Bool-cases (b.0 == k)) [
  | inl y ↦ rw y (Records-here (k, v) m k refl)
  | inr n ↦ rw n (
      Records-later b (add_number m v k) k v (λ x. ground (arith, n, x)) (Records-add_number m v k))
]

pub Records-add_number_other :
    (m : List (ℕ × ℕ)) (v w j k : ℕ) → j ≢ k → Records m j v → Records (add_number m w k) j v
unfolding add_number get_number_by_pos
Records-add_number_other [] v w j k n r = cc
Records-add_number_other (b ∷ m) v w j k n r = elim (Records-cons b m j v r) [
  | inl (e, f) ↦
      let apart : (b.0 == k) ≡ false = ground (arith, n, e) in
      rw (apart, ← f) (Records-here b (add_number m w k) j e)
  | inr (d, r') ↦ elim (Bool-cases (b.0 == k)) [
    | inl y ↦ rw y (Records-later (k, w) m j v (λ x. n (sym x)) r')
    | inr y ↦
        rw y (Records-later b (add_number m w k) j v d (Records-add_number_other m v w j k n r'))
  ]
]
