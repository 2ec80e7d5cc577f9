-- ===== src/Variables/Sets/Count.antt =====
-- Sets without duplicates: membership against size.
use hipsmith.Prelude.{
  ℕ, suc, ◌≤◌, ◌≡◌, refl, ◌≢◌, true, false, ◌||◌, List, [], ◌∷◌, ◌++◌, ◌==◌, if◌then◌else◌, length,
  elem, arith, Bool-cases, inl, inr,
}

abbrev pub NoDup : List ℕ → Type 0
NoDup [] = Unit
NoDup (x ∷ xs) = (elem x xs ≡ false) × NoDup xs

-- Every member of the first set is one of the second.
abbrev pub Included : List ℕ → List ℕ → Type 0
Included xs ys = (a : ℕ) → elem a xs ≡ true → elem a ys ≡ true

erase : ℕ → List ℕ → List ℕ
erase a [] = []
erase a (x ∷ xs) = if x == a then xs else x ∷ erase a xs

length-erase : (a : ℕ) (xs : List ℕ) → elem a xs ≡ true → suc (length (erase a xs)) ≡ length xs
unfolding erase
length-erase a [] h = cc
length-erase a (x ∷ xs) h = ground (arith, length-erase a xs)

elem-erase : (a b : ℕ) (xs : List ℕ) → a ≢ b → elem b xs ≡ true → elem b (erase a xs) ≡ true
unfolding erase
elem-erase a b [] n h = cc
elem-erase a b (x ∷ xs) n h = ground (arith, elem-erase a b xs)

pub length-Included : (xs ys : List ℕ) → NoDup xs → Included xs ys → length xs ≤ length ys
length-Included [] ys d i = omega arith
length-Included (x ∷ xs) ys d i =
    let here = i x (ground arith) in
    let rest =
      length-Included xs (erase x ys) d.1
        (λ a h. elem-erase x a ys (λ e. ground (arith, e, h, d.0)) (i a (ground (arith, h)))) in
    omega (arith, length-erase x ys here, rest)

-- A set without duplicates that fills another one has all of its members.
pub Included-full :
    (xs ys : List ℕ) → NoDup xs → Included xs ys → length ys ≤ length xs → Included ys xs
Included-full xs ys d i l a h = elim (Bool-cases (elem a xs)) [
  | inl e ↦ e
  | inr e ↦ absurd (
      omega (
        arith,
        length-Included (a ∷ xs) ys (e, d)
            (λ b hb. elim (Bool-cases (a == b)) [
              | inl s ↦ (let same : a ≡ b = ground (arith, s) in rw same at h)
              | inr n ↦ i b (ground (arith, hb, n))
            ]),
      ))
]

pub elem-append : (a : ℕ) (xs ys : List ℕ) → elem a (xs ++ ys) ≡ elem a xs || elem a ys
elem-append a [] ys = refl
elem-append a (x ∷ xs) ys = ground (arith, elem-append a xs ys)

pub NoDup-snoc : (xs : List ℕ) (a : ℕ) → NoDup xs → elem a xs ≡ false → NoDup (xs ++ a ∷ [])
NoDup-snoc [] a d h = (refl, tt)
NoDup-snoc (x ∷ xs) a d h =
    (ground (arith, elem-append x xs (a ∷ []), h, d.0), NoDup-snoc xs a d.1 (ground (arith, h)))
