-- ===== src/SafeOps/Ids.antt =====
-- src/SafeOpFlags.cpp: the numbers of the wrappers.
use mathlib.Core.Path.{subst}
use hipsmith.Prelude.{
  ℕ, suc, ◌+◌, ◌≡◌, refl, ap, sym, ◌∙◌, true, false, none, some, List, [], ◌∷◌, ◌++◌, ◌==◌, length,
  length-append, get_elem?, arith, Bool-cases, Option-cases, inl, inr,
}
use mathlib.Core.Option.{some-injective}
use hipsmith.Expansion.Defs.{same_text}
use hipsmith.SafeOps.Defs.{find_id, to_id}

same_text-≡ : (s t : List ℕ) → same_text s t ≡ true → s ≡ t
unfolding same_text
same_text-≡ [] [] h = refl
same_text-≡ [] (d ∷ t) h = grind arith
same_text-≡ (c ∷ s) [] h = grind arith
same_text-≡ (c ∷ s) (d ∷ t) h =
    let e : c ≡ d = ground arith in
    let r : s ≡ t = same_text-≡ s t (ground arith) in ap (λ x. x ∷ s) e ∙ ap (λ x. d ∷ x) r

same_text_refl : (s : List ℕ) → same_text s s ≡ true
unfolding same_text
same_text_refl [] = refl
same_text_refl (c ∷ s) = let r = same_text_refl s in ground (arith, r)

find_id-cons :
    (n : List ℕ) (ns : List (List ℕ)) (a : List ℕ) (k : ℕ)
    → same_text n a ≡ true
    → find_id (n ∷ ns) a k ≡ some k
unfolding find_id
find_id-cons n ns a k h = rw h refl

find_id-later :
    (n : List ℕ) (ns : List (List ℕ)) (a : List ℕ) (k : ℕ)
    → same_text n a ≡ false
    → find_id (n ∷ ns) a k ≡ find_id ns a (suc k)
unfolding find_id
find_id-later n ns a k h = rw h refl

-- The number found is that of an entry that is the name.
find_id-entry :
    (ns : List (List ℕ)) (a : List ℕ) (k i : ℕ)
    → find_id ns a k ≡ some i
    → (j : ℕ) × (i ≡ k + j) × (get_elem? ns j ≡ some a)
unfolding find_id
find_id-entry [] a k i h = grind arith
find_id-entry (n ∷ ns) a k i h = elim (Bool-cases (same_text n a)) [
  | inl y ↦
      let e = some-injective k i (sym (find_id-cons n ns a k y) ∙ h) in
      (0, omega (arith, e), ap some (same_text-≡ n a y))
  | inr o ↦
      let (j, e, g) = find_id-entry ns a (suc k) i (sym (find_id-later n ns a k o) ∙ h) in
      (suc j, omega (arith, e), g)
]

-- A name that is not found is found at the end when it is added there.
find_id-added :
    (ns : List (List ℕ)) (a : List ℕ) (k : ℕ)
    → find_id ns a k ≡ none
    → find_id (ns ++ a ∷ []) a k ≡ some (k + length ns)
find_id-added [] a k h = find_id-cons a [] a k (same_text_refl a) ∙ ap some (omega arith)
find_id-added (n ∷ ns) a k h = elim (Bool-cases (same_text n a)) [
  | inl y ↦ let bad = sym (find_id-cons n ns a k y) ∙ h in grind (arith, bad)
  | inr o ↦
      find_id-later n (ns ++ a ∷ []) a k o
      ∙ find_id-added ns a (suc k) (sym (find_id-later n ns a k o) ∙ h)
      ∙ ap some (omega arith)
]

-- A name that is found stays where it is.
find_id-kept :
    (ns ms : List (List ℕ)) (a : List ℕ) (k i : ℕ)
    → find_id ns a k ≡ some i
    → find_id (ns ++ ms) a k ≡ some i
unfolding find_id
find_id-kept [] ms a k i h = grind arith
find_id-kept (n ∷ ns) ms a k i h = elim (Bool-cases (same_text n a)) [
  | inl y ↦ find_id-cons n (ns ++ ms) a k y ∙ sym (find_id-cons n ns a k y) ∙ h
  | inr o ↦
      find_id-later n (ns ++ ms) a k o
      ∙ find_id-kept ns ms a (suc k) i (sym (find_id-later n ns a k o) ∙ h)
]

to_id-known :
    (a : List ℕ) (ns : List (List ℕ)) (i : ℕ) → find_id ns a 1 ≡ some i → to_id a ns ≡ (i, ns)
unfolding to_id
to_id-known a ns i h = rw (to_id, h) refl

to_id-new :
    (a : List ℕ) (ns : List (List ℕ))
    → find_id ns a 1 ≡ none
    → to_id a ns ≡ (length (ns ++ a ∷ []), ns ++ a ∷ [])
unfolding to_id
to_id-new a ns h = rw (to_id, h) refl

to_id-find : (a : List ℕ) (ns : List (List ℕ)) → find_id (to_id a ns).1 a 1 ≡ some (to_id a ns).0
to_id-find a ns = elim (Option-cases (find_id ns a 1)) [
  | inl n ↦
      let added = find_id-added ns a 1 n in
      let size : 1 + length ns ≡ length (ns ++ a ∷ []) = omega (arith, length-append ns (a ∷ [])) in
      subst (λ r. find_id r.1 a 1 ≡ some r.0) (sym (to_id-new a ns n)) (added ∙ ap some size)
  | inr (i, e) ↦ subst (λ r. find_id r.1 a 1 ≡ some r.0) (sym (to_id-known a ns i e)) e
]

to_id-kept :
    (b : List ℕ) (ns : List (List ℕ)) (a : List ℕ) (i : ℕ)
    → find_id ns a 1 ≡ some i
    → find_id (to_id b ns).1 a 1 ≡ some i
to_id-kept b ns a i h = elim (Option-cases (find_id ns b 1)) [
  | inl n ↦
      subst (λ r. find_id r.1 a 1 ≡ some i) (sym (to_id-new b ns n))
        (find_id-kept ns (b ∷ []) a 1 i h)
  | inr (j, e) ↦ subst (λ r. find_id r.1 a 1 ≡ some i) (sym (to_id-known b ns j e)) h
]

-- The names after more calls.
unfoldable pub known_after : List (List ℕ) → List (List ℕ) → List (List ℕ)
unfolding to_id
known_after [] ns = ns
known_after (b ∷ bs) ns = known_after bs (to_id b ns).1

known_after-kept :
    (bs ns : List (List ℕ)) (a : List ℕ) (i : ℕ)
    → find_id ns a 1 ≡ some i
    → find_id (known_after bs ns) a 1 ≡ some i
unfolding known_after
known_after-kept [] ns a i h = h
known_after-kept (b ∷ bs) ns a i h = known_after-kept bs (to_id b ns).1 a i (to_id-kept b ns a i h)

-- Names that are found at the same number are the same.
find_id-same :
    (ns : List (List ℕ)) (a b : List ℕ) (i i' : ℕ)
    → find_id ns a 1 ≡ some i
    → find_id ns b 1 ≡ some i'
    → (i == i') ≡ same_text a b
find_id-same ns a b i i' h h' = elim (Bool-cases (same_text a b)) [
  | inl y ↦
      let e : i ≡ i' =
        some-injective i i' (sym h ∙ ap (λ t. find_id ns t 1) (same_text-≡ a b y) ∙ h') in
      grind (arith, e, y)
  | inr n ↦ elim (Bool-cases (i == i')) [
    | inl y ↦
        let (j, e, g) = find_id-entry ns a 1 i h in
        let (j', e', g') = find_id-entry ns b 1 i' h' in
        let q : i ≡ i' = ground (arith, y) in
        let d : j ≡ j' = omega (arith, e, e', q) in
        let t : a ≡ b = some-injective a b (sym g ∙ ap (get_elem? ns) d ∙ g') in
        let bad : same_text a b ≡ true = ap (λ s. same_text a s) (sym t) ∙ same_text_refl a in
        grind (arith, bad, n)
    | inr o ↦ o ∙ sym n
  ]
]

-- However many names are numbered in between, two calls of to_id give the same number exactly for the
-- same name.
pub to_id-same_text :
    (a b : List ℕ) (between wrapper_names : List (List ℕ))
    → ((to_id a wrapper_names).0 == (to_id b (known_after between (to_id a wrapper_names).1)).0)
      ≡ same_text a b
to_id-same_text a b between ns =
    let ns' = known_after between (to_id a ns).1 in
    find_id-same (to_id b ns').1 a b (to_id a ns).0 (to_id b ns').0
      (to_id-kept b ns' a (to_id a ns).0
        (known_after-kept between (to_id a ns).1 a (to_id a ns).0 (to_id-find a ns)))
      (to_id-find b ns')
