-- ===== src/Effects/Consolidate.antt =====
-- src/Effect.cpp, `consolidate`, on the variables that are written.
use hipsmith.Prelude.{
  ℕ, suc, ◌≤◌, ◌≡◌, refl, ap, ◌∙◌, true, false, ◌||◌, List, [], ◌∷◌, ◌++◌, elem, arith, Bool-cases,
  Option-cases, inl, inr, ◌==◌, some, none,
}
use mathlib.Core.List.{append_assoc, append-nil}
use hipsmith.Variables.Store.{Store, IsStore, containers}
use hipsmith.Variables.Sets.{elem-append}
use hipsmith.Variables.Chain.{containers_ind, Within, Within-cases, Within-trans, Within-step}
use hipsmith.Effects.Defs.{Effect, is_written, written_on, consolidate_on, consolidate}
use hipsmith.Effects.Walk.{written_on-cons, written_on-nil, written_on_witness, written_on_intro}

module _ (m : Store) (ok : IsStore m) where
  Within-le : (a v : ℕ) → Within m ok a v → a ≤ v
  Within-le a v =
      containers_ind m ok (λ w. Within m ok a w → a ≤ w) base step (suc v) v (omega arith)
    where
      base : (w : ℕ) → m.field_var_of w ≡ none → Within m ok a w → a ≤ w
      base w e h = elim (Within-cases m ok a w h) [
        | inl s ↦ omega (arith, s)
        | inr (u, e', _) ↦ ground (arith, e, e')
      ]

      step :
          (w u : ℕ)
          → m.field_var_of w ≡ some u
          → (Within m ok a u → a ≤ u)
          → Within m ok a w
          → a ≤ w
      step w u e ih h = elim (Within-cases m ok a w h) [
        | inl s ↦ omega (arith, s)
        | inr (u', e', h') ↦
            let same : u' ≡ u = ground (arith, e, e') in
            let below = ih (rw same at h') in let less = ok.earlier w u e in omega arith
      ]

  written_on-append :
      (xs ys c : List ℕ) → written_on m (xs ++ ys) c ≡ written_on m xs c || written_on m ys c
  written_on-append [] ys c = ground (arith, written_on-nil m c)
  written_on-append (x ∷ xs) ys c =
      ground (
        arith,
        written_on-append xs ys c,
        written_on-cons m x (xs ++ ys) c,
        written_on-cons m x xs c,
      )

  -- An element whose container is covered by the set adds nothing to it.
  written_on_drop :
      (kept vs : List ℕ) (v p u : ℕ)
      → m.field_var_of v ≡ some p
      → written_on m (kept ++ v ∷ vs) (containers m p) ≡ true
      → written_on m (kept ++ v ∷ vs) (containers m u) ≡ written_on m (kept ++ vs) (containers m u)
  written_on_drop kept vs v p u e c = elim (Bool-cases (elem v (containers m u))) [
    | inl h ↦
        let (w, a, b) = written_on_witness m (kept ++ v ∷ vs) (containers m p) c in
        let low = Within-le w p b in
        let less = ok.earlier v p e in
        let other : (v == w) ≡ false = ground arith in
        let there : elem w (kept ++ vs) ≡ true =
          ground (arith, a, other, elem-append w kept (v ∷ vs), elem-append w kept vs) in
        let inside = Within-trans m ok w v u (Within-step m ok w v p e b) h in
        ground (
          arith,
          written_on-append kept (v ∷ vs) (containers m u),
          written_on-cons m v vs (containers m u),
          h,
          written_on_intro m (kept ++ vs) (containers m u) w there inside,
        )
    | inr n ↦ ground (
      arith,
      n,
      written_on-append kept (v ∷ vs) (containers m u),
      written_on-append kept vs (containers m u),
      written_on-cons m v vs (containers m u),
    )
  ]

  written_on-consolidate_on :
      (kept vs : List ℕ) (u : ℕ)
      → written_on m (consolidate_on m (written_on m) kept vs) (containers m u)
        ≡ written_on m (kept ++ vs) (containers m u)
  unfolding consolidate_on
  written_on-consolidate_on kept [] u = rw append-nil refl
  written_on-consolidate_on kept (v ∷ vs) u =
      let keep =
        written_on-consolidate_on (kept ++ v ∷ []) vs u
        ∙ ap (λ xs. written_on m xs (containers m u)) (append_assoc kept (v ∷ []) vs) in
      let drop = written_on-consolidate_on kept vs u in
      elim (Option-cases (m.field_var_of v)) [
        | inl e ↦ rw (e, consolidate_on) keep
        | inr (p, e) ↦ elim (Bool-cases (written_on m (kept ++ v ∷ vs) (containers m p))) [
          | inl c ↦ ground (arith, e, c, drop, written_on_drop kept vs v p u e c)
          | inr n ↦ ground (arith, e, n, keep)
        ]
      ]

-- `consolidate` drops only variables that stay written through a container: every variable is written
-- afterwards exactly when it was before. The containers of variables are structs and unions that were
-- created before them.
pub is_written-consolidate :
    (m : Store) (e : Effect) (u : ℕ)
    → IsStore m
    → is_written m (consolidate m e) u ≡ is_written m e u
unfolding is_written consolidate
is_written-consolidate m e u ok = written_on-consolidate_on m ok [] e.write_vars u
