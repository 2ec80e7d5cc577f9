-- ===== src/Contexts/Indices.antt =====
-- src/CGContext.cpp, `read_indices`: visiting the indices of an array.
use hipsmith.Prelude.{ℕ, List, [], ◌∷◌, Bool-cases, inl, inr}
use hipsmith.Variables.Store.{Store, containers, any_array}
use hipsmith.Effects.Defs.{Effect}
use hipsmith.Facts.Defs.{Fact}
use hipsmith.Facts.PointTo.{Specials, Risks}
use hipsmith.Contexts.Defs.{Context, Visit}
use hipsmith.Contexts.Checks.{visit_indices, read_indices_on, read_indices}
use hipsmith.Contexts.Race.{IsAround, IsSafe}

-- A visit of an expression leaves a safe context safe.
abbrev pub VisitKeeps :
    Store → Effect → (Expr : Type 0) → (Expr → List Fact → Context → Visit) → Type 0
VisitKeeps m around Expr visit_facts =
    (e : Expr) (facts : List Fact) (c : Context)
    → IsSafe m around c
    → IsSafe m around (visit_facts e facts c).context

module _ (m : Store) (s : Specials) (r : Risks) (depth : ℕ) {Expr : Type 0}
    (indices : ℕ → List Expr) (visit_facts : Expr → List Fact → Context → Visit) (height : ℕ → ℕ)
    (around : Effect) (env : IsAround m height depth around)
    (visits : VisitKeeps m around Expr visit_facts) where
  visit_indices-IsSafe :
      (es : List Expr) (facts : List Fact) (c : Context)
      → IsSafe m around c
      → IsSafe m around (visit_indices m s r depth indices visit_facts es facts c).context
  unfolding visit_indices
  visit_indices-IsSafe [] facts c safe = safe
  visit_indices-IsSafe (e ∷ es) facts c safe =
      let here = visits e facts c safe in
      let v = visit_facts e facts c in
      elim (Bool-cases v.done) [
        | inl y ↦ rw y (visit_indices-IsSafe es v.facts v.context here)
        | inr n ↦ rw n here
      ]

  read_indices_on-IsSafe :
      (vs : List ℕ) (facts : List Fact) (c : Context)
      → IsSafe m around c
      → IsSafe m around (read_indices_on m s r depth indices visit_facts vs facts c).context
  unfolding read_indices_on
  read_indices_on-IsSafe [] facts c safe = safe
  read_indices_on-IsSafe (v ∷ vs) facts c safe =
      let first = visit_indices m s r depth indices visit_facts (indices v) facts c in
      let here = visit_indices-IsSafe (indices v) facts c safe in
      let outer = read_indices_on-IsSafe vs facts first.context here in
      let skipped = read_indices_on-IsSafe vs facts c safe in
      elim (Bool-cases (m.is_array v)) [
        | inl y ↦ elim (Bool-cases first.passed) [
          | inl p ↦ rw (y, p) outer
          | inr n ↦ rw (y, n) here
        ]
        | inr n ↦ elim (Bool-cases (any_array m (v ∷ vs))) [
          | inl a ↦ rw (n, a) skipped
          | inr b ↦ rw (n, b) safe
        ]
      ]

  pub read_indices-IsSafe :
      (c : Context) (v : ℕ) (facts : List Fact)
      → IsSafe m around c
      → IsSafe m around (read_indices m s r depth indices visit_facts c v facts).context
  unfolding read_indices
  read_indices-IsSafe c v facts safe = read_indices_on-IsSafe (containers m v) facts c safe
