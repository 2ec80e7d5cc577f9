-- ===== src/Variables/Contains.antt =====
-- src/Variable.cpp, `match`: containment at any depth.
use hipsmith.Prelude.{ℕ, suc, ◌≡◌, ◌↔◌, ◌∙◌, sym, true, some, none, arith, inl, inr}
use hipsmith.Variables.Store.{Store, IsStore, matches}
use hipsmith.Variables.Chain.{containers_ind, Within, Within-refl, Within-step, Within-cases}
use hipsmith.Variables.Match.{matches_lem}
use mathlib.Core.Path.{subst}

-- `a` is `b`, or the container of `b` is within `a`.
pub data Contains (m : Store) (a : ℕ) : ℕ → Type 0 where
  itself : Contains m a a
  field : {v u : ℕ} → m.field_var_of v ≡ some u → Contains m a u → Contains m a v

module _ (m : Store) (ok : IsStore m) where
  Contains-Within : {a b : ℕ} → Contains m a b → Within m ok a b
  Contains-Within {a = a} itself = Within-refl m ok a
  Contains-Within {a = a} (field {v = v} {u = u} e h) = Within-step m ok a v u e (Contains-Within h)

  Within-Contains : (a b : ℕ) → Within m ok a b → Contains m a b
  Within-Contains a b =
      containers_ind m ok (λ w. Within m ok a w → Contains m a w) base step (suc b) b (omega arith)
    where
      base : (w : ℕ) → m.field_var_of w ≡ none → Within m ok a w → Contains m a w
      base w e h = elim (Within-cases m ok a w h) [
        | inl s ↦ subst (Contains m a) s itself
        | inr (u, e', _) ↦ absurd (ground (arith, e, e'))
      ]

      step :
          (w u : ℕ)
          → m.field_var_of w ≡ some u
          → (Within m ok a u → Contains m a u)
          → Within m ok a w
          → Contains m a w
      step w u e ih h = elim (Within-cases m ok a w h) [
        | inl s ↦ subst (Contains m a) s itself
        | inr (u', e', h') ↦
            let same : u' ≡ u = ground (arith, e, e') in field e (ih (rw same at h'))
      ]

  -- `a.match(b)` holds exactly where `a` is `b` or contains it, through any number of levels. The
  -- containers of variables are structs and unions that were created before them, and what has a
  -- container has a type.
  pub matches-Contains : (a b : ℕ) → (matches m a b ≡ true) ↔ Contains m a b
  matches-Contains a b = (
    λ h. Within-Contains a b (sym (matches_lem m ok a b) ∙ h),
    λ c. matches_lem m ok a b ∙ Contains-Within c,
  )
