-- ===== src/Effects/Fields.antt =====
-- src/Effect.cpp: the queries about the fields of a variable, through all levels of nesting. The
-- recursion goes at most `depth` levels down.
use hipsmith.Prelude.{
  ℕ, zero, suc, ◌<◌, ◌≤◌, ◌≡◌, refl, Bool, true, false, ◌||◌, List, [], ◌∷◌, if◌then◌else◌, elem,
  arith,
}
use hipsmith.Variables.Store.{Store, IsStore, is_aggregate}
use hipsmith.Effects.Defs.{
  Effect, is_read, is_written, add_effect, sibling_union_field_is_read,
  sibling_union_field_is_written,
}
use hipsmith.Effects.Union.{add_effect_union}

unfoldable pub any_var : (ℕ → Bool) → List ℕ → Bool
any_var test [] = false
any_var test (v ∷ vs) = test v || any_var test vs

any_var_cong :
    (f g : ℕ → Bool) (vs : List ℕ)
    → ((v : ℕ) → elem v vs ≡ true → f v ≡ g v)
    → any_var f vs ≡ any_var g vs
unfolding any_var
any_var_cong f g [] h = refl
any_var_cong f g (v ∷ vs) h =
    let here = h v (ground arith) in
    let rest = any_var_cong f g vs (λ w i. h w (ground (arith, i))) in ground (arith, here, rest)

any_var_none :
    (f : ℕ → Bool) (vs : List ℕ) → ((v : ℕ) → elem v vs ≡ true → f v ≡ false) → any_var f vs ≡ false
unfolding any_var
any_var_none f [] h = refl
any_var_none f (v ∷ vs) h =
    let here = h v (ground arith) in
    ground (arith, here, any_var_none f vs (λ w i. h w (ground (arith, i))))

any_var-or :
    (f g h : ℕ → Bool) (vs : List ℕ)
    → ((v : ℕ) → f v ≡ g v || h v)
    → any_var f vs ≡ any_var g vs || any_var h vs
unfolding any_var
any_var-or f g h [] e = refl
any_var-or f g h (v ∷ vs) e = ground (arith, e v, any_var-or f g h vs e)

module _ (m : Store) where
  -- Whether a test holds of a field of `v`, or of a field of a field.
  unfoldable pub field_within : (ℕ → Bool) → ℕ → ℕ → Bool
  unfolding any_var is_aggregate
  field_within test zero v = false
  field_within test (suc depth) v =
      if is_aggregate (m.type v)
      then any_var (λ field_var. test field_var || field_within test depth field_var)
          (m.field_vars v)
      else false

  unfoldable pub field_is_read : ℕ → Effect → ℕ → Bool
  unfolding field_within
  field_is_read depth e v = field_within (is_read m e) depth v

  unfoldable pub field_is_written : ℕ → Effect → ℕ → Bool
  unfolding field_within
  field_is_written depth e v = field_within (is_written m e) depth v

  unfoldable pub is_read_partially : ℕ → Effect → ℕ → Bool
  unfolding field_is_read
  is_read_partially depth e v =
      is_read m e v || field_is_read depth e v || sibling_union_field_is_read m e v

  unfoldable pub is_written_partially : ℕ → Effect → ℕ → Bool
  unfolding field_is_written
  is_written_partially depth e v =
      is_written m e v || field_is_written depth e v || sibling_union_field_is_written m e v

  -- `height` says how deep the fields of a variable are nested.
  pub field_within_enough :
      (height : ℕ → ℕ) (test : ℕ → Bool)
      → ((v f : ℕ) → elem f (m.field_vars v) ≡ true → height f < height v)
      → (a b v : ℕ) → height v ≤ a
      → height v ≤ b
      → field_within test a v ≡ field_within test b v
  unfolding field_within
  field_within_enough height test low zero zero v ha hb = refl
  field_within_enough height test low zero (suc b) v ha hb =
      let no_field =
        any_var_none (λ f. test f || field_within test b f) (m.field_vars v)
          (λ f i. absurd (omega (arith, low v f i, ha))) in
      ground (arith, no_field)
  field_within_enough height test low (suc a) zero v ha hb =
      let no_field =
        any_var_none (λ f. test f || field_within test a f) (m.field_vars v)
          (λ f i. absurd (omega (arith, low v f i, hb))) in
      ground (arith, no_field)
  field_within_enough height test low (suc a) (suc b) v ha hb =
      let same =
        any_var_cong (λ f. test f || field_within test a f) (λ f. test f || field_within test b f)
          (m.field_vars v)
          (λ f i.
            let l = low v f i in
            let rest =
              field_within_enough height test low a b f (omega (arith, l, ha))
                (omega (arith, l, hb)) in
            ground (arith, rest)) in
      ground (arith, same)

  field_within-or :
      (f g h : ℕ → Bool) (depth v : ℕ)
      → ((w : ℕ) → f w ≡ g w || h w)
      → field_within f depth v ≡ field_within g depth v || field_within h depth v
  unfolding field_within
  field_within-or f g h zero v e = refl
  field_within-or f g h (suc depth) v e =
      let all =
        any_var-or (λ w. f w || field_within f depth w) (λ w. g w || field_within g depth w)
          (λ w. h w || field_within h depth w) (m.field_vars v)
          (λ w. ground (arith, e w, field_within-or f g h depth w e)) in
      ground (arith, all)

-- A depth that is at least the nesting of a variable's fields is enough: any two such depths give
-- the same answers. The nesting is a number for each variable, greater than those of its fields.
pub field_is_read_enough :
    (m : Store) (height : ℕ → ℕ) (e : Effect) (a b v : ℕ)
    → ((w f : ℕ) → elem f (m.field_vars w) ≡ true → height f < height w)
    → height v ≤ a
    → height v ≤ b
    → (field_is_read m a e v ≡ field_is_read m b e v)
      × (field_is_written m a e v ≡ field_is_written m b e v)
unfolding field_is_read field_is_written
field_is_read_enough m height e a b v low ha hb = (
  field_within_enough m height (is_read m e) low a b v ha hb,
  field_within_enough m height (is_written m e) low a b v ha hb,
)

-- Some field of a variable is read, or written, in the sum of two effects exactly when one is in one
-- of the two. The containers of variables are structs and unions that were created before them.
field_is_read-add_effect :
    (m : Store) (e f : Effect) (include_lhs_effects : Bool) (depth v : ℕ)
    → IsStore m
    → (field_is_read m depth (add_effect m e f include_lhs_effects) v
        ≡ field_is_read m depth e v || field_is_read m depth f v)
      × (field_is_written m depth (add_effect m e f include_lhs_effects) v
          ≡ field_is_written m depth e v || field_is_written m depth f v)
unfolding field_is_read field_is_written
field_is_read-add_effect m e f b depth v ok = (
  field_within-or m (is_read m (add_effect m e f b)) (is_read m e) (is_read m f) depth v
      (λ w. (add_effect_union m e f b w ok).0),
  field_within-or m (is_written m (add_effect m e f b)) (is_written m e) (is_written m f) depth v
      (λ w. (add_effect_union m e f b w ok).1),
)
