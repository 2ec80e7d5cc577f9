-- ===== src/Contexts/Nested.antt =====
-- The fields of variables, and what `is_written_partially` of src/Effect.cpp says of the variables
-- that an effect meets.
use hipsmith.Prelude.{
  ℕ, suc, ◌+◌, ◌-◌, ◌<◌, ◌≤◌, ◌≡◌, ◌≢◌, refl, Bool, true, false, ◌||◌, Option, none, some, List, [],
  ◌∷◌, ◌==◌, elem, arith, Bool-cases, ◌⊎◌, inl, inr,
}
use hipsmith.Variables.Store.{
  Store, IsStore, TypeDesc, simple, pointer, struct, union, containers, is_aggregate, is_struct,
  is_union, matches, first_union,
}
use hipsmith.Variables.Chain.{containers_ind, Within, Within-cases, Within-refl}
use hipsmith.Variables.Match.{matches_lem}
use hipsmith.Effects.Defs.{Effect, is_written, meets}
use hipsmith.Effects.Walk.{written_on_intro}
use hipsmith.Effects.Fields.{any_var, field_within, field_within_enough, is_written_partially}

-- The fields of a variable are those that name it as their container, `height` counts their nesting,
-- and no union is the field of another variable.
pub record IsNested (m : Store) (height : ℕ → ℕ) : Type 0 where
  pub listed : (v u : ℕ) → m.field_var_of v ≡ some u → elem v (m.field_vars u) ≡ true
  pub lower : (v f : ℕ) → elem f (m.field_vars v) ≡ true → height f < height v
  pub outermost : (v u : ℕ) → m.field_var_of v ≡ some u → is_union (m.type v) ≡ false

any_var_intro :
    (test : ℕ → Bool) (vs : List ℕ) (v : ℕ)
    → elem v vs ≡ true
    → test v ≡ true
    → any_var test vs ≡ true
unfolding any_var
any_var_intro test [] v e h = cc
any_var_intro test (x ∷ xs) v e h = elim (Bool-cases (x == v)) [
  | inl s ↦ let same : x ≡ v = ground (arith, s) in rw same (ground (arith, h))
  | inr n ↦ ground (arith, any_var_intro test xs v (ground (arith, n, e)) h)
]

pub first_union-some :
    (m : Store) (c : List ℕ) (w : ℕ) → first_union m c ≡ some w → is_union (m.type w) ≡ true
unfolding first_union
first_union-some m [] w h = cc
first_union-some m (x ∷ xs) w h = elim (Bool-cases (is_union (m.type x))) [
  | inl y ↦ let same : x ≡ w = ground (arith, y, h) in rw (← same) y
  | inr n ↦ first_union-some m xs w (ground (arith, n, h))
]

pub struct_or_union :
    (t : Option TypeDesc) → is_aggregate t ≡ true → (is_struct t ≡ true) ⊎ (is_union t ≡ true)
unfolding is_aggregate is_struct is_union
struct_or_union none h = cc
struct_or_union (some struct) h = inl refl
struct_or_union (some union) h = inr refl
struct_or_union (some simple) h = cc
struct_or_union (some pointer) h = cc

module _ (m : Store) (ok : IsStore m) (height : ℕ → ℕ) (nested : IsNested m height) where
  -- A hit at a field is a hit at its container, one level higher.
  field_within_up :
      (test : ℕ → Bool) (d e v u : ℕ)
      → m.field_var_of v ≡ some u
      → height v ≤ d
      → height v ≤ e
      → test v || field_within m test d v ≡ true
      → field_within m test (suc e) u ≡ true
  unfolding field_within
  field_within_up test d e v u h hd he hit =
      let same = field_within_enough m height test nested.lower d e v hd he in
      let aggregate = ok.aggregate v u h in
      let found =
        any_var_intro (λ f. test f || field_within m test e f) (m.field_vars u) v
          (nested.listed v u h) (ground (arith, same, hit)) in
      ground (arith, aggregate, found)

  field_within_from :
      (test : ℕ → Bool) (depth a v d : ℕ)
      → height a ≤ depth
      → Within m ok a v
      → a ≢ v
      → height v ≤ d
      → test v || field_within m test d v ≡ true
      → field_within m test depth a ≡ true
  field_within_from test depth a v =
      containers_ind m ok
        (λ w.
          (d : ℕ)
          → height a ≤ depth
          → Within m ok a w
          → a ≢ w
          → height w ≤ d
          → test w || field_within m test d w ≡ true
          → field_within m test depth a ≡ true)
        base step (suc v) v (omega arith)
    where
      base :
          (w : ℕ)
          → m.field_var_of w ≡ none
          → (d : ℕ) → height a ≤ depth
          → Within m ok a w
          → a ≢ w
          → height w ≤ d
          → test w || field_within m test d w ≡ true
          → field_within m test depth a ≡ true
      base w e d ha h n hd hit = elim (Within-cases m ok a w h) [
        | inl s ↦ absurd (n s)
        | inr (u, e', _) ↦ ground (arith, e, e')
      ]

      step :
          (w u : ℕ)
          → m.field_var_of w ≡ some u
          → ((d : ℕ)
              → height a ≤ depth
              → Within m ok a u
              → a ≢ u
              → height u ≤ d
              → test u || field_within m test d u ≡ true
              → field_within m test depth a ≡ true)
          → (d : ℕ) → height a ≤ depth
          → Within m ok a w
          → a ≢ w
          → height w ≤ d
          → test w || field_within m test d w ≡ true
          → field_within m test depth a ≡ true
      step w u e ih d ha h n hd hit = elim (Within-cases m ok a w h) [
        | inl s ↦ absurd (n s)
        | inr (u', e', h') ↦
            let same : u' ≡ u = ground (arith, e, e') in
            let low = nested.lower u w (nested.listed w u e) in
            elim (Bool-cases (a == u)) [
              | inl s ↦
                  let is_u : a ≡ u = ground (arith, s) in
                  let low' : height w < height a = rw is_u low in
                  let back : suc (depth - 1) ≡ depth = omega (arith, low', ha) in
                  let up =
                    field_within_up test d (depth - 1) w u e hd (omega (arith, low', ha)) hit in
                  rw (is_u, ← back) up
              | inr k ↦
                  let up = field_within_up test d (d + height u) w u e hd (omega (arith, hd)) hit in
                  ih (suc (d + height u)) ha (rw same at h') (λ x. ground (arith, k, x))
                    (omega arith) (ground (arith, up))
            ]
      ]

  -- A variable within another one is found among its fields.
  pub field_within_intro :
      (test : ℕ → Bool) (depth a v : ℕ)
      → height a ≤ depth
      → Within m ok a v
      → a ≢ v
      → test v ≡ true
      → field_within m test depth a ≡ true
  field_within_intro test depth a v ha h n t =
      field_within_from test depth a v (height v) ha h n (omega arith) (ground (arith, t))

  pub meets_none :
      (v : ℕ) (ws : List ℕ)
      → ((w : ℕ) → elem w ws ≡ true → matches m v w || matches m w v ≡ false)
      → meets m v ws ≡ false
  unfolding meets
  meets_none v [] h = refl
  meets_none v (w ∷ ws) h =
      let here = h w (ground arith) in
      ground (arith, here, meets_none v ws (λ x i. h x (ground (arith, i))))

  is_written_intro :
      (e : Effect) (w v : ℕ)
      → elem w e.write_vars ≡ true
      → Within m ok w v
      → is_written m e v ≡ true
  unfolding is_written
  is_written_intro e w v i h = written_on_intro m e.write_vars (containers m v) w i h

  pub not_Within-ne : (v w : ℕ) → v ≡ w → elem w (containers m v) ≡ false → ⊥
  not_Within-ne v w same far =
      let self : elem w (containers m v) ≡ true = rw same (Within-refl m ok w) in
      ground (arith, far, self)

  -- What an effect has not written partially meets nothing that it has written.
  pub meets-is_written_partially :
      (e : Effect) (depth v : ℕ)
      → height v ≤ depth
      → is_written_partially m depth e v ≡ false
      → meets m v e.write_vars ≡ false
  unfolding is_written_partially
  meets-is_written_partially e depth v hd p = meets_none v e.write_vars (λ w i.
      elim (Bool-cases (elem w (containers m v))) [
        | inl up ↦ absurd (ground (arith, p, is_written_intro e w v i up))
        | inr far ↦ elim (Bool-cases (elem v (containers m w))) [
          | inl down ↦
              let apart : v ≢ w = λ same. not_Within-ne v w same far in
              let hit =
                field_within_intro (is_written m e) depth v w hd down apart
                  (is_written_intro e w w i (Within-refl m ok w)) in
              absurd (ground (arith, p, hit))
          | inr far' ↦ ground (arith, far, far', matches_lem m ok v w, matches_lem m ok w v)
        ]
      ])
