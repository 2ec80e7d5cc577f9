-- ===== src/Contexts/Conflict.antt =====
-- src/CGContext.cpp, `in_conflict`: conflicts and races.
use hipsmith.Prelude.{
  ℕ, ◌≡◌, refl, Bool, true, false, List, [], ◌∷◌, elem, arith, Bool-cases, inl, inr, ◌==◌,
}
use hipsmith.Variables.Store.{Store}
use hipsmith.Effects.Defs.{Effect, meets, non_empty_intersection, has_race_with}
use hipsmith.Effects.Fields.{any_var}
use hipsmith.Effects.Race.{intersection_comm}
use hipsmith.Contexts.Defs.{Context, conflicts_reading, conflicts_writing, in_conflict}
use hipsmith.Contexts.Nested.{meets-is_written_partially}
use hipsmith.Contexts.Partial.{meets-is_read_partially}
use hipsmith.Contexts.Race.{IsAround}

any_var_none :
    (test : ℕ → Bool) (vs : List ℕ)
    → any_var test vs ≡ false
    → (v : ℕ) → elem v vs ≡ true
    → test v ≡ false
unfolding any_var
any_var_none test [] h v i = cc
any_var_none test (x ∷ xs) h v i = elim (Bool-cases (x == v)) [
  | inl s ↦ let same : x ≡ v = ground (arith, s) in rw (← same) (ground (arith, h))
  | inr n ↦ any_var_none test xs (ground (arith, h)) v (ground (arith, n, i))
]

intersection_none :
    (m : Store) (xs ys : List ℕ)
    → ((x : ℕ) → elem x xs ≡ true → meets m x ys ≡ false)
    → non_empty_intersection m xs ys ≡ false
unfolding non_empty_intersection
intersection_none m [] ys h = refl
intersection_none m (x ∷ xs) ys h =
    let here = h x (ground arith) in
    let rest = intersection_none m xs ys (λ y i. h y (ground (arith, i))) in
    ground (arith, here, rest)

-- An effect that writes to collective variables only and is not in conflict with a context does not
-- race with the effects around it, if no union is a field of another variable. The containers of
-- variables are structs and unions that were created before them and list them as fields, `depth` is
-- enough for the fields, the collective variable of a collective variable is itself, what has a
-- container has a type, and the effects around have read collective variables only.
pub in_conflict-has_race_with :
    (m : Store) (height : ℕ → ℕ) (depth : ℕ) (c : Context) (eff : Effect)
    → IsAround m height depth c.effect_context
    → ((v : ℕ) → elem v eff.write_vars ≡ true → m.collective v ≡ v)
    → in_conflict m depth c eff ≡ false
    → has_race_with m c.effect_context eff ≡ false
unfolding in_conflict has_race_with conflicts_reading conflicts_writing
in_conflict-has_race_with m height depth c eff env own h =
    let around = c.effect_context in
    let written = λ (v : ℕ).
      meets-is_written_partially m env.store height env.nested around depth v (env.deep v) in
    let reads = intersection_none m eff.read_vars around.write_vars (λ v i. written v (
      let k = any_var_none (conflicts_reading m depth c) eff.read_vars (ground (arith, h)) v i in
      ground (arith, k))) in
    let writes = intersection_none m eff.write_vars around.write_vars (λ v i. written v (
      let k = any_var_none (conflicts_writing m depth c) eff.write_vars (ground (arith, h)) v i in
      ground (arith, k))) in
    let unread = intersection_none m eff.write_vars around.read_vars (λ v i.
      meets-is_read_partially m env.store height env.nested around depth v (env.deep v) (own v i)
        env.reads_collective
        (let k =
            any_var_none (conflicts_writing m depth c) eff.write_vars (ground (arith, h)) v i in
          ground (arith, k))) in
    ground (
      arith,
      reads,
      writes,
      unread,
      intersection_comm m around.write_vars eff.read_vars,
      intersection_comm m around.write_vars eff.write_vars,
      intersection_comm m around.read_vars eff.write_vars,
    )
