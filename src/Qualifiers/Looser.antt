-- ===== src/Qualifiers/Looser.antt =====
-- The flags made by the looser and the stricter loops stand in the order of `stricter_than`.
use hipsmith.Prelude.{
  ℕ, zero, suc, ◌+◌, ◌≡◌, refl, ap, Bool, true, false, List, [], ◌∷◌, arith, length, replicate,
  length-replicate,
}
use hipsmith.Qualifiers.Order.{strict_levels_refl}
use hipsmith.Qualifiers.Defs.{QualifierOptions, strict_levels, storage_differs}
use hipsmith.Qualifiers.Random.{
  Draws, Source, clear_tail, looser_consts, looser_volatiles, stricter_consts, stricter_volatiles,
}

module _ (draws : Draws) where
  -- One level of the loop either keeps the flag or, at the last two levels, clears one that is set.
  pub looser_consts-length :
      (cs : List Bool) (s : Source)
      → (looser_consts draws cs s).early ≡ false
      → length (looser_consts draws cs s).flags ≡ length cs
  unfolding looser_consts
  looser_consts-length [] s h = refl
  looser_consts-length (c ∷ cs) s h =
      ground
        (arith, looser_consts-length cs s, looser_consts-length cs (record s { made = s.made + 1 }))

  pub strict_levels-looser_consts :
      (cs : List Bool) (s : Source)
      → (looser_consts draws cs s).early ≡ false
      → strict_levels cs (looser_consts draws cs s).flags ≡ true
  unfolding looser_consts strict_levels
  strict_levels-looser_consts [] s h = refl
  strict_levels-looser_consts (c ∷ cs) s h = ground (
    arith,
    strict_levels-looser_consts cs s,
    strict_levels-looser_consts cs (record s { made = s.made + 1 }),
  )

  pub looser_volatiles-length :
      (b : Bool) (vs : List Bool) (s : Source)
      → (looser_volatiles draws b vs s).early ≡ false
      → length (looser_volatiles draws b vs s).flags ≡ length vs
  unfolding looser_volatiles
  looser_volatiles-length b [] s h = refl
  looser_volatiles-length b (v ∷ vs) s h = ground (
    arith,
    looser_volatiles-length false vs s,
    looser_volatiles-length false vs (record s { made = s.made + 1 }),
  )

  pub strict_levels-looser_volatiles :
      (b : Bool) (vs : List Bool) (s : Source)
      → (looser_volatiles draws b vs s).early ≡ false
      → strict_levels vs (looser_volatiles draws b vs s).flags ≡ true
  unfolding looser_volatiles strict_levels
  strict_levels-looser_volatiles b [] s h = refl
  strict_levels-looser_volatiles b (v ∷ vs) s h = ground (
    arith,
    strict_levels-looser_volatiles false vs s,
    strict_levels-looser_volatiles false vs (record s { made = s.made + 1 }),
  )

  -- Where there is a pointer, the storage keeps its flag.
  pub storage-looser_volatiles :
      (vs : List Bool) (s : Source)
      → storage_differs vs (looser_volatiles draws true vs s).flags ≡ false
  unfolding looser_volatiles storage_differs
  storage-looser_volatiles [] s = refl
  storage-looser_volatiles (v ∷ vs) s = ground arith

  pub stricter_consts-length :
      (o : QualifierOptions) (cs vs : List Bool) (s : Source)
      → length cs ≡ length vs
      → (stricter_consts draws o cs vs s).early ≡ false
      → length (stricter_consts draws o cs vs s).flags ≡ length cs
  unfolding stricter_consts
  stricter_consts-length o [] vs s e h = refl
  stricter_consts-length o (c ∷ cs) [] s e h = absurd (omega arith)
  stricter_consts-length o (c ∷ cs) (v ∷ vs) s e h = ground (
    arith,
    stricter_consts-length o cs vs s,
    stricter_consts-length o cs vs (record s { made = s.made + 1 }),
  )

  pub strict_levels-stricter_consts :
      (o : QualifierOptions) (cs vs : List Bool) (s : Source)
      → length cs ≡ length vs
      → (stricter_consts draws o cs vs s).early ≡ false
      → strict_levels (stricter_consts draws o cs vs s).flags cs ≡ true
  unfolding stricter_consts strict_levels
  strict_levels-stricter_consts o [] vs s e h = refl
  strict_levels-stricter_consts o (c ∷ cs) [] s e h = absurd (omega arith)
  strict_levels-stricter_consts o (c ∷ cs) (v ∷ vs) s e h = ground (
    arith,
    strict_levels-stricter_consts o cs vs s,
    strict_levels-stricter_consts o cs vs (record s { made = s.made + 1 }),
    stricter_consts-length o cs vs s,
    stricter_consts-length o cs vs (record s { made = s.made + 1 }),
  )

  pub stricter_volatiles-length :
      (o : QualifierOptions) (b : Bool) (vs cs : List Bool) (s : Source)
      → length vs ≡ length cs
      → (stricter_volatiles draws o b vs cs s).early ≡ false
      → length (stricter_volatiles draws o b vs cs s).flags ≡ length vs
  unfolding stricter_volatiles
  stricter_volatiles-length o b [] cs s e h = refl
  stricter_volatiles-length o b (v ∷ vs) [] s e h = absurd (omega arith)
  stricter_volatiles-length o b (v ∷ vs) (c ∷ cs) s e h = ground (
    arith,
    stricter_volatiles-length o false vs cs s,
    stricter_volatiles-length o false vs cs (record s { made = s.made + 1 }),
  )

  pub strict_levels-stricter_volatiles :
      (o : QualifierOptions) (b : Bool) (vs cs : List Bool) (s : Source)
      → length vs ≡ length cs
      → (stricter_volatiles draws o b vs cs s).early ≡ false
      → strict_levels (stricter_volatiles draws o b vs cs s).flags vs ≡ true
  unfolding stricter_volatiles strict_levels
  strict_levels-stricter_volatiles o b [] cs s e h = refl
  strict_levels-stricter_volatiles o b (v ∷ vs) [] s e h = absurd (omega arith)
  strict_levels-stricter_volatiles o b (v ∷ vs) (c ∷ cs) s e h = ground (
    arith,
    strict_levels-stricter_volatiles o false vs cs s,
    strict_levels-stricter_volatiles o false vs cs (record s { made = s.made + 1 }),
    stricter_volatiles-length o false vs cs s,
    stricter_volatiles-length o false vs cs (record s { made = s.made + 1 }),
  )

  pub storage-stricter_volatiles :
      (o : QualifierOptions) (vs cs : List Bool) (s : Source)
      → storage_differs (stricter_volatiles draws o true vs cs s).flags vs ≡ false
  unfolding stricter_volatiles storage_differs
  storage-stricter_volatiles o [] cs s = refl
  storage-stricter_volatiles o (v ∷ vs) [] s = refl
  storage-stricter_volatiles o (v ∷ vs) (c ∷ cs) s = ground arith

pub length-clear_tail : (vs : List Bool) → length (clear_tail vs) ≡ length vs
unfolding clear_tail
length-clear_tail [] = refl
length-clear_tail (v ∷ vs) = ap suc (length-replicate (length vs) false)

pub strict_levels-replicate :
    (n : ℕ) (ws : List Bool)
    → n ≡ length ws
    → strict_levels (replicate n false) ws ≡ true
    → ws ≡ replicate n false
unfolding strict_levels
strict_levels-replicate zero [] e h = refl
strict_levels-replicate zero (w ∷ ws) e h = absurd (omega arith)
strict_levels-replicate (suc n) [] e h = absurd (omega arith)
strict_levels-replicate (suc n) (w ∷ ws) e h = ground (arith, strict_levels-replicate n ws)

-- Nothing is left to clear below flags whose tail is clear.
pub looser-clear_tail :
    (vs ws : List Bool)
    → length vs ≡ length ws
    → clear_tail vs ≡ vs
    → strict_levels vs ws ≡ true
    → clear_tail ws ≡ ws
unfolding clear_tail strict_levels
looser-clear_tail [] [] e c h = refl
looser-clear_tail [] (w ∷ ws) e c h = absurd (omega arith)
looser-clear_tail (v ∷ vs) [] e c h = absurd (omega arith)
looser-clear_tail (v ∷ vs) (w ∷ ws) e c h = ground (arith, strict_levels-replicate (length vs) ws)

pub stricter-clear_tail :
    (ws vs : List Bool)
    → length ws ≡ length vs
    → clear_tail vs ≡ vs
    → strict_levels ws vs ≡ true
    → strict_levels (clear_tail ws) vs ≡ true
unfolding clear_tail strict_levels
stricter-clear_tail [] vs e c h = refl
stricter-clear_tail (w ∷ ws) [] e c h = absurd (omega arith)
stricter-clear_tail (w ∷ ws) (v ∷ vs) e c h =
    ground
      (arith, strict_levels_refl (replicate (length vs) false), length-replicate (length vs) false)

pub storage-clear_tail :
    (ws vs : List Bool) → storage_differs ws vs ≡ false → storage_differs (clear_tail ws) vs ≡ false
unfolding clear_tail storage_differs
storage-clear_tail [] vs h = h
storage-clear_tail (w ∷ ws) [] h = refl
storage-clear_tail (w ∷ ws) (v ∷ vs) h = h
