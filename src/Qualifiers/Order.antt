-- ===== src/Qualifiers/Order.antt =====
-- `stricter_than` is a partial order.
use hipsmith.Prelude.{
  ◌≡◌, refl, sym, ap, ◌∙◌, ◌↔◌, ◌&&◌, ltb, Bool, true, false, List, [], ◌∷◌, arith, length,
}
use hipsmith.Qualifiers.Defs.{CvQualifiers, strict_levels, storage_differs, stricter_than}

pub strict_levels_refl : (cs : List Bool) → strict_levels cs cs ≡ true
unfolding strict_levels
strict_levels_refl [] = refl
strict_levels_refl (c ∷ cs) = ground (arith, strict_levels_refl cs)

strict_levels_trans :
    (ws bs cs : List Bool)
    → length ws ≡ length bs
    → length bs ≡ length cs
    → strict_levels ws bs ≡ true
    → strict_levels bs cs ≡ true
    → strict_levels ws cs ≡ true
unfolding strict_levels
strict_levels_trans [] bs cs p q h k = refl
strict_levels_trans (a ∷ ws) [] cs p q h k = absurd (omega arith)
strict_levels_trans (a ∷ ws) (b ∷ bs) [] p q h k = absurd (omega arith)
strict_levels_trans (a ∷ ws) (b ∷ bs) (c ∷ cs) p q h k =
    ground (arith, strict_levels_trans ws bs cs)

strict_levels_antisymm :
    (ws bs : List Bool)
    → length ws ≡ length bs
    → strict_levels ws bs ≡ true
    → strict_levels bs ws ≡ true
    → ws ≡ bs
unfolding strict_levels
strict_levels_antisymm [] [] p h k = refl
strict_levels_antisymm [] (b ∷ bs) p h k = absurd (omega arith)
strict_levels_antisymm (a ∷ ws) [] p h k = absurd (omega arith)
strict_levels_antisymm (a ∷ ws) (b ∷ bs) p h k = ground (arith, strict_levels_antisymm ws bs)

storage_differs_trans :
    (ws bs cs : List Bool)
    → length ws ≡ length bs
    → length bs ≡ length cs
    → storage_differs ws bs ≡ false
    → storage_differs bs cs ≡ false
    → storage_differs ws cs ≡ false
unfolding storage_differs
storage_differs_trans [] bs cs p q h k = refl
storage_differs_trans (w ∷ ws) [] cs p q h k = absurd (omega arith)
storage_differs_trans (w ∷ ws) (b ∷ bs) [] p q h k = absurd (omega arith)
storage_differs_trans (w ∷ ws) (b ∷ bs) (c ∷ cs) p q h k = ground arith

pub storage_differs_refl : (cs : List Bool) → storage_differs cs cs ≡ false
unfolding storage_differs
storage_differs_refl [] = refl
storage_differs_refl (c ∷ cs) = ground arith

-- What `stricter_than` says, test by test.
pub record IsStricter (a b : CvQualifiers) : Type 0 where
  pub same_consts : length a.is_consts ≡ length b.is_consts
  pub same_volatiles : length a.is_volatiles ≡ length b.is_volatiles
  pub consts : strict_levels a.is_consts b.is_consts ≡ true
  pub storage : ltb 1 (length a.is_consts) && storage_differs a.is_volatiles b.is_volatiles ≡ false
  pub volatiles : strict_levels a.is_volatiles b.is_volatiles ≡ true

module _ (a b : CvQualifiers) where
  pub stricter_than-IsStricter : stricter_than a b ≡ true → IsStricter a b
  unfolding stricter_than
  stricter_than-IsStricter h = record {
    same_consts = ground arith;
    same_volatiles = ground arith;
    consts = ground arith;
    storage = ground arith;
    volatiles = ground arith;
  }

  pub IsStricter→stricter_than : IsStricter a b → stricter_than a b ≡ true
  unfolding stricter_than
  IsStricter→stricter_than h = ground arith

-- `stricter_than` is transitive: qualifiers stricter than stricter ones are stricter.
pub stricter_than_trans :
    (a b c : CvQualifiers)
    → stricter_than a b ≡ true
    → stricter_than b c ≡ true
    → stricter_than a c ≡ true
stricter_than_trans a b c h k =
    let p = stricter_than-IsStricter a b h in
    let q = stricter_than-IsStricter b c k in
    IsStricter→stricter_than a c (record {
      same_consts = p.same_consts ∙ q.same_consts;
      same_volatiles = p.same_volatiles ∙ q.same_volatiles;
      consts = strict_levels_trans _ _ _ p.same_consts q.same_consts p.consts q.consts;
      storage = ground (
        arith,
        p.storage,
        q.storage,
        p.same_consts,
        storage_differs_trans a.is_volatiles b.is_volatiles c.is_volatiles p.same_volatiles
            q.same_volatiles,
      );
      volatiles =
          strict_levels_trans _ _ _ p.same_volatiles q.same_volatiles p.volatiles q.volatiles;
    })

-- Two sets of qualifiers are each stricter than the other exactly when their flags are the same at
-- every level.
pub stricter_than_antisymm :
    (a b : CvQualifiers)
    → ((stricter_than a b ≡ true) × (stricter_than b a ≡ true))
      ↔ ((a.is_consts ≡ b.is_consts) × (a.is_volatiles ≡ b.is_volatiles))
stricter_than_antisymm a b = (
  λ h.
      let p = stricter_than-IsStricter a b h.0 in
      let q = stricter_than-IsStricter b a h.1 in
      (
        strict_levels_antisymm _ _ p.same_consts p.consts q.consts,
        strict_levels_antisymm _ _ p.same_volatiles p.volatiles q.volatiles,
      ),
  λ e. (
    IsStricter→stricter_than a b (same a b e),
    IsStricter→stricter_than b a (same b a (sym e.0, sym e.1)),
  ),
)
  where
    same :
        (c d : CvQualifiers)
        → (c.is_consts ≡ d.is_consts) × (c.is_volatiles ≡ d.is_volatiles)
        → IsStricter c d
    same c d e = record {
      same_consts = ap length e.0;
      same_volatiles = ap length e.1;
      consts = rw (← e.0) (strict_levels_refl _);
      storage = rw (← e.1) (ground (arith, storage_differs_refl c.is_volatiles));
      volatiles = rw (← e.1) (strict_levels_refl _);
    }
