-- ===== src/Qualifiers/Indirect.antt =====
-- Taking the address and dereferencing: src/CVQualifiers.cpp, `indirect_qualifiers`.
use hipsmith.Prelude.{
  ℕ, zero, suc, ◌+◌, ◌<◌, ◌≡◌, refl, Bool, true, false, some, List, [], ◌∷◌, ◌++◌, arith, length,
  Option-cases, Bool-cases, inl, inr,
}
use mathlib.Core.Path.{subst₂}
use hipsmith.Prelude.Int.{pos, negsuc}
use hipsmith.Qualifiers.Defs.{
  CvQualifiers, strict_levels, storage_differs, stricter_than, add_qualifiers, pop_back,
  pop_qualifiers, remove_qualifiers, indirect_qualifiers, sanity_check,
}
use hipsmith.Qualifiers.Order.{IsStricter, stricter_than-IsStricter, IsStricter→stricter_than}

module _ {ℓ} {A : Type ℓ} where
  pub pop_back-append : (xs : List A) (x : A) → pop_back (xs ++ x ∷ []) ≡ some xs
  unfolding pop_back
  pop_back-append [] x = refl
  pop_back-append (y ∷ []) x = refl
  pop_back-append (y ∷ z ∷ zs) x = rw (pop_back-append (z ∷ zs) x)

  length-pop_back :
      (xs : List A) {ys : List A} → pop_back xs ≡ some ys → length xs ≡ suc (length ys)
  unfolding pop_back
  length-pop_back [] h = ground arith
  length-pop_back (x ∷ []) h = ground arith
  length-pop_back (x ∷ y ∷ zs) {ys} h = elim (Option-cases (pop_back (y ∷ zs))) [
    | inl e ↦ ground arith
    | inr (r, e) ↦ ground (arith, length-pop_back (y ∷ zs) e)
  ]

  pop_back_total : (xs : List A) (x : A) → (ys : List A) × (pop_back (x ∷ xs) ≡ some ys)
  unfolding pop_back
  pop_back_total [] x = ([], refl)
  pop_back_total (y ∷ zs) x = let (ys, e) = pop_back_total zs y in (x ∷ ys, rw e)

strict_levels-pop_back :
    (xs ys : List Bool) {xs' ys' : List Bool}
    → length xs ≡ length ys
    → pop_back xs ≡ some xs'
    → pop_back ys ≡ some ys'
    → strict_levels xs ys ≡ true
    → strict_levels xs' ys' ≡ true
unfolding strict_levels pop_back
strict_levels-pop_back [] ys e p q h = ground arith
strict_levels-pop_back (x ∷ xs) [] e p q h = ground arith
strict_levels-pop_back (x ∷ []) (y ∷ ys) e p q h = ground arith
strict_levels-pop_back (x ∷ v ∷ vs) (y ∷ []) e p q h = ground arith
strict_levels-pop_back (x ∷ v ∷ vs) (y ∷ w ∷ ws) {xs'} {ys'} e p q h =
    let (r, er) = pop_back_total vs v in
    let (s, es) = pop_back_total ws w in
    ground (
      arith,
      er,
      es,
      length-pop_back (v ∷ vs) er,
      length-pop_back (w ∷ ws) es,
      strict_levels-pop_back (v ∷ vs) (w ∷ ws) {xs' = r} {ys' = s},
    )

storage_differs-pop_back :
    (xs ys : List Bool) {xs' ys' : List Bool}
    → pop_back xs ≡ some xs'
    → pop_back ys ≡ some ys'
    → storage_differs xs ys ≡ false
    → storage_differs xs' ys' ≡ false
unfolding storage_differs pop_back
storage_differs-pop_back [] ys p q h = ground arith
storage_differs-pop_back (x ∷ xs) [] p q h = ground arith
storage_differs-pop_back (x ∷ []) (y ∷ ys) p q h = ground arith
storage_differs-pop_back (x ∷ v ∷ vs) (y ∷ []) {xs' = []} p q h = refl
storage_differs-pop_back (x ∷ v ∷ vs) (y ∷ []) {xs' = z ∷ zs} p q h = ground arith
storage_differs-pop_back (x ∷ v ∷ vs) (y ∷ w ∷ ws) p q h =
    let (r, er) = pop_back_total vs v in let (s, es) = pop_back_total ws w in ground (arith, er, es)

-- What one successful `pop_qualifiers` does.
record Popped (a c : CvQualifiers) : Type 0 where
  consts : pop_back a.is_consts ≡ some c.is_consts
  volatiles : pop_back a.is_volatiles ≡ some c.is_volatiles
  wildcard : c.wildcard ≡ a.wildcard
  accept_stricter : c.accept_stricter ≡ a.accept_stricter

pop_qualifiers-Popped :
    (a : CvQualifiers) {c : CvQualifiers} → pop_qualifiers a ≡ some c → Popped a c
unfolding pop_qualifiers
pop_qualifiers-Popped a h = record {
  consts = ground arith;
  volatiles = ground arith;
  wildcard = ground arith;
  accept_stricter = ground arith;
}

module _ (a b : CvQualifiers) {c d : CvQualifiers} where
  IsStricter-pop_qualifiers :
      pop_qualifiers a ≡ some c → pop_qualifiers b ≡ some d → IsStricter a b → IsStricter c d
  IsStricter-pop_qualifiers p q h =
      let m = pop_qualifiers-Popped a p in
      let n = pop_qualifiers-Popped b q in
      let ac = length-pop_back _ m.consts in
      let bd = length-pop_back _ n.consts in
      let av = length-pop_back _ m.volatiles in
      let bv = length-pop_back _ n.volatiles in
      record {
        same_consts = omega (arith, ac, bd, h.same_consts);
        same_volatiles = omega (arith, av, bv, h.same_volatiles);
        consts = strict_levels-pop_back _ _ h.same_consts m.consts n.consts h.consts;
        storage = ground (
          arith,
          ac,
          h.storage,
          storage_differs-pop_back a.is_volatiles b.is_volatiles m.volatiles n.volatiles,
        );
        volatiles = strict_levels-pop_back _ _ h.same_volatiles m.volatiles n.volatiles h.volatiles;
      }

IsStricter-remove_qualifiers :
    (n : ℕ) (a b : CvQualifiers) {c d : CvQualifiers}
    → remove_qualifiers n a ≡ some c
    → remove_qualifiers n b ≡ some d
    → IsStricter a b
    → IsStricter c d
unfolding remove_qualifiers
IsStricter-remove_qualifiers zero a b {c} {d} p q h =
    let e : a ≡ c = ground arith in let f : b ≡ d = ground arith in subst₂ IsStricter e f h
IsStricter-remove_qualifiers (suc n) a b p q h = elim (Option-cases (pop_qualifiers a)) [
  | inl e ↦ ground arith
  | inr (a', ea) ↦ elim (Option-cases (pop_qualifiers b)) [
    | inl e ↦ ground arith
    | inr (b', eb) ↦
        IsStricter-remove_qualifiers n a' b' (ground (arith, ea)) (ground (arith, eb))
          (IsStricter-pop_qualifiers a b ea eb h)
  ]
]

-- Dereferencing keeps the order: if `a` is stricter than `b`, neither of them a wildcard, and both
-- can be dereferenced `n` levels, the results stand in the same order.
pub stricter_than-indirect_qualifiers :
    (n : ℕ) (a b : CvQualifiers) {c d : CvQualifiers}
    → a.wildcard ≡ false
    → b.wildcard ≡ false
    → indirect_qualifiers (pos n) a ≡ some c
    → indirect_qualifiers (pos n) b ≡ some d
    → stricter_than a b ≡ true
    → stricter_than c d ≡ true
unfolding indirect_qualifiers
stricter_than-indirect_qualifiers zero a b {c} {d} wa wb p q h =
    let e : a ≡ c = ground arith in
    let f : b ≡ d = ground arith in subst₂ (λ x y. stricter_than x y ≡ true) e f h
stricter_than-indirect_qualifiers (suc n) a b {c} {d} wa wb p q h = IsStricter→stricter_than c d (
    IsStricter-remove_qualifiers (suc n) a b (simp wa at p) (simp wb at q)
      (stricter_than-IsStricter a b h))

-- Taking the address and then dereferencing one level gives the qualifiers back.
pub indirect_qualifiers_round_trip :
    (q : CvQualifiers)
    → (r : CvQualifiers) × (indirect_qualifiers (negsuc 0) q ≡ some r)
      × (indirect_qualifiers (pos 1) r ≡ some q)
unfolding indirect_qualifiers add_qualifiers remove_qualifiers
indirect_qualifiers_round_trip q = elim (Bool-cases q.wildcard) [
  | inl w ↦ (q, rw w, rw w)
  | inr w ↦ (
    add_qualifiers false false q,
    rw w,
    ground (arith, w, pop_back-append q.is_consts false, pop_back-append q.is_volatiles false),
  )
]

pop_qualifiers_total :
    (q : CvQualifiers)
    → 0 < length q.is_consts
    → 0 < length q.is_volatiles
    → (r : CvQualifiers) × (pop_qualifiers q ≡ some r)
unfolding pop_qualifiers
pop_qualifiers_total q c v =
    let (cs, ec) = pop_back_nonempty q.is_consts c in
    let (vs, ev) = pop_back_nonempty q.is_volatiles v in
    (record q { is_consts = cs; is_volatiles = vs }, ground (arith, ec, ev))
  where
    pop_back_nonempty :
        (xs : List Bool) → 0 < length xs → (ys : List Bool) × (pop_back xs ≡ some ys)
    pop_back_nonempty [] h = absurd (omega arith)
    pop_back_nonempty (x ∷ xs) h = pop_back_total xs x

remove_qualifiers_total :
    (n level : ℕ) (q : CvQualifiers)
    → length q.is_consts ≡ level + n + 1
    → length q.is_volatiles ≡ level + n + 1
    → (r : CvQualifiers) × (remove_qualifiers n q ≡ some r)
      × (length r.is_consts ≡ level + 1)
      × (length r.is_volatiles ≡ level + 1)
unfolding remove_qualifiers
remove_qualifiers_total zero level q p v = (q, refl, omega arith, omega arith)
remove_qualifiers_total (suc n) level q p v =
    let (r, e) = pop_qualifiers_total q (omega arith) (omega arith) in
    let m = pop_qualifiers-Popped q e in
    let (s, f, c, d) =
      remove_qualifiers_total n level r (omega (arith, length-pop_back _ m.consts))
        (omega (arith, length-pop_back _ m.volatiles)) in
    (s, ground (arith, e, f), c, d)

-- Qualifiers that pass `sanity_check` for a type with `level + n` levels of indirection can be
-- dereferenced `n` levels, and the result passes it for a type with `level` levels.
pub indirect_qualifiers-sanity_check :
    (n level : ℕ) (q : CvQualifiers)
    → sanity_check q (level + n) ≡ true
    → (r : CvQualifiers) × (indirect_qualifiers (pos n) q ≡ some r) × (sanity_check r level ≡ true)
unfolding indirect_qualifiers sanity_check
indirect_qualifiers-sanity_check zero level q h = (q, refl, ground arith)
indirect_qualifiers-sanity_check (suc n) level q h = elim (Bool-cases q.wildcard) [
  | inl w ↦ (q, rw w, rw w)
  | inr w ↦
      let (r, e, c, v) =
        remove_qualifiers_total (suc n) level q (ground (arith, w)) (ground (arith, w)) in
      (r, ground (arith, w, e), ground (arith, c, v))
]
