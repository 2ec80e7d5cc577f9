-- ===== src/Qualifiers/Last.antt =====
-- The last flag of a vector, which is the variable's own, and the steps that clear flags.
use hipsmith.Prelude.{
  ℕ, zero, suc, ◌-◌, ◌≡◌, refl, ap, ◌&&◌, ltb, Bool, true, false, List, [], ◌∷◌, arith, length,
  replicate, some, get_elem?,
}
use hipsmith.Prelude.Int.{pos}
use hipsmith.Qualifiers.Defs.{after_deref, strict_levels, storage_differs}
use hipsmith.Qualifiers.Random.{clear_tail}
use hipsmith.Qualifiers.Generate.{clear_last}

-- The vector is not empty, and its last flag is not set.
abbrev pub EndsClear : List Bool → Type 0
EndsClear [] = ⊥
EndsClear (x ∷ []) = x ≡ false
EndsClear (x ∷ y ∷ ys) = EndsClear (y ∷ ys)

get_elem?-EndsClear :
    (x : Bool) (xs : List Bool) → EndsClear (x ∷ xs) → get_elem? (x ∷ xs) (length xs) ≡ some false
get_elem?-EndsClear x [] h = ap some h
get_elem?-EndsClear x (y ∷ ys) h = get_elem?-EndsClear y ys h

pub after_deref-EndsClear : (xs : List Bool) → EndsClear xs → after_deref xs (pos 0) ≡ some false
unfolding after_deref
after_deref-EndsClear [] h = absurd h
after_deref-EndsClear (x ∷ xs) h =
    let e : suc (length xs) - 0 - 1 ≡ length xs = omega arith in
    rw e (ground (arith, get_elem?-EndsClear x xs h))

pub clear_last_total :
    (x : Bool) (xs : List Bool)
    → (ys : List Bool) × (clear_last (x ∷ xs) ≡ some ys)
      × (length ys ≡ suc (length xs))
      × EndsClear ys
unfolding clear_last
clear_last_total x [] = (false ∷ [], refl, refl, refl)
clear_last_total x (y ∷ ys) =
    let (zs, e, l, c) = clear_last_total y ys in (x ∷ zs, ground (arith, e), ap suc l, cons x zs c)
  where
    cons : (b : Bool) (bs : List Bool) → EndsClear bs → EndsClear (b ∷ bs)
    cons b [] h = absurd h
    cons b (c ∷ cs) h = h

-- Clearing the last flag keeps flags that were looser looser.
pub strict_levels-clear_last :
    (vs ws : List Bool) {zs : List Bool}
    → length vs ≡ length ws
    → clear_last ws ≡ some zs
    → strict_levels vs ws ≡ true
    → strict_levels vs zs ≡ true
unfolding clear_last strict_levels
strict_levels-clear_last [] ws p e h = refl
strict_levels-clear_last (v ∷ vs) [] p e h = ground arith
strict_levels-clear_last (v ∷ []) (w ∷ []) p e h = ground arith
strict_levels-clear_last (v ∷ v' ∷ vs) (w ∷ []) p e h = absurd (omega arith)
strict_levels-clear_last (v ∷ vs) (w ∷ x ∷ xs) p e h =
    let (zs, f, _, _) = clear_last_total x xs in
    ground (arith, f, strict_levels-clear_last vs (x ∷ xs) {zs = zs})

EndsClear-replicate : (n : ℕ) → EndsClear (replicate (suc n) false)
EndsClear-replicate zero = refl
EndsClear-replicate (suc n) = EndsClear-replicate n

pub EndsClear-clear_tail : (xs : List Bool) → EndsClear xs → EndsClear (clear_tail xs)
unfolding clear_tail
EndsClear-clear_tail [] h = h
EndsClear-clear_tail (x ∷ []) h = h
EndsClear-clear_tail (x ∷ y ∷ ys) h = EndsClear-replicate (length ys)

-- The storage's flag is another one than the last, where there is a pointer.
pub storage-clear_last :
    (depth : ℕ) (vs ws : List Bool) {zs : List Bool}
    → depth ≡ length ws
    → clear_last ws ≡ some zs
    → ltb 1 depth && storage_differs vs ws ≡ false
    → ltb 1 depth && storage_differs vs zs ≡ false
unfolding clear_last storage_differs
storage-clear_last depth vs [] d e h = ground arith
storage-clear_last depth vs (w ∷ []) d e h = ground arith
storage-clear_last depth [] (w ∷ x ∷ xs) d e h = ground arith
storage-clear_last depth (v ∷ vs) (w ∷ x ∷ xs) d e h =
    let (zs, f, _, _) = clear_last_total x xs in ground (arith, f)
