-- ===== src/Qualifiers/Defs.antt =====
-- src/CVQualifiers.cpp: the class, its comparisons, and the operations that move between levels of
-- indirection. Only the size assertion at the head of `stricter_than` is left to the invariant
-- `IsPaired`.
use hipsmith.Prelude.{
  ℕ, zero, suc, ◌+◌, ◌-◌, ◌≡◌, Bool, true, false, not, ◌&&◌, ◌||◌, Option, none, some, List, [],
  ◌∷◌, ◌++◌, ltb, ◌==◌, if◌then◌else◌, length, get_elem?, set, bools_eq, xor,
}
use hipsmith.Prelude.Int.{ℤ, pos, negsuc}
use mathlib.Core.Option

-- The options of CGOptions that the class asks for.
pub record QualifierOptions : Type 0 where
  pub match_exact_qualifiers : Bool
  pub allow_const_volatile : Bool
  pub volatile_pointers : Bool
  pub global_variables : Bool
  pub const_pointers : Bool

pub record CvQualifiers : Type 0 where
  pub wildcard : Bool
  pub accept_stricter : Bool
  pub is_consts : List Bool
  pub is_volatiles : List Bool

-- CVQualifiers(isConsts, isVolatiles)
unfoldable pub cv_qualifiers : List Bool → List Bool → CvQualifiers
cv_qualifiers consts volatiles = record {
  wildcard = false;
  accept_stricter = false;
  is_consts = consts;
  is_volatiles = volatiles;
}

-- The loop over one kind of flag in `stricter_than`. What is left of the list has `depth - i`
-- elements; the sizes are equal where it is called.
unfoldable pub strict_levels : List Bool → List Bool → Bool
strict_levels [] vs = true
strict_levels (c ∷ cs) [] = true
strict_levels (c ∷ cs) (v ∷ vs) =
    if ltb 2 (suc (length cs)) && xor c v
    then false
    else if v && not c
    then false
    else strict_levels cs vs

-- is_volatiles[0] != v_volatiles[0]
unfoldable pub storage_differs : List Bool → List Bool → Bool
storage_differs (c ∷ cs) (v ∷ vs) = xor c v
storage_differs _ _ = false

unfoldable pub stricter_than : CvQualifiers → CvQualifiers → Bool
unfolding strict_levels storage_differs
stricter_than q qfer =
    let depth = length q.is_consts in
    if not (length q.is_consts == length qfer.is_consts)
      || not (length q.is_volatiles == length qfer.is_volatiles)
    then false
    else if not (strict_levels q.is_consts qfer.is_consts)
    then false
    else if ltb 1 depth && storage_differs q.is_volatiles qfer.is_volatiles
    then false
    else strict_levels q.is_volatiles qfer.is_volatiles

unfoldable pub matches : QualifierOptions → CvQualifiers → CvQualifiers → Bool
matches o q qfer =
    if q.wildcard
    then true
    else if o.match_exact_qualifiers
    then bools_eq q.is_consts qfer.is_consts && bools_eq q.is_volatiles qfer.is_volatiles
    else if (length q.is_consts == length qfer.is_consts) && (length q.is_consts == 1)
    then true
    else (not q.accept_stricter && stricter_than q qfer)
      || (q.accept_stricter && stricter_than qfer q)

unfoldable pub add_qualifiers : Bool → Bool → CvQualifiers → CvQualifiers
add_qualifiers is_const is_volatile q = record q {
  is_consts = q.is_consts ++ is_const ∷ [];
  is_volatiles = q.is_volatiles ++ is_volatile ∷ [];
}

-- vector::pop_back
unfoldable pub pop_back {ℓ} : {A : Type ℓ} → List A → Option (List A)
pop_back [] = none
pop_back (x ∷ []) = some []
pop_back (x ∷ y ∷ ys) = Option.map (λ zs. x ∷ zs) (pop_back (y ∷ ys))

unfoldable pub pop_qualifiers : CvQualifiers → Option CvQualifiers
pop_qualifiers q = elim (pop_back q.is_consts) [
  | none ↦ none
  | some cs ↦ elim (pop_back q.is_volatiles) [
    | none ↦ none
    | some vs ↦ some (record q { is_consts = cs; is_volatiles = vs })
  ]
]

unfoldable pub remove_qualifiers : ℕ → CvQualifiers → Option CvQualifiers
unfolding pop_qualifiers
remove_qualifiers zero q = some q
remove_qualifiers (suc len) q = elim (pop_qualifiers q) [
  | none ↦ none
  | some q' ↦ remove_qualifiers len q'
]

-- Zero leaves the qualifiers, -1 takes the address, a positive level dereferences.
unfoldable pub indirect_qualifiers : ℤ → CvQualifiers → Option CvQualifiers
indirect_qualifiers (pos zero) q = some q
indirect_qualifiers (pos (suc n)) q = if q.wildcard then some q else remove_qualifiers (suc n) q
indirect_qualifiers (negsuc zero) q =
    if q.wildcard then some q else some (add_qualifiers false false q)
indirect_qualifiers (negsuc (suc n)) q = if q.wildcard then some q else none

-- `deref` is the difference of the two sizes; below -1 there is no match.
unfoldable pub match_indirect : QualifierOptions → CvQualifiers → CvQualifiers → Option Bool
match_indirect o q qfer =
    let theirs = length qfer.is_consts in
    let ours = length q.is_consts in
    if q.wildcard
    then some true
    else if ours == theirs
    then some (matches o q qfer)
    else if ltb (theirs + 1) ours
    then some false
    else if ltb theirs ours
    then Option.map (matches o q) (indirect_qualifiers (negsuc 0) qfer)
    else Option.map (matches o q) (indirect_qualifiers (pos (theirs - ours)) qfer)

-- is_consts[len - deref_level - 1], behind its assertion.
unfoldable pub after_deref : List Bool → ℤ → Option Bool
after_deref flags (negsuc n) = some false
after_deref flags (pos n) =
    if ltb n (length flags) then get_elem? flags (length flags - n - 1) else none

unfoldable pub is_const_after_deref : CvQualifiers → ℤ → Option Bool
unfolding after_deref
is_const_after_deref q level = after_deref q.is_consts level

unfoldable pub is_volatile_after_deref : CvQualifiers → ℤ → Option Bool
unfolding after_deref
is_volatile_after_deref q level = after_deref q.is_volatiles level

-- A write to `flags[len - at - 1]`, which does nothing on the empty vector.
unfoldable pub set_back : Bool → ℕ → List Bool → Option (List Bool)
set_back b at [] = some []
set_back b at (x ∷ xs) =
    let len = suc (length xs) in if ltb at len then some (set (x ∷ xs) (len - at - 1) b) else none

unfoldable pub set_const : Bool → ℕ → CvQualifiers → Option CvQualifiers
unfolding set_back
set_const b at q = Option.map (λ cs. record q { is_consts = cs }) (set_back b at q.is_consts)

unfoldable pub set_volatile : Bool → ℕ → CvQualifiers → Option CvQualifiers
unfolding set_back
set_volatile b at q =
    Option.map (λ vs. record q { is_volatiles = vs }) (set_back b at q.is_volatiles)

-- Effect::Access
pub data Access : Type 0 where
  read write : Access

unfoldable pub is_write : Access → Bool
is_write read = false
is_write write = true

-- The context enters by what it says of its effects.
unfoldable pub restrict : Access → Bool → CvQualifiers → Option CvQualifiers
unfolding set_const set_volatile is_write
restrict access side_effect_free q =
    elim (if is_write access then set_const false 0 q else some q) [
      | none ↦ none
      | some q' ↦ if side_effect_free then some q' else set_volatile false 0 q'
    ]

-- `level` is the indirect level of the type.
unfoldable pub sanity_check : CvQualifiers → ℕ → Bool
sanity_check q level =
    q.wildcard
    || ((length q.is_consts == length q.is_volatiles) && (level + 1 == length q.is_consts))

-- The assertion of `stricter_than`.
pub record IsPaired (q : CvQualifiers) : Type 0 where
  pub paired : length q.is_consts ≡ length q.is_volatiles
