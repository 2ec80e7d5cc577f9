-- ===== src/Qualifiers/Random.antt =====
-- src/CVQualifiers.cpp: the random qualifiers that are looser or stricter than given ones.
-- The random source is a parameter: `Draws` says what the n-th request gives. A request is a depth
-- guard followed by a flip of a coin; where the guard or the flip stops the search, the error flag
-- is set (src/DFSRndNumGenerator.cpp, `eager_backtracking`), and the callers return what they have.
use hipsmith.Prelude.{
  ℕ, suc, ◌+◌, Bool, true, false, not, ◌&&◌, ◌||◌, List, [], ◌∷◌, ltb, if◌then◌else◌, length,
  replicate,
}
use hipsmith.Qualifiers.Defs.{QualifierOptions, CvQualifiers}

pub data Draw : Type 0 where
  coin : Bool → Draw
  stop : Draw

abbrev pub Draws : Type 0
Draws = ℕ → Draw

-- The requests made so far, and the error flag.
pub record Source : Type 0 where
  pub made : ℕ
  pub failed : Bool

-- What a loop has pushed, the source, and whether a guard made it return early.
pub record Flags : Type 0 where
  pub flags : List Bool
  pub source : Source
  pub early : Bool

unfoldable pub finished : List Bool → Source → Flags
finished flags s = record { flags = flags; source = s; early = false }

unfoldable pub push : Bool → Flags → Flags
push b r = record r { flags = b ∷ r.flags }

unfoldable pub stopped : Source → Flags
stopped s = record { flags = []; source = record s { failed = true }; early = true }

-- DEPTH_GUARD_BY_DEPTH_RETURN(1, flags); rnd_flipcoin; ERROR_GUARD(flags); push_back
-- An error that is set already stops the loop at its first flip too.
unfoldable pub draw_flag : Draw → Source → (Source → Flags) → Flags
unfolding stopped push
draw_flag (coin b) s rest =
    if s.failed then stopped s else push b (rest (record s { made = s.made + 1 }))
draw_flag stop s rest = stopped s

-- All but the first flag are cleared, where pointers may not have the qualifier.
unfoldable pub clear_tail : List Bool → List Bool
clear_tail [] = []
clear_tail (x ∷ xs) = x ∷ replicate (length xs) false

unfoldable pub make_scalar_volatiles : QualifierOptions → List Bool → List Bool
unfolding clear_tail
make_scalar_volatiles o volatiles =
    if not o.volatile_pointers || not o.global_variables then clear_tail volatiles else volatiles

unfoldable pub make_scalar_consts : QualifierOptions → List Bool → List Bool
unfolding clear_tail
make_scalar_consts o consts = if not o.const_pointers then clear_tail consts else consts

-- An early return skips the last step, which clears the pointers' flags.
unfoldable pub scalar_at_end : QualifierOptions → Flags → Flags
unfolding make_scalar_volatiles
scalar_at_end o r = if r.early then r else record r { flags = make_scalar_volatiles o r.flags }

module _ (draws : Draws) where
  -- The loop of `random_looser_consts` over the levels that are left.
  unfoldable pub looser_consts : List Bool → Source → Flags
  unfolding draw_flag finished
  looser_consts [] s = finished [] s
  looser_consts (c ∷ cs) s =
      let here = push c (looser_consts cs s) in
      let drawn = draw_flag (draws s.made) s (looser_consts cs) in
      if not c || ltb 2 (suc (length cs)) then here else drawn

  unfoldable pub random_looser_consts : QualifierOptions → CvQualifiers → Source → Flags
  unfolding looser_consts
  random_looser_consts o q s =
      if o.match_exact_qualifiers then finished q.is_consts s else looser_consts q.is_consts s

  -- The loop of `random_looser_volatiles`; `storage` is `i == 0 && depth > 1`.
  unfoldable pub looser_volatiles : Bool → List Bool → Source → Flags
  unfolding draw_flag finished
  looser_volatiles storage [] s = finished [] s
  looser_volatiles storage (v ∷ vs) s =
      let here = push v (looser_volatiles false vs s) in
      let drawn = draw_flag (draws s.made) s (looser_volatiles false vs) in
      if not v || storage || ltb 2 (suc (length vs)) then here else drawn

  unfoldable pub random_looser_volatiles : QualifierOptions → CvQualifiers → Source → Flags
  unfolding looser_volatiles scalar_at_end
  random_looser_volatiles o q s =
      if o.match_exact_qualifiers
      then finished q.is_volatiles s
      else scalar_at_end o (looser_volatiles (ltb 1 (length q.is_volatiles)) q.is_volatiles s)

  -- The loop of `random_stricter_consts`, over both vectors.
  unfoldable pub stricter_consts : QualifierOptions → List Bool → List Bool → Source → Flags
  unfolding draw_flag finished
  stricter_consts o [] vs s = finished [] s
  stricter_consts o (c ∷ cs) [] s = finished [] s
  stricter_consts o (c ∷ cs) (v ∷ vs) s =
      let here = push c (stricter_consts o cs vs s) in
      let none_here = push false (stricter_consts o cs vs s) in
      let drawn = draw_flag (draws s.made) s (stricter_consts o cs vs) in
      if c || ltb 2 (suc (length cs))
      then here
      else if v && not o.allow_const_volatile
      then none_here
      else drawn

  unfoldable pub random_stricter_consts : QualifierOptions → CvQualifiers → Source → Flags
  unfolding stricter_consts
  random_stricter_consts o q s =
      if o.match_exact_qualifiers
      then finished q.is_consts s
      else stricter_consts o q.is_consts q.is_volatiles s

  unfoldable pub stricter_volatiles :
      QualifierOptions → Bool → List Bool → List Bool → Source → Flags
  unfolding draw_flag finished
  stricter_volatiles o storage [] cs s = finished [] s
  stricter_volatiles o storage (v ∷ vs) [] s = finished [] s
  stricter_volatiles o storage (v ∷ vs) (c ∷ cs) s =
      let here = push v (stricter_volatiles o false vs cs s) in
      let none_here = push false (stricter_volatiles o false vs cs s) in
      let drawn = draw_flag (draws s.made) s (stricter_volatiles o false vs cs) in
      if v || storage || ltb 2 (suc (length vs))
      then here
      else if c && not o.allow_const_volatile
      then none_here
      else drawn

  unfoldable pub random_stricter_volatiles : QualifierOptions → CvQualifiers → Source → Flags
  unfolding stricter_volatiles scalar_at_end
  random_stricter_volatiles o q s =
      if o.match_exact_qualifiers
      then finished q.is_volatiles s
      else scalar_at_end o
          (stricter_volatiles o (ltb 1 (length q.is_volatiles)) q.is_volatiles q.is_consts s)
