-- ===== src/Contexts/Reached.antt =====
-- src/CGContext.cpp: the accesses that are made where a pointer is followed.
use hipsmith.Prelude.{
  ℕ, zero, suc, Bool, false, not, ◌&&◌, ◌||◌, none, some, List, [], ◌∷◌, ◌==◌, if◌then◌else◌,
}
use hipsmith.Variables.Store.{Store}
use hipsmith.Effects.Defs.{Effect}
use hipsmith.Facts.Defs.{Fact}
use hipsmith.Facts.PointTo.{Specials, is_special_ptr, merge_pointees_of_pointers}
use hipsmith.Contexts.Race.{read_races, write_races}

module _ (m : Store) (s : Specials) (around : Effect) where
  -- Whether the access to a variable, a write or a read, races with the effects around.
  unfoldable pub access_races : Bool → ℕ → Bool
  unfolding read_races write_races
  access_races writes v =
      if writes then write_races m around (m.collective v) else read_races m around (m.collective v)

  -- Whether one of the accesses to the variables that are reached at one level races.
  unfoldable pub pointee_races : Bool → List ℕ → Bool
  unfolding access_races
  pointee_races writes [] = false
  pointee_races writes (p ∷ ps) =
      (not (is_special_ptr s p) && access_races writes p) || pointee_races writes ps

  -- The same for the variables that are reached at any level: the last ones are written to if
  -- `writes` is set, and the others are read.
  unfoldable pub level_races : Bool → List Fact → ℕ → List ℕ → Bool
  unfolding pointee_races
  level_races writes facts zero tmp = false
  level_races writes facts (suc indirect) tmp = elim (merge_pointees_of_pointers m s facts tmp) [
    | none ↦ false
    | some pointees ↦
        pointee_races (writes && (indirect == 0)) pointees
        || level_races writes facts indirect pointees
  ]
