-- ===== src/Choices/Filter.antt =====
-- src/Filter.cpp and src/VectorFilter.cpp: filters on drawn numbers. A failing assertion, a test of a
-- bit that is not there, and a draw that the table does not have are `none`.
pub mod Added
use hipsmith.Prelude.{
  ℕ, ◌+◌, ◌≡◌, Bool, true, false, not, ◌||◌, Option, none, some, List, [], ◌∷◌, ◌++◌, ◌==◌, elem,
  if◌then◌else◌,
}
use hipsmith.Choices.Distribution.{DistributionTable, rnd_num_to_key}
use mathlib.Core.Option

-- FilterKind, where `no_kind` is MAX_FILTER_KIND_SIZE
pub data FilterKind : Type 0 where
  default_kind dfs_kind no_kind : FilterKind

-- The bits of `kinds_`.
pub record Kinds : Type 0 where
  pub for_default : Bool
  pub for_dfs : Bool

-- The mode of the run, of CGOptions.
pub record Mode : Type 0 where
  pub random_based : Bool
  pub dfs_exhaustive : Bool

unfoldable pub all_kinds : Kinds
all_kinds = record { for_default = true; for_dfs = true }

unfoldable pub set_kind : Bool → Kinds → FilterKind → Option Kinds
set_kind b kinds default_kind = some (record kinds { for_default = b })
set_kind b kinds dfs_kind = some (record kinds { for_dfs = b })
set_kind b kinds no_kind = none

unfoldable pub enable : Kinds → FilterKind → Option Kinds
unfolding set_kind
enable = set_kind true

unfoldable pub disable : Kinds → FilterKind → Option Kinds
unfolding set_kind
disable = set_kind false

unfoldable pub current_kind : Mode → FilterKind
current_kind o =
    if o.random_based then default_kind else if o.dfs_exhaustive then dfs_kind else no_kind

unfoldable pub test_kind : Kinds → FilterKind → Option Bool
test_kind kinds default_kind = some kinds.for_default
test_kind kinds dfs_kind = some kinds.for_dfs
test_kind kinds no_kind = none

unfoldable pub valid_filter : Mode → Kinds → Option Bool
unfolding test_kind current_kind
valid_filter o kinds = test_kind kinds (current_kind o)

-- `filter_out` is `flag_ == FILTER_OUT`.
pub record VectorFilter : Type 0 where
  pub kinds : Kinds
  pub vs : List ℕ
  pub ptable : Option DistributionTable
  pub filter_out : Bool

-- VectorFilter::add
unfoldable pub add : VectorFilter → ℕ → VectorFilter
add f item = if not (elem item f.vs) then record f { vs = f.vs ++ item ∷ [] } else f

unfoldable pub get_max_prob : VectorFilter → ℕ
get_max_prob f = elim f.ptable [ none ↦ 100 | some t ↦ t.max_prob ]

unfoldable pub lookup : Mode → VectorFilter → ℕ → Option ℕ
unfolding valid_filter rnd_num_to_key
lookup o f v = elim (valid_filter o f.kinds) [
  | none ↦ none
  | some valid ↦
      if not valid then some v else elim f.ptable [ none ↦ some v | some t ↦ rnd_num_to_key t v ]
]

-- VectorFilter::filter
unfoldable pub filter : Mode → VectorFilter → ℕ → Option Bool
unfolding valid_filter lookup
filter o f v = elim (valid_filter o f.kinds) [
  | none ↦ none
  | some valid ↦
      if not valid
      then some false
      else Option.map (λ key. if f.filter_out then elem key f.vs else not (elem key f.vs))
          (lookup o f v)
]
