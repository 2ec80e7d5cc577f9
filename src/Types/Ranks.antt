-- ===== src/Types/Ranks.antt =====
-- src/Type.cpp: promotions of integers, and their unsigned types.
use hipsmith.Prelude.{
  ℕ, zero, suc, ◌<◌, ◌≤◌, ◌≡◌, refl, Bool, true, not, ◌&&◌, ◌||◌, leb, ◌==◌, xor, arith, Bool-cases,
  inl, inr,
}
use hipsmith.Types.Defs.{
  Types, simple, SimpleType, void, char, int, short, long, long_long, uchar, uint, ushort, ulong,
  float, ulong_long, int128, uint128, no_simple_type, code, is_simple, promotes, is_promotable,
}
use hipsmith.Types.Sizes.{size_of_simple, size_in_bytes}
use hipsmith.Types.Convert.{simple_at, simple_at-code}

-- The rank of an integer type of at most 64 bits, and 0 for all others.
unfoldable pub rank : SimpleType → ℕ
rank char = 1
rank uchar = 1
rank short = 2
rank ushort = 2
rank int = 3
rank uint = 3
rank long = 4
rank ulong = 4
rank long_long = 5
rank ulong_long = 5
rank _ = 0

abbrev all_below : (ℕ → Bool) → ℕ → Bool
all_below test zero = true
all_below test (suc n) = test n && all_below test n

all_below_lem : (test : ℕ → Bool) (n i : ℕ) → all_below test n ≡ true → i < n → test i ≡ true
all_below_lem test zero i h l = absurd (omega (arith, l))
all_below_lem test (suc n) i h l = elim (Bool-cases (n == i)) [
  | inl s ↦ let same : n ≡ i = ground (arith, s) in rw (← same) (ground (arith, h))
  | inr d ↦ all_below_lem test n i (ground (arith, h)) (ground (arith, d, l))
]

pub code_below : (s : SimpleType) → code s < 15
unfolding code
code_below void = omega arith
code_below char = omega arith
code_below int = omega arith
code_below short = omega arith
code_below long = omega arith
code_below long_long = omega arith
code_below uchar = omega arith
code_below uint = omega arith
code_below ushort = omega arith
code_below ulong = omega arith
code_below float = omega arith
code_below ulong_long = omega arith
code_below int128 = omega arith
code_below uint128 = omega arith
code_below no_simple_type = omega arith

-- What is to hold of two simple types, on their places in the enumeration.
abbrev rank_test : SimpleType → SimpleType → Bool
rank_test s t =
    (rank s == 0)
    || (rank t == 0)
    || (not (xor (promotes s t) (leb (rank s) (rank t)))
        && (not (promotes s t) || leb (size_of_simple s) (size_of_simple t)))

rank_test_all : all_below (λ i. all_below (λ j. rank_test (simple_at i) (simple_at j)) 15) 15 ≡ true
unfolding rank promotes size_of_simple
rank_test_all = refl

rank_test_holds : (s t : SimpleType) → rank_test s t ≡ true
rank_test_holds s t =
    let row =
      all_below_lem (λ i. all_below (λ j. rank_test (simple_at i) (simple_at j)) 15) 15 (code s)
        rank_test_all (code_below s) in
    let cell =
      all_below_lem (λ j. rank_test (simple_at (code s)) (simple_at j)) 15 (code t) row
        (code_below t) in
    rw (simple_at-code s, simple_at-code t) at cell

-- Between integer types of at most 64 bits, promotion is the order of their ranks, whatever their
-- signs, and goes to a type that is at least as large.
pub is_promotable-rank :
    (m : Types) (depth a b : ℕ)
    → m.kind a ≡ simple
    → m.kind b ≡ simple
    → 0 < rank (m.simple_type a)
    → 0 < rank (m.simple_type b)
    → (is_promotable m a b ≡ leb (rank (m.simple_type a)) (rank (m.simple_type b)))
      × (is_promotable m a b ≡ true → size_in_bytes m (suc depth) a ≤ size_in_bytes m (suc depth) b)
unfolding is_promotable is_simple size_in_bytes
is_promotable-rank m depth a b ka kb ra rb =
    let holds = rank_test_holds (m.simple_type a) (m.simple_type b) in
    rw (size_in_bytes, is_promotable, ka, kb)
      (ground (arith, holds, ra, rb), λ p. ground (arith, holds, ra, rb, p))
