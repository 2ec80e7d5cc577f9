-- ===== src/Choices/Distribution/Shares.antt =====
-- src/Probabilities.cpp: each key is drawn as often as its probability says.
use hipsmith.Prelude.{
  ℕ, zero, suc, ◌+◌, ◌-◌, ◌<◌, ◌≡◌, refl, ◌∙◌, Bool, false, Option, none, some, List, [], ◌∷◌, ◌++◌,
  ◌==◌, if◌then◌else◌, length, length-append, elem, arith, Bool-cases, inl, inr,
}
use hipsmith.Variables.Sets.{NoDup}
use hipsmith.Choices.Distribution.{
  DistributionTable, IsDistribution, empty_distribution, add_entry, prob_at, key_to_prob, key_at,
  rnd_num_to_key, sum,
}

sum-append : (xs ys : List ℕ) → sum (xs ++ ys) ≡ sum xs + sum ys
unfolding sum
sum-append [] ys = omega arith
sum-append (x ∷ xs) ys = omega (arith, sum-append xs ys)

-- The empty table is well-formed, and adding an entry keeps a table well-formed.
pub add_entry-IsDistribution :
    (t : DistributionTable) (key prob : ℕ)
    → IsDistribution t
    → IsDistribution empty_distribution × IsDistribution (add_entry t key prob)
unfolding empty_distribution add_entry sum
add_entry-IsDistribution t key prob ok = (
  record { paired = refl; summed = refl },
  record {
    paired =
        omega
          (arith, ok.paired, length-append t.keys (key ∷ []), length-append t.probs (prob ∷ []));
    summed = omega (arith, ok.summed, sum-append t.probs (prob ∷ []));
  },
)

same_key : Option ℕ → ℕ → Bool
same_key none k = false
same_key (some a) k = a == k

-- How many of the `n` numbers from `start` on give the key `k`.
pub hits : (ℕ → Option ℕ) → ℕ → ℕ → ℕ → ℕ
unfolding same_key
hits f k start zero = 0
hits f k start (suc n) = (if same_key (f start) k then 1 else 0) + hits f k (suc start) n

module _ (f : ℕ → Option ℕ) (k : ℕ) where
  hits_add : (p n start : ℕ) → hits f k start (p + n) ≡ hits f k start p + hits f k (start + p) n
  unfolding hits
  hits_add zero n start =
      let e : start + 0 ≡ start = omega arith in
      let z : 0 + n ≡ n = omega arith in rw (e, z) (omega arith)
  hits_add (suc p) n start =
      let e : start + suc p ≡ suc start + p = omega arith in
      let z : suc p + n ≡ suc (p + n) = omega arith in
      rw (e, z) (omega (arith, hits_add p n (suc start)))

  hits_const :
      (a n start : ℕ)
      → ((r : ℕ) → r < start + n → f r ≡ some a)
      → hits f k start n ≡ (if a == k then n else 0)
  unfolding hits same_key
  hits_const a zero start h = ground arith
  hits_const a (suc n) start h =
      let rest = hits_const a n (suc start) (λ r l. h r (omega (arith, l))) in
      ground (arith, h start (omega arith), rest)

  hits_shift :
      (g : ℕ → Option ℕ) (p n start : ℕ)
      → ((r : ℕ) → f (r + p) ≡ g r)
      → hits f k (start + p) n ≡ hits g k start n
  unfolding hits
  hits_shift g p zero start h = refl
  hits_shift g p (suc n) start h =
      let e : suc (start + p) ≡ suc start + p = omega arith in
      rw (h start, e, hits_shift g p n (suc start) h) refl

  hits_cong :
      (g : ℕ → Option ℕ) (n start : ℕ)
      → ((r : ℕ) → r < start + n → f r ≡ g r)
      → hits f k start n ≡ hits g k start n
  unfolding hits
  hits_cong g zero start h = refl
  hits_cong g (suc n) start h =
      rw (h start (omega arith), hits_cong g n (suc start) (λ r l. h r (omega (arith, l)))) refl

-- The numbers below the first probability give the first key, and the others what the rest gives.
hits-key_at :
    (k key p : ℕ) (keys probs : List ℕ)
    → hits (key_at (key ∷ keys) (p ∷ probs)) k 0 (sum (p ∷ probs))
      ≡ (if key == k then p else 0) + hits (key_at keys probs) k 0 (sum probs)
unfolding key_at sum
hits-key_at k key p keys probs =
    let f = key_at (key ∷ keys) (p ∷ probs) in
    let first = hits_const f k key p 0 (λ r l. ground (arith, l)) in
    let later =
      hits_shift f k (key_at keys probs) p (sum probs) 0
        (λ r. let back : (r + p) - p ≡ r = omega arith in ground (arith, back)) in
    let both = hits_add f k p (sum probs) 0 in omega (arith, first, later, both)

hits_missing :
    (k : ℕ) (keys probs : List ℕ)
    → length keys ≡ length probs
    → elem k keys ≡ false
    → hits (key_at keys probs) k 0 (sum probs) ≡ 0
unfolding sum hits
hits_missing k [] [] e n = refl
hits_missing k [] (p ∷ probs) e n = absurd (omega (arith, e))
hits_missing k (key ∷ keys) [] e n = absurd (omega (arith, e))
hits_missing k (key ∷ keys) (p ∷ probs) e n =
    let rest = hits_missing k keys probs (omega (arith, e)) (ground (arith, n)) in
    let all = hits-key_at k key p keys probs in ground (arith, n, rest, all)

hits-prob_at :
    (k : ℕ) (keys probs : List ℕ)
    → length keys ≡ length probs
    → NoDup keys
    → hits (key_at keys probs) k 0 (sum probs) ≡ prob_at k keys probs
unfolding sum hits prob_at
hits-prob_at k [] [] e d = refl
hits-prob_at k [] (p ∷ probs) e d = absurd (omega (arith, e))
hits-prob_at k (key ∷ keys) [] e d = absurd (omega (arith, e))
hits-prob_at k (key ∷ keys) (p ∷ probs) e d = elim (Bool-cases (key == k)) [
  | inl s ↦
      let same : key ≡ k = ground (arith, s) in
      let rest = hits_missing k keys probs (omega (arith, e)) (rw (← same) d.0) in
      let all = hits-key_at k key p keys probs in ground (arith, s, rest, all)
  | inr n ↦
      let rest = hits-prob_at k keys probs (omega (arith, e)) d.1 in
      let all = hits-key_at k key p keys probs in ground (arith, n, rest, all)
]

-- In a well-formed table without a key twice, the numbers below `get_max` that give a key are as
-- many as the key's probability, which is 0 for other keys.
pub hits-rnd_num_to_key :
    (t : DistributionTable) (k : ℕ)
    → IsDistribution t
    → NoDup t.keys
    → hits (rnd_num_to_key t) k 0 t.max_prob ≡ key_to_prob t k
unfolding rnd_num_to_key key_to_prob
hits-rnd_num_to_key t k ok d =
    let same =
      hits_cong (rnd_num_to_key t) k (key_at t.keys t.probs) t.max_prob 0
        (λ r l. ground (arith, l, ok.paired)) in
    let all = hits-prob_at k t.keys t.probs ok.paired d in same ∙ rw ok.summed all
