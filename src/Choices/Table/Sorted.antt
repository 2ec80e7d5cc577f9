-- ===== src/Choices/Table/Sorted.antt =====
-- src/ProbabilityTable.h: a table stays sorted, and gives a value for each key below its maximum.
use hipsmith.Prelude.{
  ℕ, ◌<◌, ◌≤◌, ◌≡◌, refl, none, some, List, [], ◌∷◌, ltb, if◌then◌else◌, arith, Bool-cases, inl,
  inr,
}
use hipsmith.Choices.Table.{
  TableEntry, ProbabilityTable, empty_table, insert_before, has_greater, add_elem, first_greater,
  get_value,
}

-- The entries stand in the order of their keys, from `low` on.
abbrev pub Sorted : ℕ → List TableEntry → Type 0
Sorted low [] = Unit
Sorted low (x ∷ xs) = (low ≤ x.key) × Sorted x.key xs

-- The largest key, or the default.
unfoldable pub last_key : ℕ → List TableEntry → ℕ
last_key low [] = low
last_key low (x ∷ xs) = last_key x.key xs

pub record IsTable (p : ProbabilityTable) : Type 0 where
  pub sorted : Sorted 0 p.table
  pub maximal : p.curr_max_key ≡ last_key 0 p.table

insert_before-Sorted :
    (low : ℕ) (t : TableEntry) (xs : List TableEntry)
    → low ≤ t.key
    → Sorted low xs
    → Sorted low (insert_before t xs)
unfolding insert_before
insert_before-Sorted low t [] l s = (l, tt)
insert_before-Sorted low t (x ∷ xs) l s = elim (Bool-cases (ltb t.key x.key)) [
  | inl e ↦ let below : t.key ≤ x.key = ground (arith, e) in rw e (l, (below, s.1))
  | inr n ↦ rw n (s.0, insert_before-Sorted x.key t xs (ground (arith, n)) s.1)
]

last_key-insert_before :
    (low : ℕ) (t : TableEntry) (xs : List TableEntry)
    → last_key low (insert_before t xs) ≡ (if has_greater t.key xs then last_key low xs else t.key)
unfolding insert_before has_greater last_key
last_key-insert_before low t [] = refl
last_key-insert_before low t (x ∷ xs) = elim (Bool-cases (ltb t.key x.key)) [
  | inl e ↦ rw e refl
  | inr n ↦ rw n (last_key-insert_before x.key t xs)
]

-- The empty table is sorted and knows its largest key, and adding an element keeps that.
pub add_elem-IsTable :
    (p : ProbabilityTable) (k v : ℕ) → IsTable p → IsTable empty_table × IsTable (add_elem p k v)
unfolding empty_table add_elem last_key
add_elem-IsTable p k v ok = (
  record { sorted = tt; maximal = refl },
  record {
    sorted = insert_before-Sorted 0 (record { key = k; value = v }) p.table (omega arith) ok.sorted;
    maximal =
        let last = last_key-insert_before 0 (record { key = k; value = v }) p.table in
        ground (arith, last, ok.maximal);
  },
)

first_greater_found :
    (low k : ℕ) (xs : List TableEntry)
    → low ≤ k
    → k < last_key low xs
    → (v : ℕ) × (first_greater k xs ≡ some v)
unfolding first_greater last_key
first_greater_found low k [] l h = absurd (omega (arith, l, h))
first_greater_found low k (x ∷ xs) l h = elim (Bool-cases (ltb k x.key)) [
  | inl e ↦ (x.value, ground (arith, e))
  | inr n ↦
      let (v, r) = first_greater_found x.key k xs (ground (arith, n)) h in (v, ground (arith, n, r))
]

-- `get_value` meets no failing assertion exactly for the keys below the largest one.
pub get_value_iff :
    (p : ProbabilityTable) (k : ℕ)
    → IsTable p
    → (v : ℕ) × (get_value p k ≡ (if ltb k p.curr_max_key then some v else none))
unfolding get_value
get_value_iff p k ok = elim (Bool-cases (ltb k p.curr_max_key)) [
  | inl e ↦
      let (v, r) = first_greater_found 0 k p.table (omega arith) (ground (arith, e, ok.maximal)) in
      (v, ground (arith, e, r))
  | inr n ↦ (0, ground (arith, n))
]
