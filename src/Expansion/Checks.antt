-- ===== src/Expansion/Checks.antt =====
-- src/PartialExpander.cpp: the checks of one program.
use hipsmith.Prelude.{
  ◌≡◌, refl, ap, ◌∙◌, Bool, true, false, ◌&&◌, ◌||◌, Option, none, some, List, [], ◌∷◌, ◌==◌,
  if◌then◌else◌, arith, Bool-cases, Option-cases, inl, inr,
}
use hipsmith.Expansion.Defs.{
  StatementType, assign, block, for, if_else, invoke, return, continue, break, goto, hip_statement,
  array_op, max_statement_type, code_of, Expands, Expander, set_stmt_expand, is_set, is_found,
  copy_expands, restore_init_values, expand_check,
}

-- The checks of one program, in their order: the answers, and the expander afterwards.
unfoldable pub expand_checks : List StatementType → Expander → Option (List Bool × Expander)
unfolding expand_check
expand_checks [] s = some ([], s)
expand_checks (t ∷ ts) s = elim (expand_check t s) [
  | none ↦ none
  | some (b, s') ↦ elim (expand_checks ts s') [ none ↦ none | some (bs, s2) ↦ some (b ∷ bs, s2) ]
]

-- Whether a kind is to be expanded: an assignment also if calls are.
unfoldable pub wanted : Expands → StatementType → Bool
unfolding is_set code_of
wanted m t = is_set m t || ((code_of t == code_of assign) && is_set m invoke)

-- No kind passes before one that is wanted, and from then on all do.
unfoldable pub answers : Expands → Bool → List StatementType → List Bool
unfolding wanted
answers m passed [] = []
answers m passed (t ∷ ts) = let now = passed || wanted m t in now ∷ answers m now ts

unfoldable pub all_found : Expands → List StatementType → Bool
unfolding is_found
all_found m [] = true
all_found m (t ∷ ts) = is_found (m t) && all_found m ts

-- The flag that says that a kind is still to be expanded.
abbrev off : Expander → Expander
off s = record s { expands = set_stmt_expand max_statement_type false s.expands }

-- Only that flag has changed.
pub record IsKept (s s' : Expander) : Type 0 where
  pub same_backup : s'.expands_backup ≡ s.expands_backup
  pub same_kinds :
      (u : StatementType)
      → (code_of u == code_of max_statement_type) ≡ false
      → s'.expands u ≡ s.expands u

off-IsKept : (s : Expander) → IsKept s (off s)
unfolding set_stmt_expand
off-IsKept s = record { same_backup = refl; same_kinds = λ u n. ground (arith, n) }

IsKept-trans : (s t u : Expander) → IsKept s t → IsKept t u → IsKept s u
IsKept-trans s t u h k = record {
  same_backup = k.same_backup ∙ h.same_backup;
  same_kinds = λ v n. k.same_kinds v n ∙ h.same_kinds v n;
}

no_checks : (s : Expander) → expand_checks [] s ≡ some ([], s)
unfolding expand_checks
no_checks s = refl

expand_checks-cons :
    (t : StatementType) (ts : List StatementType) (s s' u : Expander) (b : Bool) (bs : List Bool)
    → expand_check t s ≡ some (b, s')
    → expand_checks ts s' ≡ some (bs, u)
    → expand_checks (t ∷ ts) s ≡ some (b ∷ bs, u)
unfolding expand_checks
expand_checks-cons t ts s s' u b bs e f = rw (expand_checks, e, f) refl

off_done : (s : Expander) → is_set (off s).expands max_statement_type ≡ false
unfolding is_set set_stmt_expand code_of
off_done s = refl

check_done :
    (t : StatementType) (s : Expander)
    → is_set s.expands max_statement_type ≡ false
    → expand_check t s ≡ some (true, off s)
unfolding expand_check
check_done t s h = ground (arith, h)

-- Once the flag is off, all kinds pass.
passed_checks :
    (ts : List StatementType) (m : Expands) (s : Expander)
    → is_set s.expands max_statement_type ≡ false
    → (s' : Expander) × (expand_checks ts s ≡ some (answers m true ts, s')) × IsKept s s'
unfolding answers
passed_checks [] m s h = (s, no_checks s, record { same_backup = refl; same_kinds = λ u n. refl })
passed_checks (t ∷ ts) m s h =
    let (s', e, kept) = passed_checks ts m (off s) (off_done s) in
    (
      s',
      expand_checks-cons t ts s (off s) s' true (answers m true ts) (check_done t s h) e,
      IsKept-trans s (off s) s' (off-IsKept s) kept,
    )

check_wanted :
    (t : StatementType) (s : Expander)
    → is_set s.expands max_statement_type ≡ true
    → is_found (s.expands t) ≡ true
    → expand_check t s ≡ some (wanted s.expands t, if wanted s.expands t then off s else s)
unfolding expand_check wanted
check_wanted t s h f = ground (arith, h, f)

open_checks :
    (ts : List StatementType) (s : Expander)
    → is_set s.expands max_statement_type ≡ true
    → all_found s.expands ts ≡ true
    → (s' : Expander) × (expand_checks ts s ≡ some (answers s.expands false ts, s')) × IsKept s s'
unfolding answers all_found
open_checks [] s h f = (s, no_checks s, record { same_backup = refl; same_kinds = λ u n. refl })
open_checks (t ∷ ts) s h f =
    let one = check_wanted t s h (ground (arith, f)) in
    elim (Bool-cases (wanted s.expands t)) [
      | inl y ↦
          let (s', e, kept) = passed_checks ts s.expands (off s) (off_done s) in
          (
            s',
            rw y (
                expand_checks-cons t ts s (off s) s' true (answers s.expands true ts) (rw y at one)
                  e),
            IsKept-trans s (off s) s' (off-IsKept s) kept,
          )
      | inr n ↦
          let (s', e, kept) = open_checks ts s h (ground (arith, f)) in
          (
            s',
            rw n
                (expand_checks-cons t ts s s s' false (answers s.expands false ts) (rw n at one) e),
            kept,
          )
    ]

max_is_set :
    (s : Expander) (u : StatementType)
    → (code_of u == code_of max_statement_type) ≡ true
    → is_set s.expands max_statement_type ≡ true
    → s.expands u ≡ none
    → ⊥
unfolding is_set code_of
max_is_set s assign c h n = cc
max_is_set s block c h n = cc
max_is_set s for c h n = cc
max_is_set s if_else c h n = cc
max_is_set s invoke c h n = cc
max_is_set s return c h n = cc
max_is_set s continue c h n = cc
max_is_set s break c h n = cc
max_is_set s goto c h n = cc
max_is_set s hip_statement c h n = cc
max_is_set s array_op c h n = cc
max_is_set s max_statement_type c h n = let h' = rw (is_set, n) at h in cc

-- A key comes back from the backup, or was never changed.
restored :
    (s s' : Expander) (u : StatementType)
    → IsKept s s'
    → s.expands_backup u ≡ s.expands u
    → is_set s.expands max_statement_type ≡ true
    → (restore_init_values s').expands u ≡ s.expands u
unfolding restore_init_values copy_expands
restored s s' u kept backup h =
    let same : s'.expands_backup u ≡ s.expands u = ap (λ m. m u) kept.same_backup ∙ backup in
    elim (Option-cases (s.expands u)) [
      | inr (b, e) ↦ ground (arith, same, e)
      | inl n ↦ elim (Bool-cases (code_of u == code_of max_statement_type)) [
        | inr d ↦ ground (arith, same, n, kept.same_kinds u d)
        | inl m ↦ absurd (max_is_set s u m h n)
      ]
    ]

-- While a kind is still to be expanded, the checks of a program let no kind pass before one that is
-- wanted and every kind from then on, they meet no failing assertion, and `restore_init_values` makes
-- the expander ready for the next program. The kinds that are checked have keys, and the backup is a
-- copy.
pub expand_checks-answers :
    (ts : List StatementType) (s : Expander)
    → is_set s.expands max_statement_type ≡ true
    → all_found s.expands ts ≡ true
    → ((u : StatementType) → s.expands_backup u ≡ s.expands u)
    → (s' : Expander) × (expand_checks ts s ≡ some (answers s.expands false ts, s'))
      × ((u : StatementType) → (restore_init_values s').expands u ≡ s.expands u)
unfolding restore_init_values copy_expands
expand_checks-answers ts s h f backup =
    let (s', e, kept) = open_checks ts s h f in (s', e, λ u. restored s s' u kept (backup u) h)
