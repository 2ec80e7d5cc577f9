-- ===== src/Tests/Expansion.antt =====
-- Partial expansion at small inputs.
use hipsmith.Prelude.{◌≡◌, refl, Bool, true, false, Option, none, some, List, [], ◌∷◌}
use hipsmith.Expansion.Defs.{
  StatementType, assign, block, for, if_else, invoke, return, continue, break, goto, hip_statement,
  array_op, max_statement_type, Expander, codes, is_set, pieces, init_partial_expander,
  restore_init_values, expand_check,
}
use hipsmith.Expansion.Options.{
  no_spaces, all_known, IsExpanding, init_partial_expander-IsExpanding,
}
use hipsmith.Expansion.Checks.{expand_checks, answers, all_found, expand_checks-answers}

abbrev nothing : Expander
nothing = record { expands = λ t. none; expands_backup = λ t. none }

abbrev expander_of : Option (Bool × Expander) → Expander
expander_of none = nothing
expander_of (some r) = r.1

-- `--partial-expand for,invoke`
abbrev loops_and_calls : Expander
loops_and_calls = expander_of (init_partial_expander (codes "for,invoke") nothing)

abbrev answer_of : Option (Bool × Expander) → Option Bool
answer_of none = none
answer_of (some r) = some r.0

known_options :
    (answer_of (init_partial_expander (codes "for,invoke") nothing) ≡ some true)
    × (answer_of (init_partial_expander (codes "for,loop") nothing) ≡ some false)
    × (answer_of (init_partial_expander (codes "for, invoke") nothing) ≡ none)
unfolding init_partial_expander
known_options = (refl, refl, refl)

-- The assertion on kinds without a key.
break_is_missing : answer_of (expand_check break loops_and_calls) ≡ none
unfolding init_partial_expander expand_check
break_is_missing = refl

abbrev drawn_kinds : List StatementType
drawn_kinds = block ∷ return ∷ assign ∷ block ∷ []

flag_is_set : is_set loops_and_calls.expands max_statement_type ≡ true
unfolding init_partial_expander is_set
flag_is_set = refl

keys_found : all_found loops_and_calls.expands drawn_kinds ≡ true
unfolding init_partial_expander all_found
keys_found = refl

same_backup : (u : StatementType) → loops_and_calls.expands_backup u ≡ loops_and_calls.expands u
unfolding init_partial_expander
same_backup assign = refl
same_backup block = refl
same_backup for = refl
same_backup if_else = refl
same_backup invoke = refl
same_backup return = refl
same_backup continue = refl
same_backup break = refl
same_backup goto = refl
same_backup hip_statement = refl
same_backup array_op = refl
same_backup max_statement_type = refl

first_assignment :
    answers loops_and_calls.expands false drawn_kinds ≡ false ∷ false ∷ true ∷ true ∷ []
unfolding init_partial_expander answers
first_assignment = refl

expand_checks-answers_example :
    (s' : Expander) × (expand_checks drawn_kinds loops_and_calls
      ≡ some (answers loops_and_calls.expands false drawn_kinds, s'))
    × ((u : StatementType) → (restore_init_values s').expands u ≡ loops_and_calls.expands u)
expand_checks-answers_example =
    expand_checks-answers drawn_kinds loops_and_calls flag_is_set keys_found same_backup

no_space_asked : no_spaces (pieces b',' (codes "for,invoke")) ≡ true
unfolding no_spaces pieces
no_space_asked = refl

known_words : all_known (pieces b',' (codes "for,invoke")) ≡ true
unfolding all_known pieces
known_words = refl

init_partial_expander-IsExpanding_example :
    (s' : Expander) × (init_partial_expander (codes "for,invoke") nothing ≡ some (true, s'))
    × IsExpanding (pieces b',' (codes "for,invoke")) s'
init_partial_expander-IsExpanding_example =
    init_partial_expander-IsExpanding (codes "for,invoke") nothing no_space_asked known_words
