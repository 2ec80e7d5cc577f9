-- ===== src/Expansion/Defs.antt =====
-- src/PartialExpander.cpp. A map is a function into options, a missing key being `none`; a text is the
-- list of its codes. A failing assertion is `none`.
use hipsmith.Prelude.{
  ℕ, Bool, true, false, not, ◌&&◌, ◌||◌, Option, none, some, List, [], ◌∷◌, ◌==◌, if◌then◌else◌,
}
use Prim.Native.String.{String}
use Prim.Native.Char.{code as char_code}

pub data StatementType : Type 0 where
  assign : StatementType
  block : StatementType
  for : StatementType
  if_else : StatementType
  invoke : StatementType
  return : StatementType
  continue : StatementType
  break : StatementType
  goto : StatementType
  hip_statement : StatementType
  array_op : StatementType
  max_statement_type : StatementType

-- The place of a kind in the enumeration.
unfoldable pub code_of : StatementType → ℕ
code_of assign = 0
code_of block = 1
code_of for = 2
code_of if_else = 3
code_of invoke = 4
code_of return = 5
code_of continue = 6
code_of break = 7
code_of goto = 8
code_of hip_statement = 9
code_of array_op = 10
code_of max_statement_type = 11

abbrev pub Expands : Type 0
Expands = StatementType → Option Bool

pub record Expander : Type 0 where
  pub expands : Expands
  pub expands_backup : Expands

-- The codes of a text.
abbrev pub codes : String → List ℕ
codes String.[] = []
codes (String.◌∷◌ c s) = char_code c ∷ codes s

unfoldable pub same_text : List ℕ → List ℕ → Bool
same_text [] [] = true
same_text [] (d ∷ ds) = false
same_text (c ∷ cs) [] = false
same_text (c ∷ cs) (d ∷ ds) = (c == d) && same_text cs ds

unfoldable pub set_stmt_expand : StatementType → Bool → Expands → Expands
unfolding code_of
set_stmt_expand t value m u = if code_of u == code_of t then some value else m u

-- `m[t]`, where a missing key is false.
unfoldable pub is_set : Expands → StatementType → Bool
is_set m t = elim (m t) [ none ↦ false | some b ↦ b ]

unfoldable pub is_found : Option Bool → Bool
is_found none = false
is_found (some b) = true

unfoldable pub init_map : Bool → Expands → Expands
unfolding set_stmt_expand
init_map value m = set_stmt_expand max_statement_type value (
    set_stmt_expand return value (
      set_stmt_expand invoke value (
        set_stmt_expand if_else value (
          set_stmt_expand for value
            (set_stmt_expand block value (set_stmt_expand assign value m))))))

unfoldable pub copy_expands : Expands → Expands → Expands
copy_expands dest src t = elim (src t) [ none ↦ dest t | some b ↦ some b ]

-- The map afterwards, and whether the option is known.
unfoldable pub set_expand : List ℕ → Expands → Bool × Expands
unfolding same_text set_stmt_expand init_map
set_expand s m =
    if same_text s (codes "assignment")
    then (true, set_stmt_expand assign true m)
    else if same_text s (codes "block")
    then (true, set_stmt_expand block true m)
    else if same_text s (codes "for")
    then (true, set_stmt_expand for true m)
    else if same_text s (codes "if-else")
    then (true, set_stmt_expand if_else true m)
    else if same_text s (codes "invoke")
    then (true, set_stmt_expand invoke true m)
    else if same_text s (codes "return")
    then (true, set_stmt_expand return true m)
    else if same_text s (codes "all")
    then (true, init_map true m)
    else (false, m)

-- The pieces between the separators; there is always one.
unfoldable pub add_char : ℕ → List (List ℕ) → List (List ℕ)
add_char c [] = (c ∷ []) ∷ []
add_char c (w ∷ ws) = (c ∷ w) ∷ ws

unfoldable pub pieces : ℕ → List ℕ → List (List ℕ)
unfolding add_char
pieces sep_char [] = [] ∷ []
pieces sep_char (c ∷ cs) =
    let rest = pieces sep_char cs in if c == sep_char then [] ∷ rest else add_char c rest

unfoldable pub starts_with_space : List ℕ → Bool
starts_with_space [] = false
starts_with_space (c ∷ cs) = c == b' '

-- The loop of `parse_options`, which asserts that no piece starts with a space.
unfoldable pub set_pieces : List (List ℕ) → Expands → Option (Bool × Expands)
unfolding starts_with_space set_expand
set_pieces [] m = some (true, m)
set_pieces (w ∷ ws) m =
    let one = set_expand w m in
    let rest = set_pieces ws one.1 in
    if starts_with_space w then none else if not one.0 then some (false, one.1) else rest

unfoldable pub parse_options : List ℕ → ℕ → Expands → Option (Bool × Expands)
unfolding pieces set_pieces
parse_options options sep_char m = set_pieces (pieces sep_char options) m

unfoldable pub init_partial_expander : List ℕ → Expander → Option (Bool × Expander)
unfolding init_map parse_options set_stmt_expand copy_expands
init_partial_expander options s = elim (parse_options options b',' (init_map false s.expands)) [
  | none ↦ none
  | some (false, m) ↦ some (false, record s { expands = m })
  | some (true, m) ↦
      let m' = set_stmt_expand max_statement_type true m in
      some (true, record s { expands = m'; expands_backup = copy_expands s.expands_backup m' })
]

unfoldable pub restore_init_values : Expander → Expander
unfolding copy_expands
restore_init_values s = record s { expands = copy_expands s.expands s.expands_backup }

-- `expands_[t]`, which makes a missing key false.
unfoldable pub direct_expand_check : StatementType → Expander → Bool × Expander
unfolding is_set set_stmt_expand
direct_expand_check t s =
    (is_set s.expands t, record s { expands = set_stmt_expand t (is_set s.expands t) s.expands })

-- The key for `invoke` is taken to be there.
unfoldable pub expand_check : StatementType → Expander → Option (Bool × Expander)
unfolding is_set is_found set_stmt_expand code_of
expand_check t s =
    let rv = is_set s.expands t || ((code_of t == code_of assign) && is_set s.expands invoke) in
    let off = record s { expands = set_stmt_expand max_statement_type false s.expands } in
    if not (is_set s.expands max_statement_type)
    then some (true, off)
    else if not (is_found (s.expands t))
    then none
    else some (rv, if rv then off else s)
