-- ===== src/Expansion/Options.antt =====
-- src/PartialExpander.cpp: what the option asks for is what is expanded.
use hipsmith.Prelude.{
  ℕ, ◌≡◌, refl, ap, sym, ◌∙◌, Bool, true, false, not, ◌&&◌, ◌||◌, Option, none, some, List, [], ◌∷◌,
  ◌==◌, ltb, if◌then◌else◌, arith, Bool-cases, Option-cases, inl, inr,
}
use mathlib.Core.Bool.{or-true, or-false, or_assoc}
use hipsmith.Expansion.Defs.{
  StatementType, assign, block, for, if_else, invoke, return, max_statement_type, code_of, Expands,
  Expander, codes, same_text, set_stmt_expand, is_set, is_found, init_map, copy_expands, set_expand,
  pieces, starts_with_space, set_pieces, parse_options, init_partial_expander,
}

-- A word asks for one kind or for all of them.
pub data Request : Type 0 where
  one : StatementType → Request
  all_kinds : Request

unfoldable pub request_of : List ℕ → Option Request
unfolding same_text
request_of s =
    if same_text s (codes "assignment")
    then some (one assign)
    else if same_text s (codes "block")
    then some (one block)
    else if same_text s (codes "for")
    then some (one for)
    else if same_text s (codes "if-else")
    then some (one if_else)
    else if same_text s (codes "invoke")
    then some (one invoke)
    else if same_text s (codes "return")
    then some (one return)
    else if same_text s (codes "all")
    then some all_kinds
    else none

-- The six kinds that can be asked for.
unfoldable pub can_be_asked : StatementType → Bool
unfolding code_of
can_be_asked u = ltb (code_of u) 6

unfoldable pub asks : Request → StatementType → Bool
unfolding code_of can_be_asked
asks (one t) u = code_of u == code_of t
asks all_kinds u = can_be_asked u

unfoldable pub asked_by : List ℕ → StatementType → Bool
unfolding request_of asks
asked_by w u = elim (request_of w) [ none ↦ false | some r ↦ asks r u ]

unfoldable pub asked : List (List ℕ) → StatementType → Bool
unfolding asked_by
asked [] u = false
asked (w ∷ ws) u = asked_by w u || asked ws u

unfoldable pub all_known : List (List ℕ) → Bool
unfolding request_of
all_known [] = true
all_known (w ∷ ws) =
    let known : Bool = elim (request_of w) [ none ↦ false | some r ↦ true ] in known && all_known ws

unfoldable pub no_spaces : List (List ℕ) → Bool
unfolding starts_with_space
no_spaces [] = true
no_spaces (w ∷ ws) = not (starts_with_space w) && no_spaces ws

unfoldable grant : Option Request → Expands → Bool × Expands
unfolding set_stmt_expand init_map
grant none m = (false, m)
grant (some (one t)) m = (true, set_stmt_expand t true m)
grant (some all_kinds) m = (true, init_map true m)

set_expand-grant : (w : List ℕ) (m : Expands) → set_expand w m ≡ grant (request_of w) m
unfolding set_expand grant request_of
set_expand-grant w m = ground arith

is_set-set_stmt_expand :
    (t u : StatementType) (m : Expands)
    → is_set (set_stmt_expand t true m) u ≡ is_set m u || (code_of u == code_of t)
unfolding is_set set_stmt_expand
is_set-set_stmt_expand t u m = elim (Bool-cases (code_of u == code_of t)) [
  | inl y ↦ rw (is_set, set_stmt_expand, y) (sym (or-true (is_set m u)))
  | inr n ↦ rw (is_set, set_stmt_expand, n) (sym (or-false (is_set m u)))
]

is_set-init_map :
    (m : Expands) (u : StatementType) → can_be_asked u ≡ true → is_set (init_map true m) u ≡ true
unfolding is_set init_map set_stmt_expand can_be_asked code_of
is_set-init_map m assign h = refl
is_set-init_map m block h = refl
is_set-init_map m for h = refl
is_set-init_map m if_else h = refl
is_set-init_map m invoke h = refl
is_set-init_map m return h = refl
is_set-init_map m u h = grind arith

is_set-grant :
    (r : Request) (m : Expands) (u : StatementType)
    → can_be_asked u ≡ true
    → is_set (grant (some r) m).1 u ≡ is_set m u || asks r u
unfolding grant asks
is_set-grant (one t) m u h = is_set-set_stmt_expand t u m
is_set-grant all_kinds m u h =
    is_set-init_map m u h ∙ sym (or-true (is_set m u)) ∙ ap (λ b. is_set m u || b) (sym h)

known_request :
    (w : List ℕ) (ws : List (List ℕ))
    → all_known (w ∷ ws) ≡ true
    → (r : Request) × (request_of w ≡ some r) × (all_known ws ≡ true)
unfolding all_known
known_request w ws k = elim (Option-cases (request_of w)) [
  | inl n ↦ grind (arith, n)
  | inr (r, e) ↦ (r, e, ground (arith, e))
]

set_pieces-cons :
    (w : List ℕ) (ws : List (List ℕ)) (r : Request) (m : Expands)
    → starts_with_space w ≡ false
    → request_of w ≡ some r
    → set_pieces (w ∷ ws) m ≡ set_pieces ws (grant (some r) m).1
unfolding set_pieces grant
set_pieces-cons w ws (one t) m s e = rw (set_expand-grant w m, e, s) refl
set_pieces-cons w ws all_kinds m s e = rw (set_expand-grant w m, e, s) refl

asked-cons :
    (w : List ℕ) (ws : List (List ℕ)) (r : Request) (u : StatementType)
    → request_of w ≡ some r
    → asked (w ∷ ws) u ≡ asks r u || asked ws u
unfolding asked asked_by
asked-cons w ws r u e = ap (λ o. elim o [ none ↦ false | some q ↦ asks q u ] || asked ws u) e

is_found-set_stmt_expand :
    (t u : StatementType) (b : Bool) (m : Expands)
    → is_found (m u) ≡ true
    → is_found (set_stmt_expand t b m u) ≡ true
unfolding is_found set_stmt_expand
is_found-set_stmt_expand t u b m h = elim (Bool-cases (code_of u == code_of t)) [
  | inl y ↦ rw (is_found, set_stmt_expand, y) refl
  | inr n ↦ rw (is_found, set_stmt_expand, n) h
]

is_found-grant :
    (r : Request) (m : Expands) (u : StatementType)
    → is_found (m u) ≡ true
    → is_found ((grant (some r) m).1 u) ≡ true
unfolding grant init_map
is_found-grant (one t) m u h = is_found-set_stmt_expand t u true m h
is_found-grant all_kinds m u h = search (h, is_found-set_stmt_expand) depth 9

-- The loop sets what its words ask for, and loses no key.
set_pieces_lem :
    (ws : List (List ℕ)) (m : Expands)
    → no_spaces ws ≡ true
    → all_known ws ≡ true
    → (m' : Expands) × (set_pieces ws m ≡ some (true, m'))
      × ((u : StatementType) → can_be_asked u ≡ true → is_set m' u ≡ is_set m u || asked ws u)
      × ((u : StatementType) → is_found (m u) ≡ true → is_found (m' u) ≡ true)
unfolding set_pieces no_spaces asked
set_pieces_lem [] m h k = (m, refl, (λ u c. sym (or-false (is_set m u))), λ u c. c)
set_pieces_lem (w ∷ ws) m h k =
    let (r, e, k') = known_request w ws k in
    let h0 : starts_with_space w ≡ false = ground arith in
    let h' : no_spaces ws ≡ true = ground arith in
    let (m', f, g, found) = set_pieces_lem ws (grant (some r) m).1 h' k' in
    (
      m',
      set_pieces-cons w ws r m h0 e ∙ f,
      (λ u c.
          g u c
          ∙ ap (λ b. b || asked ws u) (is_set-grant r m u c)
          ∙ or_assoc (is_set m u) (asks r u) (asked ws u)
          ∙ ap (λ b. is_set m u || b) (sym (asked-cons w ws r u e))),
      λ u c. found u (is_found-grant r m u c),
    )

start_lem :
    (m : Expands) (u : StatementType)
    → can_be_asked u ≡ true
    → (is_set (init_map false m) u ≡ false) × (is_found (init_map false m u) ≡ true)
unfolding is_set is_found init_map set_stmt_expand can_be_asked code_of
start_lem m assign h = (refl, refl)
start_lem m block h = (refl, refl)
start_lem m for h = (refl, refl)
start_lem m if_else h = (refl, refl)
start_lem m invoke h = (refl, refl)
start_lem m return h = (refl, refl)
start_lem m u h = grind arith

-- What the words ask for is to be expanded, here and in the copy, and something is left to expand.
pub record IsExpanding (ws : List (List ℕ)) (s : Expander) : Type 0 where
  pub is_open : is_set s.expands max_statement_type ≡ true
  pub as_asked : (u : StatementType) → can_be_asked u ≡ true → is_set s.expands u ≡ asked ws u
  pub backup_as_asked :
      (u : StatementType) → can_be_asked u ≡ true → is_set s.expands_backup u ≡ asked ws u

opened_lem :
    (m : Expands) (u : StatementType)
    → can_be_asked u ≡ true
    → set_stmt_expand max_statement_type true m u ≡ m u
unfolding set_stmt_expand can_be_asked code_of
opened_lem m u h = ground arith

copied_lem : (d m : Expands) (u : StatementType) → is_found (m u) ≡ true → copy_expands d m u ≡ m u
unfolding copy_expands is_found
copied_lem d m u h = ground arith

-- If no piece of the option starts with a space and all of them are known, then the option is accepted,
-- and afterwards a kind that can be asked for is to be expanded if and only if the option asks for it, in
-- the map and in its copy, and the flag is on.
pub init_partial_expander-IsExpanding :
    (options : List ℕ) (s : Expander)
    → no_spaces (pieces b',' options) ≡ true
    → all_known (pieces b',' options) ≡ true
    → (s' : Expander) × (init_partial_expander options s ≡ some (true, s'))
      × IsExpanding (pieces b',' options) s'
unfolding init_partial_expander parse_options is_set
init_partial_expander-IsExpanding options s h k =
    let (m, e, g, found) = set_pieces_lem (pieces b',' options) (init_map false s.expands) h k in
    let m' = set_stmt_expand max_statement_type true m in
    let opened : (u : StatementType) → can_be_asked u ≡ true → m' u ≡ m u = opened_lem m in
    let kept : (u : StatementType) → can_be_asked u ≡ true → is_found (m' u) ≡ true =
      λ u c. ap is_found (opened u c) ∙ found u (start_lem s.expands u c).1 in
    let right : (u : StatementType)
        → can_be_asked u ≡ true
        → is_set m u ≡ asked (pieces b',' options) u =
      λ u c. g u c ∙ ap (λ b. b || asked (pieces b',' options) u) (start_lem s.expands u c).0 in
    let set : Option Bool → Bool = λ o. elim o [ none ↦ false | some b ↦ b ] in
    (
      record s { expands = m'; expands_backup = copy_expands s.expands_backup m' },
      rw (init_partial_expander, parse_options, e) refl,
      record {
        is_open = refl;
        as_asked = λ u c. ap set (opened u c) ∙ right u c;
        backup_as_asked = λ u c.
            ap set (copied_lem s.expands_backup m' u (kept u c)) ∙ ap set (opened u c) ∙ right u c;
      },
    )
