-- ===== src/Facts/Env.antt =====
-- src/Fact.cpp: environments of facts, one fact for each variable and kind.
pub mod Related
pub mod Merge
pub mod Unique
use hipsmith.Prelude.{
  ℕ, suc, ◌≡◌, Bool, true, false, not, ◌&&◌, ◌||◌, Option, none, some, List, [], ◌∷◌, ◌==◌,
  if◌then◌else◌, length,
}
use hipsmith.Facts.Defs.{Fact, is_related, equal, imply, join, join_visits, IsWf}
use mathlib.Core.Option

-- The position of an equal fact; -1 is `none`.
unfoldable pub find_fact : List Fact → Fact → Option ℕ
find_fact [] fact = none
find_fact (f ∷ facts) fact = if equal fact f then some 0 else Option.map suc (find_fact facts fact)

unfoldable pub find_related_fact : List Fact → Fact → Option Fact
find_related_fact [] new_fact = none
find_related_fact (f ∷ facts) new_fact =
    if is_related new_fact f then some f else find_related_fact facts new_fact

-- The functions that change an environment return it, and whether it has changed.
unfoldable pub merge_fact : List Fact → Fact → List Fact × Bool
merge_fact [] new_fact = (new_fact ∷ [], true)
merge_fact (f ∷ facts) new_fact =
    let rest = merge_fact facts new_fact in
    if is_related f new_fact
    then if not (imply f new_fact) then ((join new_fact f).0 ∷ facts, true) else (f ∷ facts, false)
    else (f ∷ rest.0, rest.1)

unfoldable pub merge_facts : List Fact → List Fact → List Fact × Bool
unfolding merge_fact
merge_facts facts [] = (facts, false)
merge_facts facts (f ∷ new_facts) =
    let one = merge_fact facts f in
    let rest = merge_facts one.0 new_facts in (rest.0, one.1 || rest.1)

unfoldable pub renew_fact : List Fact → Fact → List Fact × Bool
renew_fact [] new_fact = (new_fact ∷ [], true)
renew_fact (f ∷ facts) new_fact =
    let rest = renew_fact facts new_fact in
    if is_related new_fact f
    then if equal new_fact f then (f ∷ facts, false) else (new_fact ∷ facts, true)
    else (f ∷ rest.0, rest.1)

unfoldable pub renew_facts : List Fact → List Fact → List Fact × Bool
unfolding renew_fact
renew_facts facts [] = (facts, false)
renew_facts facts (f ∷ new_facts) =
    let one = renew_fact facts f in
    let rest = renew_facts one.0 new_facts in (rest.0, one.1 || rest.1)

-- The inner loop of `combine_facts`: the first related fact is joined with the new one.
unfoldable pub combine_fact : ℕ → List Fact → Fact → List Fact
combine_fact tbd [] new_fact = []
combine_fact tbd (f ∷ facts) new_fact =
    if is_related f new_fact
    then (join_visits tbd f new_fact).0 ∷ facts
    else f ∷ combine_fact tbd facts new_fact

unfoldable pub combine_facts : ℕ → List Fact → List Fact → List Fact
unfolding combine_fact
combine_facts tbd facts1 [] = facts1
combine_facts tbd facts1 (f ∷ facts2) = combine_facts tbd (combine_fact tbd facts1 f) facts2

-- The loop of `same_facts`.
unfoldable pub all_found : List Fact → List Fact → Bool
unfolding find_fact
all_found [] facts2 = true
all_found (f ∷ facts1) facts2 = elim (find_fact facts2 f) [
  | none ↦ false
  | some i ↦ all_found facts1 facts2
]

unfoldable pub same_facts : List Fact → List Fact → Bool
unfolding all_found
same_facts facts1 facts2 = if length facts1 == length facts2 then all_found facts1 facts2 else false

-- The test in the loop of `subset_facts`: a related fact of the environment implies the fact.
unfoldable pub covers : List Fact → Fact → Bool
unfolding find_related_fact
covers facts f = elim (find_related_fact facts f) [ none ↦ false | some g ↦ imply g f ]

unfoldable pub all_covered : List Fact → List Fact → Bool
unfolding covers
all_covered [] facts2 = true
all_covered (f ∷ facts1) facts2 = if not (covers facts2 f) then false else all_covered facts1 facts2

unfoldable pub subset_facts : List Fact → List Fact → Bool
unfolding all_covered
subset_facts facts1 facts2 =
    if length facts1 == length facts2 then all_covered facts1 facts2 else false

abbrev pub AllWf : List Fact → Type 0
AllWf [] = Unit
AllWf (f ∷ facts) = IsWf f × AllWf facts
