-- ===== src/Lib.antt =====
-- HIPSmith generates random HIP programs to test compilers. While it generates a program it keeps
-- a static analysis of it, which decides what the next choice may be, and this development is about
-- that analysis.
--
-- The parts and where they are modelled:
-- * Qualifiers (src/CVQualifiers.cpp): the const and volatile flags of a type, one pair for each
--   level of indirection. Defs has the class, its comparisons and the moves between levels; Random
--   the looser and stricter flags; Generate, Typed and Pointer the functions that make whole
--   qualifiers.
--   Order, Indirect, Looser, Strictness, Loose, Last, Written and Typed/Shape have the proofs.
-- * Variables (src/Variable.cpp): the variables of a run with their containers, `match`, and sets of
--   variables. A pointer to a variable is its number. Chain has the induction along containers,
--   Match, Contains and Sets/Laws the theorems.
-- * Facts (src/Fact.cpp, src/FactPointTo.cpp, src/FactUnion.cpp): what is known of pointers and
--   unions at a point of the program. Defs has the two kinds of facts and their lattice, Env the
--   environments; Lattice, Env/Related, Env/Merge and Env/Unique have the proofs.
--   PointTo has the queries on points-to sets with PointTo/Marked and PointTo/Pointees, Unions the
--   readable fields of unions with Unions/Readable and Unions/Joined.
-- * Effects (src/Effect.cpp): the variables that a piece of program reads and writes. Defs has the
--   operations, Fields the queries about nested fields; Walk, Union, Race and Consolidate have the
--   other proofs.
-- * Choices (several files): weighted keys (Distribution, for DistributionTable in src/Probabilities.cpp),
--   sorted tables (Table, src/ProbabilityTable.h), filters on drawn numbers (Filter, src/Filter.cpp and
--   src/VectorFilter.cpp), and the enumeration of combinations (Enumerator, src/Enumerator.h).
--
-- * Contexts (src/CGContext.cpp): what may be read and written at a point of the program. Defs has the
--   tests and the sums of effects, Checks the checks that record an access, in a variable, in the
--   indices of an array or through a pointer. Reached says which accesses a pointer leads to; Nested,
--   Partial, Race, Indices, Outcomes, Safety and Conflict have the proofs. How an expression is visited is a
--   parameter.
--
-- * Search (src/DFSRndNumGenerator.cpp, src/LinearSequence.cpp, src/DFSProgramGenerator.cpp): the
--   exhaustive search, which runs the generator again and again until every choice has been tried.
--   Defs has the numbers that are drawn, Runs the loop over the runs and what they should yield,
--   Results the programs that should come out. Nodes, Standing, Known, Fresh, Pending, Ran, Resume
--   and Exhaustive prove that they do; Drawn, Recorded and Replay are about the recorded sequence. The
--   program that draws the numbers is a parameter, a tree (`Generator`).
-- * Types (src/Type.cpp): Defs has the types and what only needs their kind, Sizes the queries through
--   fields and the conversions that ask for sizes. Pointers, Convert, Ranks, Unsigned,
--   Depth and Inside have the proofs.
-- * Expansion (src/PartialExpander.cpp): which kinds of statements are expanded first. Defs has the
--   options and the checks, Options what an option asks for, Checks what the checks of a program
--   answer.
-- * SafeOps (src/SafeOpFlags.cpp): the wrappers of operators. Defs has their names and numbers,
--   Names and Ids the proofs.
--
-- Contexts use the effects, and the facts for the variables that a pointer reaches.
-- Effects, facts and the sets they hold use the variables and their `match`; qualifiers stand on
-- their own. Prelude has the helpers that all share, and Tests the runs at small inputs.
--
-- Names are those of the source, in lower case: `stricter_than` is CVQualifiers::stricter_than. A
-- method that changes its object returns the new one, a method that returns whether something
-- changed returns that as well, and an access outside of a vector is `none`.
--
-- Bounds: the walk `v = v->field_var_of` takes as many steps as there are variables before `v`, which
-- is enough since a container is created before its fields; `IsStore` states that. `next` of the
-- enumerator calls itself once at most, so that its fuel is two. The queries about nested fields
-- take a depth, and the contexts with them; the nesting of the fields is enough. The depth of
-- the queries on types is at most the number of the type. The loop over the runs takes the number
-- of runs, which the reference counts. All other loops are structural.
--
-- Not modelled: the random numbers (src/random.cpp and the generators of numbers), which are
-- parameters that say what each draw gives; the output functions; the tree of expressions and
-- statements with the transfer functions on it; how random types are made; filters of numbers
-- that have an effect of their own, as that of src/Statement.cpp has on the partial expander;
-- src/HIPSmith, which prints kernels; the run-time library, the drivers and the scripts.
pub mod Prelude
pub mod Qualifiers
pub mod Variables
pub mod Facts
pub mod Effects
pub mod Choices
pub mod Contexts
pub mod Search
pub mod Types
pub mod Expansion
pub mod SafeOps
pub mod Tests
