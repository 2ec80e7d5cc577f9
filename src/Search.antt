-- ===== src/Search.antt =====
-- The exhaustive search, src/DFSRndNumGenerator.cpp and src/DFSProgramGenerator.cpp: every choice of
-- the generator is tried in turn, one run of the generator after the other.
pub mod Sequence
pub mod Defs
pub mod Runs
pub mod Nodes
pub mod Standing
pub mod Known
pub mod Fresh
pub mod Pending
pub mod Ran
pub mod Resume
pub mod Exhaustive
pub mod Results
pub mod Drawn
pub mod Recorded
pub mod Replay
