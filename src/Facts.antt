-- ===== src/Facts.antt =====
-- The facts of the static analysis: src/Fact.cpp, src/FactPointTo.cpp and src/FactUnion.cpp.
pub mod Defs
pub mod Lattice
pub mod Env
pub mod PointTo
pub mod Unions
