-- ===== src/Expansion.antt =====
-- Partial expansion, src/PartialExpander.cpp: which kind of statement is expanded first.
pub mod Defs
pub mod Checks
pub mod Options
