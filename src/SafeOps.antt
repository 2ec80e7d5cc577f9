-- ===== src/SafeOps.antt =====
-- Safe operators, src/SafeOpFlags.cpp: the wrappers that keep arithmetic defined, and their names.
pub mod Defs
pub mod Names
pub mod Ids
