-- ===== src/Contexts.antt =====
-- The context of the generator, src/CGContext.cpp: what may be read and written at a point of the
-- program, and what has been.
pub mod Defs
pub mod Checks
pub mod Nested
pub mod Partial
pub mod Race
pub mod Safety
pub mod Conflict
pub mod Indices
pub mod Reached
pub mod Outcomes
