-- ===== src/Effects.antt =====
-- The read and write effects of src/Effect.cpp.
pub mod Defs
pub mod Walk
pub mod Union
pub mod Race
pub mod Consolidate
pub mod Fields
