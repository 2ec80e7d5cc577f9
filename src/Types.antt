-- ===== src/Types.antt =====
-- The types of a program, src/Type.cpp.
pub mod Defs
pub mod Sizes
pub mod Pointers
pub mod Convert
pub mod Ranks
pub mod Unsigned
pub mod Depth
pub mod Inside
