-- ===== src/Qualifiers.antt =====
-- The const-volatile qualifiers of a declaration, from src/CVQualifiers.cpp: one pair of flags for
-- each level of indirection, the storage first and the variable itself last.
-- An `assert` that fails, and a read or a pop past the end of a vector, is `none`.
pub mod Defs
pub mod Order
pub mod Indirect
pub mod Random
pub mod Generate
pub mod Typed
pub mod Looser
pub mod Strictness
pub mod Last
pub mod Written
pub mod Loose
pub mod Pointer
