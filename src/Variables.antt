-- ===== src/Variables.antt =====
-- The variables of src/Variable.cpp as far as the effects and the facts depend on them.
pub mod Store
pub mod Chain
pub mod Match
pub mod Sets
pub mod Contains
