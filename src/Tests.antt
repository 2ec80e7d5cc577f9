-- ===== src/Tests.antt =====
-- Runs of the model at small inputs, and the theorems at inputs that meet their hypotheses.
mod Qualifiers
mod Choices
mod Enumerator
mod Facts
mod Pointers
mod Effects
mod Contexts
mod Search
mod Types
mod Expansion
mod SafeOps
