-- ===== src/Choices.antt =====
-- How random choices are weighted and filtered: src/Probabilities.cpp (`DistributionTable`),
-- src/ProbabilityTable.h, src/Filter.cpp and src/VectorFilter.cpp.
pub mod Distribution
pub mod Table
pub mod Filter
pub mod Enumerator
