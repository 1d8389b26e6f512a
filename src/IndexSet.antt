-- ===== src/IndexSet.antt =====
-- src/index_set.hpp and src/index_set.cpp: `IndexSet`, a set of row indexes kept as ranges.
pub mod Ranges
pub mod Iterator
pub mod Single
pub mod Counting
pub mod Removing
pub mod Combining
pub mod Chunks
