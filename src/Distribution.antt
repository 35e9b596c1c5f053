-- ===== src/Distribution.antt =====
-- src/benchmark/distribution.c and .h: histograms of int64_t values.
pub mod Defs
pub mod Search
pub mod Build
pub mod ByValue
pub mod Found
pub mod FindValue
pub mod Shift
pub mod Occurrences
pub mod Builder
pub mod Insert
pub mod InsertCopies
pub mod Query
pub mod Ranks
pub mod ByRank
pub mod CountBelow
pub mod Combine
pub mod Difference
pub mod Refine
mod Tests
