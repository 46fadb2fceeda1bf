-- ===== src/Components.antt =====
-- crates/chromifer-components/src/lib.rs: the measures of components and what follows from them.
pub mod Data
pub mod Risk
pub mod Summary
pub mod Ranking
pub mod Groups
pub mod Ids
pub mod Edges
pub mod Analysis
pub mod Bounds
pub mod Pairs
pub mod Eligibility
pub mod Tests
