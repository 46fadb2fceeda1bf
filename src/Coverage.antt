-- ===== src/Coverage.antt =====
-- crates/chromifer-coverage/src/lib.rs: a coverage report and its checks. What the crate reads from
-- the LLVM export stands in the report's list of files.
pub mod Data
pub mod Report
pub mod Totals
pub mod Laws
pub mod Sums
pub mod Agreement
pub mod Tests
