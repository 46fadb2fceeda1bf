-- ===== src/Owners.antt =====
-- crates/chromifer-owners/src/lib.rs: OWNERS files, and the owners of the sources of a manifest.
pub mod Glob
pub mod Data
pub mod Parse
pub mod Include
pub mod Resolve
pub mod Source
pub mod Summary
pub mod Scan
mod Tests
