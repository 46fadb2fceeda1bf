-- ===== src/Manifest.antt =====
-- crates/chromifer-manifest: the data of a manifest, its paths, and its validation.
pub mod Data
pub mod Lookup
pub mod States
pub mod Wire
pub mod Path
pub mod Errors
pub mod Checks
pub mod Cycle
pub mod Validate
pub mod Tests
