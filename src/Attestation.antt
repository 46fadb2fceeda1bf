-- ===== src/Attestation.antt =====
-- crates/chromifer-attestation/src/lib.rs: signed statements on evidence.
pub mod Data
pub mod Hex
pub mod Disk
pub mod Sign
pub mod Verify
mod Tests
