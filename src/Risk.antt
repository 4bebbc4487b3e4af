-- ===== src/Risk.antt =====
-- The risk gate of crates/risk (layer 1).
pub mod Violations
pub mod Checks
pub mod Exposure
pub mod Manager
pub mod Limits
pub mod Outcome
pub mod Rejection
mod Tests
