-- ===== src/Gateway.antt =====
-- The gateway (crates/gateway/src/lib.rs).
pub mod Errors
pub mod Simulator
pub mod Depth
pub mod Symbols
pub mod Listings
pub mod Bridge
pub mod Served
pub mod Routing
pub mod Drafts
pub mod Submission
pub mod Paper
pub mod Place
pub mod Reprice
pub mod Ledger
pub mod Conserving
pub mod Resubmit
pub mod Kept
pub mod Partial
pub mod Calls
pub mod Actions
pub mod SubmitTask
pub mod Delivery
pub mod Reported
mod Samples
mod Tests
mod TaskTests
