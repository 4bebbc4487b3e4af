-- ===== src/Breaker.antt =====
-- The circuit breakers of crates/risk (layer 0).
pub mod Context
pub mod Checks
pub mod Bank
pub mod Limits
pub mod Order
pub mod Latch
mod Tests
