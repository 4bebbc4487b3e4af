-- ===== src/Types.antt =====
-- The data types that the crates share (crates/types/src): orders and their pipeline stages, the
-- firm's book, risk limits, venue connections. Each takes the external types as a parameter.
pub mod Order
pub mod Pipeline
pub mod Portfolio
pub mod Limits
pub mod Venue
pub mod Market
pub mod Book
pub mod Fees
mod Tests
