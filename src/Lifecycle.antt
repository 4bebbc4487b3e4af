-- ===== src/Lifecycle.antt =====
-- The life of an order after it is routed (crates/types/src/pipeline.rs).
pub mod State
pub mod Order
pub mod Quantities
pub mod Graph
mod Tests
