-- ===== src/Engine.antt =====
-- The sequencer of crates/engine-core, which owns the engine's state, and the identifiers and
-- events that it hands out.
pub mod State
pub mod Events
pub mod Ids
pub mod RoundTrip
pub mod Restore
pub mod Start
pub mod Resumed
pub mod Resume
pub mod Fresh
pub mod Runtime
pub mod Sequencer
pub mod Submit
pub mod Venue
pub mod Process
pub mod Durable
pub mod Dispatch
pub mod Resubmission
pub mod Reports
pub mod Inbox
pub mod Samples
mod Tests
mod RestartTests
