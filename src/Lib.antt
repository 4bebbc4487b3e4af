-- ===== src/Lib.antt =====
-- Verification of the Feynman execution engine.
--
-- An order enters the engine as a draft, is validated, passes the circuit breakers (layer 0) and
-- the risk gate (layer 1), is routed to a venue, and lives there until it is filled, refused,
-- cancelled or expired. This library models, file by file:
--
-- - Types: the data of orders, pipeline stages, the firm's book, risk limits, venue connections,
--   order books and fees (crates/types/src/pipeline.rs, portfolio.rs, risk.rs, venue.rs,
--   signal.rs, market_data.rs, pnl.rs, fees.rs). A stage is a type argument of `PipelineOrder`,
--   and the transitions are the functions `into_validated`, `into_risk_checked` and
--   `into_routed`.
-- - Projection: `project_net_and_gross` of crates/risk/src/lib.rs, which the breakers and the
--   risk gate both use.
-- - Breaker: crates/risk/src/circuit_breaker.rs. `CircuitBreakerBank::check_all` and `reset` take
--   the bank and return the new bank with the answer. `Breaker.Checks` has one function for each
--   stateless breaker, `Breaker.Bank` the three that latch and the bank.
-- - Risk: `AgentRiskManager` of crates/risk/src/lib.rs. `evaluate` is `find_inputs` (the early
--   returns), `project` (the projected quantities), the checks, and `conclude`. A check returns
--   the list of what it pushes on the vectors of `evaluate`.
-- - Lifecycle: `VenueState` and `LiveOrder` of crates/types/src/pipeline.rs. A method that fails
--   has not written yet, so it returns the new order or the error.
-- - Engine: crates/engine-core/src/sequencer.rs and lib.rs. `Engine.Process` has
--   `handle_command`, `process_command` and `run`, `Engine.Submit` the submission of an order
--   (`Engine.Dispatch` and `Engine.Resubmission` are about it), `Engine.Venue` the reports of
--   venues and of the reconciler, and `Engine.Inbox` the two command channels. A step takes the
--   sequencer and returns it with its result, which may be a panic that `process_command`
--   catches. `Engine.Runtime` is what the sequencer is generic over: the implementations of
--   `EngineCore` and `EventJournal`, and tokio's channel to the submit task. Its laws: `state`
--   reads what was written through `state_mut`, and a snapshot that was persisted, in a
--   journal that supports snapshots, is the latest one unless the journal already held one with a
--   greater sequence number. Nothing is assumed of
--   a method of the core that fails. After an `adjust_limits` that fails the code commits nothing
--   and goes on, whatever the core has written, so `Engine.Durable` is about runs in which the
--   core takes the limits. A run lists its commands in the order in which they are taken from the
--   two channels, those left at a shutdown included, with the clock's readings; answers on
--   one-shot channels are a log. `Engine.Ids` has the client order identifiers of
--   crates/types/src/ids.rs, `Engine.Restore` the restart of their counters, and `Engine.Start`
--   is `Sequencer::new`. What only the start calls is `Startup`: a load that succeeds gives the
--   latest snapshot, and a restored core has its state.
-- - Gateway: crates/gateway/src/lib.rs. `Gateway.Symbols` and `Gateway.Bridge` turn a signal into
--   a draft order (`SymbolMap`, `SignalOrderBridge`). `Gateway.Simulator` walks the depth of a
--   book. `Gateway.Paper`, `Gateway.Place` and `Gateway.Reprice` have the methods of
--   `PaperAdapter`, with `IsConserving` of `Gateway.Conserving` as what the adapter relies on of
--   its simulator, which `LiveOrderbookFillSimulator` provides. `Gateway.SubmitTask` is a round
--   of `VenueSubmitTask::run` over any adapter, and `Gateway.Reported` runs it with paper
--   adapters. A method takes the adapter and returns it with its result; `Gateway.Calls` has runs
--   of calls, `Gateway.Actions` and `Gateway.Delivery` have what is to follow an acknowledgement.
-- - Prelude: shared names, tests on numbers, lists, maps with text keys, integers and texts.
--
-- `rust_decimal::Decimal`, `chrono::DateTime` and `serde_json::Value` are the parameter `Externs`:
-- types and operations with no law. Where a theorem needs arithmetic it takes `ExactArithmetic`:
-- comparison goes by value, and sums, differences, negation and absolute value that fit are exact.
-- Division and multiplication have no law. `Externs.FixedPoint` is an instance that the examples
-- run on. Identifiers are texts, a `HashMap` is an association list, `u32` casts keep their
-- wrap-around, and messages are built as the code builds them.
--
-- Two definitions take fuel: the printing of numbers, whose fuel exceeds the number of digits, and
-- `drain_inbox`, which takes one round for each waiting command. Not modelled:
-- commands that arrive while others are processed, the journal's storage, the bus, calls of one
-- paper adapter that interleave at an `.await`, fill channels that are full, and all input and
-- output.
pub mod Prelude
pub mod Externs
pub mod Types
pub mod Breaker
pub mod Projection
pub mod Risk
pub mod Lifecycle
pub mod Engine
pub mod Gateway
