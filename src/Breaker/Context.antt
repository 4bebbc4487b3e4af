-- ===== src/Breaker/Context.antt =====
-- crates/risk/src/lib.rs: what a circuit breaker sees, and what it answers.
use feynman_engine.Prelude.{ℕ, Option, Bool, true, false, String, Map}
use feynman_engine.Externs.{Externs}
use feynman_engine.Types.Pipeline.{PipelineOrder, Validated}
use feynman_engine.Types.Portfolio.{FirmBook}
use feynman_engine.Types.Venue.{VenueConnectionHealth}

pub data ExecutionMode : Type 0 where
  live paper backtest : ExecutionMode

pub data OperationKind : Type 0 where
  new_order cancel reduce_only : OperationKind

pub record CircuitBreakerConfig (E : Externs) : Type 0 where
  pub max_single_order_notional : E.Decimal
  pub max_instrument_position_notional : E.Decimal
  pub max_firm_gross_notional : E.Decimal
  pub max_daily_loss_pct : E.Decimal
  pub max_hourly_loss_pct : E.Decimal
  pub max_firm_orders_per_min : ℕ
  pub max_agent_orders_per_min : ℕ
  pub max_venue_error_rate : E.Decimal
  pub max_venue_disconnect_secs : ℕ
  pub max_sequencer_queue_depth : ℕ

pub record VenueErrorStats : Type 0 where
  pub errors_last_5min : ℕ
  pub total_last_5min : ℕ

-- `now` is the reading of the context's clock.
pub record CircuitBreakerContext (E : Externs) : Type 0 where
  pub order : Option (PipelineOrder E (Validated E))
  pub firm_book : FirmBook E
  pub venue_health : Map (VenueConnectionHealth E)
  pub venue_error_stats : Map VenueErrorStats
  pub firm_orders_last_60s : ℕ
  pub agent_orders_last_60s : Map ℕ
  pub sequencer_queue_depth : ℕ
  pub execution_mode : ExecutionMode
  pub operation_kind : OperationKind
  pub config : CircuitBreakerConfig E
  pub now : E.DateTime

-- The breaker's identifier and the reason.
pub data CircuitBreakerResult : Type 0 where
  pass : CircuitBreakerResult
  reject : String → String → CircuitBreakerResult
  halt_all : String → String → CircuitBreakerResult

pub data ResetReason : Type 0 where
  manual_operator : String → ResetReason
  cio_approval : String → ResetReason

abbrev pub is_live : ExecutionMode → Bool
is_live live = true
is_live _ = false

abbrev pub is_cancel : OperationKind → Bool
is_cancel cancel = true
is_cancel _ = false

abbrev pub is_reduce_only : OperationKind → Bool
is_reduce_only reduce_only = true
is_reduce_only _ = false

abbrev pub is_pass : CircuitBreakerResult → Bool
is_pass pass = true
is_pass _ = false

abbrev pub is_halt_all : CircuitBreakerResult → Bool
is_halt_all (halt_all _ _) = true
is_halt_all _ = false

abbrev pub is_reject : CircuitBreakerResult → Bool
is_reject (reject _ _) = true
is_reject _ = false
