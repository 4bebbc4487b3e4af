-- ===== src/Engine/State.antt =====
-- The engine's state (crates/engine-core/src/lib.rs), with the records of crates/types/src that it
-- holds.
use feynman_engine.Prelude.{ℕ, Bool, true, false, Option, String, List, Map}
use feynman_engine.Externs.{Externs}
use feynman_engine.Types.Order.{OrderCore, Side}
use feynman_engine.Types.Limits.{AgentRiskLimits, InstrumentRiskLimits, VenueRiskLimits}
use feynman_engine.Types.Portfolio.{AgentAllocation, AgentStatus, FirmBook}
use feynman_engine.Lifecycle.State.{OrderState, Fill}

pub data Urgency : Type 0 where
  low normal high immediate : Urgency

pub record Signal (E : Externs) : Type 0 where
  pub id : String
  pub basket_id : Option String
  pub agent : String
  pub instrument : String
  pub direction : Side
  pub conviction : E.Decimal
  pub sizing_hint : Option E.Decimal
  pub arb_type : String
  pub stop_loss : E.Decimal
  pub take_profit : Option E.Decimal
  pub thesis : String
  pub urgency : Urgency
  pub metadata : E.Json
  pub created_at : E.DateTime

pub record TrackedPosition (E : Externs) : Type 0 where
  pub agent : String
  pub venue : String
  pub account : String
  pub instrument : String
  pub qty : E.Decimal
  pub avg_entry_price : E.Decimal
  pub unrealized_pnl : E.Decimal
  pub realized_pnl : E.Decimal
  pub total_fees_paid : E.Decimal
  pub accumulated_funding : E.Decimal
  pub fill_ids : List (String × ℕ)
  pub signal_ids : List String
  pub opened_at : E.DateTime
  pub last_fill_at : E.DateTime

pub record OrderAck (E : Externs) : Type 0 where
  pub order_id : String
  pub client_order_id : String
  pub accepted_at : E.DateTime

pub record SignalAck (E : Externs) : Type 0 where
  pub order_id : String
  pub client_order_id : String
  pub position_size : E.Decimal
  pub accepted_at : E.DateTime

pub record OrderRecord (E : Externs) : Type 0 where
  pub core : OrderCore E
  pub state : OrderState
  pub client_order_id : String
  pub venue_order_id : Option String
  pub fills : List (Fill E)
  pub created_at : E.DateTime
  pub last_updated : E.DateTime

pub record FirmRiskLimits (E : Externs) : Type 0 where
  pub max_gross_notional : E.Decimal
  pub max_net_notional : E.Decimal
  pub max_drawdown_pct : E.Decimal
  pub max_daily_loss : E.Decimal
  pub max_open_orders : ℕ

pub record PredictionMarketLimits (E : Externs) : Type 0 where
  pub max_total_notional : E.Decimal
  pub max_per_market_notional : E.Decimal
  pub max_pct_of_nav : E.Decimal
  pub max_unresolved_markets : ℕ

pub record RiskLimits (E : Externs) : Type 0 where
  pub firm : FirmRiskLimits E
  pub per_agent : Map (AgentRiskLimits E)
  pub per_instrument : Map (InstrumentRiskLimits E)
  pub per_venue : Map (VenueRiskLimits E)
  pub prediction_market : PredictionMarketLimits E

-- The key of a position is its agent, venue and instrument.
pub record EngineState (E : Externs) : Type 0 where
  pub orders : Map (OrderRecord E)
  pub positions : List ((String × String × String) × TrackedPosition E)
  pub pending_signals : Map (Signal E)
  pub firm_book : FirmBook E
  pub agent_allocations : Map (AgentAllocation E)
  pub risk_limits : RiskLimits E
  pub agent_statuses : Map (AgentStatus E)
  pub idempotency_cache : Map (OrderAck E)
  pub last_sequence_id : ℕ
  pub last_updated : E.DateTime

pub record EngineStateSnapshot (E : Externs) : Type 0 where
  pub state : EngineState E
  pub sequence_id : ℕ
  pub snapshot_at : E.DateTime

-- `Display for OrderState`
unfoldable pub show_state : OrderState → String
show_state OrderState.pending = "pending"
show_state OrderState.submitted = "submitted"
show_state OrderState.accepted = "accepted"
show_state OrderState.partially_filled = "partially_filled"
show_state OrderState.filled = "filled"
show_state OrderState.cancelled = "cancelled"
show_state OrderState.rejected = "rejected"
show_state OrderState.expired = "expired"

unfoldable pub is_pending : OrderState → Bool
is_pending OrderState.pending = true
is_pending _ = false
