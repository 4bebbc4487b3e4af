-- ===== src/Types/Portfolio.antt =====
-- crates/types/src/portfolio.rs: the firm's book and its exposures.
use feynman_engine.Prelude.{ℕ, String, List, Map}
use feynman_engine.Externs.{Externs}

pub data AgentStatus (E : Externs) : Type 0 where
  active : AgentStatus E
  paused : String → E.DateTime → AgentStatus E
  drawdown_breached : AgentStatus E
  halted : AgentStatus E

pub record AgentAllocation (E : Externs) : Type 0 where
  pub allocated_capital : E.Decimal
  pub used_capital : E.Decimal
  pub free_capital : E.Decimal
  pub realized_pnl : E.Decimal
  pub unrealized_pnl : E.Decimal
  pub current_drawdown : E.Decimal
  pub max_drawdown_limit : E.Decimal
  pub status : AgentStatus E

pub record VenueExposure (E : Externs) : Type 0 where
  pub venue : String
  pub account : String
  pub net_qty : E.Decimal
  pub notional_usd : E.Decimal

pub record AgentExposure (E : Externs) : Type 0 where
  pub agent : String
  pub net_qty : E.Decimal
  pub notional_usd : E.Decimal
  pub pnl : E.Decimal

pub record InstrumentExposure (E : Externs) : Type 0 where
  pub instrument : String
  pub net_qty : E.Decimal
  pub gross_qty : E.Decimal
  pub net_notional_usd : E.Decimal
  pub gross_notional_usd : E.Decimal
  pub by_venue : List (VenueExposure E)
  pub by_agent : List (AgentExposure E)

pub record PredictionExposureSummary (E : Externs) : Type 0 where
  pub total_notional : E.Decimal
  pub pct_of_nav : E.Decimal
  pub unresolved_markets : ℕ

pub record FirmBook (E : Externs) : Type 0 where
  pub nav : E.Decimal
  pub gross_notional : E.Decimal
  pub net_notional : E.Decimal
  pub realized_pnl : E.Decimal
  pub unrealized_pnl : E.Decimal
  pub daily_pnl : E.Decimal
  pub hourly_pnl : E.Decimal
  pub current_drawdown_pct : E.Decimal
  pub allocated_capital : E.Decimal
  pub cash_available : E.Decimal
  pub total_fees_paid : E.Decimal
  pub agent_allocations : Map (AgentAllocation E)
  pub instruments : List (InstrumentExposure E)
  pub prediction_exposure : PredictionExposureSummary E
  pub as_of : E.DateTime

-- `Display` of an agent's status.
unfoldable pub show_status : (E : Externs) → AgentStatus E → String
show_status E active = "active"
show_status E (paused _ _) = "paused"
show_status E drawdown_breached = "drawdown_breached"
show_status E halted = "halted"
