-- ===== src/Types/Limits.antt =====
-- crates/types/src/risk.rs: risk limits, violations and outcomes.
use feynman_engine.Prelude.{ℕ, Option, Bool, String, List}
use feynman_engine.Externs.{Externs}

pub record AgentRiskLimits (E : Externs) : Type 0 where
  pub allocated_capital : E.Decimal
  pub max_position_notional : E.Decimal
  pub max_gross_notional : E.Decimal
  pub max_drawdown_pct : E.Decimal
  pub max_daily_loss : E.Decimal
  pub max_open_orders : ℕ
  pub allowed_instruments : Option (List String)
  pub allowed_venues : Option (List String)

pub record InstrumentRiskLimits (E : Externs) : Type 0 where
  pub instrument : String
  pub max_net_qty : E.Decimal
  pub max_gross_qty : E.Decimal
  pub max_concentration_pct : E.Decimal
  pub max_leverage : E.Decimal

pub record VenueRiskLimits (E : Externs) : Type 0 where
  pub venue : String
  pub max_notional : E.Decimal
  pub max_positions : ℕ
  pub max_pct_of_nav : E.Decimal

pub data ViolationType : Type 0 where
  hard soft : ViolationType

pub record RiskViolation : Type 0 where
  pub check_name : String
  pub violation_type : ViolationType
  pub current_value : String
  pub limit : String
  pub suggested_action : String

pub data RiskOutcome (E : Externs) : Type 0 where
  approved : List RiskViolation → RiskOutcome E
  resized : E.Decimal → String → List RiskViolation → RiskOutcome E
  rejected : List RiskViolation → RiskOutcome E

pub record RiskCheckResult : Type 0 where
  pub check_name : String
  pub passed : Bool
  pub message : Option String
