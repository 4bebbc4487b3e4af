-- ===== src/Engine/Events.antt =====
-- Errors, events and commands of the sequencer (crates/engine-core/src/lib.rs, and
-- crates/types/src/event.rs and reconciliation.rs).
use feynman_engine.Prelude.{ℕ, ◌+◌, Bool, true, false, Option, none, some, String, List, length}
use feynman_engine.Prelude.Text.{◌++◌}
use feynman_engine.Externs.{Externs}
use feynman_engine.Types.Pipeline.{PipelineOrder, Validated}
use feynman_engine.Types.Limits.{AgentRiskLimits}
use feynman_engine.Lifecycle.State.{Fill}
use feynman_engine.Engine.State.{Signal}

pub data EngineError : Type 0 where
  risk_rejected : String → EngineError
  agent_paused : String → String → EngineError
  engine_halted agent_not_found order_not_found invalid_transition : String → EngineError
  duplicate_order journal reconciliation unsupported_command internal : String → EngineError

-- The messages of `thiserror`. An `anyhow` error is its text.
unfoldable pub show_error : EngineError → String
show_error (risk_rejected reason) = "risk check failed: " ++ reason
show_error (agent_paused agent reason) = "agent " ++ (agent ++ (" is paused: " ++ reason))
show_error (engine_halted reason) = "engine is halted: " ++ reason
show_error (agent_not_found id) = "agent not found: " ++ id
show_error (order_not_found id) = "order not found: " ++ id
show_error (invalid_transition text) = "invalid state transition: " ++ text
show_error (duplicate_order id) =
    "duplicate order: client_order_id " ++ (id ++ " already submitted")
show_error (journal text) = "journal error: " ++ text
show_error (reconciliation text) = "reconciliation error: " ++ text
show_error (unsupported_command command) = "unsupported command: " ++ command
show_error (internal text) = text

-- `Result<T>`, with the panic that `catch_unwind` catches.
pub data Result (A : Type 0) : Type 0 where
  ok : A → Result A
  err : EngineError → Result A
  panic : String → Result A

-- `is_ok` and `is_err`
abbrev pub is_ok : {A : Type 0} → Result A → Bool
is_ok (ok _) = true
is_ok _ = false

abbrev pub is_err : {A : Type 0} → Result A → Bool
is_err (err _) = true
is_err _ = false

pub data RiskOutcomeKind : Type 0 where
  approved resized rejected : RiskOutcomeKind

pub data SubsystemId : Type 0 where
  venue_connection message_bus event_journal price_feed dashboard reconciler : SubsystemId

pub data EngineEvent (E : Externs) : Type 0 where
  order_received : String → String → String → String → EngineEvent E
  order_validated : String → EngineEvent E
  order_risk_checked : String → RiskOutcomeKind → EngineEvent E
  order_routed order_submitted : String → String → EngineEvent E
  order_filled : String → E.Decimal → E.Decimal → E.Decimal → EngineEvent E
  order_partially_filled : String → E.Decimal → E.Decimal → E.Decimal → E.Decimal → EngineEvent E
  order_cancelled : String → String → EngineEvent E
  order_rejected : String → String → String → EngineEvent E
  order_amended : String → Option E.Decimal → Option E.Decimal → EngineEvent E
  risk_breached : String → String → String → EngineEvent E
  circuit_breaker_tripped : String → String → EngineEvent E
  circuit_breaker_reset : String → EngineEvent E
  position_corrected : String → String → E.Decimal → E.Decimal → EngineEvent E
  reconciliation_completed : String → ℕ → EngineEvent E
  agent_paused : String → String → EngineEvent E
  agent_resumed engine_started engine_halted : String → EngineEvent E
  snapshot_created : ℕ → EngineEvent E
  venue_connected : String → EngineEvent E
  venue_disconnected : String → String → EngineEvent E
  subsystem_degraded : SubsystemId → String → EngineEvent E
  subsystem_recovered : SubsystemId → EngineEvent E

pub record SequencedEvent (E : Externs) : Type 0 where
  pub sequence_id : ℕ
  pub timestamp : E.DateTime
  pub event : EngineEvent E

pub data ReconciliationAction : Type 0 where
  accept_venue alert_only cancel_orphan : ReconciliationAction

unfoldable pub is_accept_venue : ReconciliationAction → Bool
is_accept_venue accept_venue = true
is_accept_venue _ = false

pub record PositionDivergence (E : Externs) : Type 0 where
  pub instrument : String
  pub engine_qty : E.Decimal
  pub venue_qty : E.Decimal
  pub delta : E.Decimal
  pub action : ReconciliationAction

pub data OrderDivergence : Type 0 where
  missing_on_venue orphan_on_venue : String → String → OrderDivergence
  state_mismatch : String → String → String → String → OrderDivergence

pub record BalanceDivergence (E : Externs) : Type 0 where
  pub engine_balance : E.Decimal
  pub venue_balance : E.Decimal
  pub delta : E.Decimal

pub record ReconciliationReport (E : Externs) : Type 0 where
  pub venue_id : String
  pub account_id : String
  pub started_at : E.DateTime
  pub completed_at : E.DateTime
  pub position_divergences : List (PositionDivergence E)
  pub order_divergences : List OrderDivergence
  pub balance_divergence : Option (BalanceDivergence E)

-- A `oneshot::Sender` is the number of the channel that it answers on.
pub data SequencerCommand (E : Externs) : Type 0 where
  submit_order : PipelineOrder E (Validated E) → ℕ → SequencerCommand E
  submit_signal : Signal E → ℕ → SequencerCommand E
  on_venue_ack : String → String → E.DateTime → SequencerCommand E
  on_venue_submit_failed : String → String → SequencerCommand E
  on_venue_cancelled : String → String → E.DateTime → SequencerCommand E
  on_fill : Fill E → SequencerCommand E
  on_reconciliation : ReconciliationReport E → SequencerCommand E
  mark_to_market : SequencerCommand E
  adjust_limits : String → AgentRiskLimits E → ℕ → SequencerCommand E
  pause_agent : String → String → SequencerCommand E
  resume_agent halt_all reset_circuit_breaker : String → SequencerCommand E
  snapshot shutdown : ℕ → SequencerCommand E

module _ (E : Externs) where
  abbrev one_if_some : Option (BalanceDivergence E) → ℕ
  one_if_some none = 0
  one_if_some (some _) = 1

  unfoldable pub divergence_count : ReconciliationReport E → ℕ
  divergence_count r =
      length r.position_divergences + length r.order_divergences + one_if_some r.balance_divergence

  unfoldable pub is_high_priority : SequencerCommand E → Bool
  is_high_priority (on_venue_ack _ _ _) = true
  is_high_priority (on_venue_submit_failed _ _) = true
  is_high_priority (on_venue_cancelled _ _ _) = true
  is_high_priority (on_fill _) = true
  is_high_priority (on_reconciliation _) = true
  is_high_priority (halt_all _) = true
  is_high_priority (reset_circuit_breaker _) = true
  is_high_priority (shutdown _) = true
  is_high_priority _ = false
