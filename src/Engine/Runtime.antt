-- ===== src/Engine/Runtime.antt =====
-- What the sequencer is generic over: the traits `EngineCore` and `EventJournal` of
-- crates/engine-core/src/lib.rs, which its client implements, and tokio's bounded channel to the
-- venue submit task. A method with `&mut self` returns the new value with its result.
use feynman_engine.Prelude.{ℕ, ◌≡◌, ◌≤◌, Option, some, String, List}
use feynman_engine.Externs.{Externs}
use feynman_engine.Types.Limits.{AgentRiskLimits}
use feynman_engine.Types.Pipeline.{PipelineOrder, Validated, RiskChecked, Routed}
use feynman_engine.Lifecycle.State.{Fill}
use feynman_engine.Engine.State.{EngineState, EngineStateSnapshot}
use feynman_engine.Engine.Events.{Result, ok, SequencedEvent, ReconciliationReport}

-- The answers of `try_send`.
pub data SendResult : Type 0 where
  sent full closed : SendResult

pub record Runtime (E : Externs) : Type 1 where
  pub Core : Type 0
  pub Prices : Type 0
  pub Journal : Type 0
  pub Sender : Type 0
  pub state : Core → EngineState E
  pub set_state : EngineState E → Core → Core  -- a write through `state_mut`
  pub evaluate_order :
      PipelineOrder E (Validated E)
      → E.DateTime
      → Core
      → Core × Result (PipelineOrder E (RiskChecked E))
  pub on_fill : Fill E → E.DateTime → Core → Core × Result Unit
  pub on_reconciliation : ReconciliationReport E → E.DateTime → Core → Core × Result Unit
  pub mark_to_market : Prices → E.DateTime → Core → Core × Result Unit
  pub pause_agent : String → String → E.DateTime → Core → Core × Result Unit
  pub resume_agent : String → E.DateTime → Core → Core × Result Unit
  pub adjust_limits : String → AgentRiskLimits E → Core → Core × Result Unit
  pub halt_all : String → E.DateTime → Core → Core × Result Unit
  pub reset_circuit_breaker : E.DateTime → Core → Core × Result Unit
  pub try_send : PipelineOrder E (Routed E) → Sender → Sender × SendResult
  pub persist_commit :
      List (SequencedEvent E) → Option (EngineStateSnapshot E) → Journal → Journal × Result Unit
  pub load_latest_snapshot : Journal → Option (ℕ × EngineStateSnapshot E)

-- What the traits promise: `state` reads what was written through `state_mut`, and, for a journal
-- that supports snapshots as `SqliteJournal` does, a persisted snapshot is the latest one unless the
-- journal already held one with a greater sequence number.
pub record RuntimeLaws (E : Externs) (R : Runtime E) : Type 0 where
  pub state-set_state : (s : EngineState E) (c : R.Core) → R.state (R.set_state s c) ≡ s
  pub load_persisted :
      (events : List (SequencedEvent E)) (snapshot : EngineStateSnapshot E) (j : R.Journal)
      → ((q : ℕ) (old : EngineStateSnapshot E)
          → R.load_latest_snapshot j ≡ some (q, old)
          → q ≤ snapshot.sequence_id)
      → (R.persist_commit events (some snapshot) j).1 ≡ ok tt
      → R.load_latest_snapshot (R.persist_commit events (some snapshot) j).0
        ≡ some (snapshot.sequence_id, snapshot)
