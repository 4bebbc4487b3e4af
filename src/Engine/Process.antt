-- ===== src/Engine/Process.antt =====
-- crates/engine-core/src/sequencer.rs: `handle_command`, `process_command` and `run`. The commands
-- of a run are listed in the order in which `next_command` takes them from the two channels, each
-- with the clock's reading when it is processed.
use feynman_engine.Prelude.{
  ℕ, ◌+◌, ◌%◌, ◌^◌, Bool, not, ◌||◌, Option, none, some, String, List, [], ◌∷◌, map, is_empty,
  if◌then◌else◌,
}
use feynman_engine.Prelude.Text.{◌++◌, show_ℕ}
use feynman_engine.Externs.{Externs}
use feynman_engine.Types.Limits.{AgentRiskLimits}
use feynman_engine.Engine.State.{EngineStateSnapshot}
use feynman_engine.Engine.Events.{
  EngineEvent, Result, ok, err, panic, internal, journal as journal_error, unsupported_command,
  show_error, SequencedEvent, SequencerCommand, submit_order, submit_signal, on_venue_ack,
  on_venue_submit_failed, on_venue_cancelled, on_fill, on_reconciliation, mark_to_market,
  adjust_limits, pause_agent, resume_agent, halt_all, reset_circuit_breaker, snapshot, shutdown,
  agent_paused, agent_resumed, engine_halted, circuit_breaker_reset,
}
use feynman_engine.Engine.Runtime.{Runtime}
use feynman_engine.Engine.Sequencer.{
  Sequencer, Step, CommandOutcome, ◌>>=◌, call, answer, unchanged, mutated, shutting_down,
  signal_reply, limits_reply, snapshot_reply, shutdown_reply, snapshot_for_commit, update_metadata,
}
use feynman_engine.Engine.Submit.{handle_submit_order}
use feynman_engine.Engine.Venue.{
  handle_venue_ack, handle_venue_submit_failed, handle_venue_cancelled, handle_fill,
  handle_reconciliation,
}

module _ (E : Externs) (R : Runtime E) where
  open E use {DateTime}

  -- A method of the core, and the events of its success.
  abbrev call_then :
      (R.Core → R.Core × Result Unit) → List (EngineEvent E) → Step E R (CommandOutcome E)
  call_then f events = do done ← call E R f; λ s. (s, ok (mutated E events))

  -- An error of `adjust_limits` goes to the caller only.
  abbrev limits_adjusted : Result Unit → ℕ → Step E R (CommandOutcome E)
  limits_adjusted (ok done) respond s =
      (answer E R respond (limits_reply (ok tt)) s, ok (mutated E []))
  limits_adjusted (err e) respond s =
      (answer E R respond (limits_reply (err e)) s, ok (unchanged E))
  limits_adjusted (panic text) respond s = (s, panic text)

  abbrev pub handle_adjust_limits : String → AgentRiskLimits E → ℕ → Step E R (CommandOutcome E)
  handle_adjust_limits agent limits respond s =
      let attempt = R.adjust_limits agent limits s.core in
      limits_adjusted attempt.1 respond (record s { core = attempt.0 })

  unfoldable pub handle_command : SequencerCommand E → DateTime → Step E R (CommandOutcome E)
  handle_command (submit_order order respond) now = handle_submit_order E R order respond now
  handle_command (submit_signal signal respond) now = λ s. (
    answer E R respond (signal_reply (err (unsupported_command "SubmitSignal"))) s,
    ok (unchanged E),
  )
  handle_command (on_venue_ack id venue_order_id submitted_at) now =
      handle_venue_ack E R id venue_order_id submitted_at
  handle_command (on_venue_submit_failed id reason) now =
      handle_venue_submit_failed E R id reason now
  handle_command (on_venue_cancelled id reason cancelled_at) now =
      handle_venue_cancelled E R id reason cancelled_at
  handle_command (on_fill fill) now = handle_fill E R fill now
  handle_command (on_reconciliation report) now = handle_reconciliation E R report now
  handle_command mark_to_market now = λ s. call_then (R.mark_to_market s.prices now) [] s
  handle_command (adjust_limits agent limits respond) now =
      handle_adjust_limits agent limits respond
  handle_command (pause_agent agent reason) now =
      call_then (R.pause_agent agent reason now) (agent_paused agent reason ∷ [])
  handle_command (resume_agent agent) now =
      call_then (R.resume_agent agent now) (agent_resumed agent ∷ [])
  handle_command (halt_all reason) now =
      call_then (R.halt_all reason now) (engine_halted reason ∷ [])
  handle_command (reset_circuit_breaker breaker) now =
      call_then (R.reset_circuit_breaker now) (circuit_breaker_reset breaker ∷ [])
  handle_command (snapshot respond) now =
      λ s. (answer E R respond (snapshot_reply s.snapshot_cache) s, ok (unchanged E))
  handle_command (shutdown respond) now = λ s. (s, ok (shutting_down E respond))

  abbrev pub sequenced : ℕ → DateTime → List (EngineEvent E) → List (SequencedEvent E)
  sequenced sequence_id now =
      map (λ event. record { sequence_id = sequence_id; timestamp = now; event = event })

  -- What follows the journal's answer to a commit.
  abbrev persisted :
      Result Unit → EngineStateSnapshot E → Option ℕ → ℕ → DateTime → Step E R (Option ℕ)
  persisted (ok done) committed reply sequence_id now s =
      (record (update_metadata E R sequence_id now s) { snapshot_cache = committed }, ok reply)
  persisted (err e) committed reply sequence_id now s = (
    s,
    err (
        journal_error (
          "failed to persist sequencer commit at seq:"
          ++ (show_ℕ sequence_id ++ (": " ++ show_error e)))),
  )
  persisted (panic text) committed reply sequence_id now s = (s, panic text)

  -- `should_commit_metadata`
  abbrev pub should_commit : CommandOutcome E → Bool
  should_commit o = o.state_mutated || not (is_empty o.events)

  -- What follows the handler.
  abbrev pub commit : Result (CommandOutcome E) → ℕ → DateTime → Step E R (Option ℕ)
  commit (ok outcome) sequence_id now s =
      let committed = snapshot_for_commit E R sequence_id now s in
      let attempt =
        R.persist_commit (sequenced sequence_id now outcome.events) (some committed) s.journal in
      if should_commit outcome
      then persisted attempt.1 committed outcome.shutdown_reply sequence_id now
          (record s { journal = attempt.0 })
      else (s, ok outcome.shutdown_reply)
  commit (err e) sequence_id now s = (s, err e)
  commit (panic text) sequence_id now s =
      (s, err (internal ("sequencer panic at seq:" ++ (show_ℕ sequence_id ++ (": " ++ text)))))

  -- `SequenceGenerator::next_id`
  abbrev pub next_id : Sequencer E R → ℕ × Sequencer E R
  next_id s = (s.next_sequence, record s { next_sequence = (s.next_sequence + 1) % 2 ^ 64 })

  unfoldable pub process_command : SequencerCommand E → DateTime → Step E R (Option ℕ)
  process_command command now s =
      let numbered = next_id s in
      let handled = handle_command command now numbered.1 in
      commit handled.1 numbered.0 now handled.0

  -- `drain_pending_commands`: the commands that are left after a shutdown, whose own shutdown
  -- replies are dropped.
  unfoldable pub drain_pending_commands : List (SequencerCommand E × DateTime) → Step E R Unit
  drain_pending_commands [] = λ s. (s, ok tt)
  drain_pending_commands (entry ∷ rest) = do
    dropped ← process_command entry.0 entry.1
    drain_pending_commands rest

  -- What `run` does after a command, where `later` runs the commands that are left.
  abbrev pub finish_or :
      Step E R (EngineStateSnapshot E)
      → List (SequencerCommand E × DateTime)
      → Option ℕ
      → Step E R (EngineStateSnapshot E)
  finish_or later rest none = later
  finish_or later rest (some respond) = do
    drained ← drain_pending_commands rest
    λ s. (answer E R respond shutdown_reply s, ok s.snapshot_cache)

  unfoldable pub run : List (SequencerCommand E × DateTime) → Step E R (EngineStateSnapshot E)
  run [] = λ s. (s, ok s.snapshot_cache)
  run (entry ∷ rest) =
      let later = run rest in λ s. (process_command entry.0 entry.1 >>= finish_or later rest) s
