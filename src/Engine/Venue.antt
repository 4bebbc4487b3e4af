-- ===== src/Engine/Venue.antt =====
-- crates/engine-core/src/sequencer.rs: the handlers of what the venue and the reconciler report.
use feynman_engine.Prelude.{
  ℕ, ◌-◌, ◌^◌, Bool, true, false, Option, none, some, String, List, [], ◌∷◌, ◌++◌, lookup, leb,
  if◌then◌else◌,
}
use feynman_engine.Prelude.Text.{◌++◌ as append}
use feynman_engine.Externs.{Externs}
use feynman_engine.Lifecycle.State.{OrderState, Fill}
use feynman_engine.Engine.State.{OrderRecord, is_pending, show_state}
use feynman_engine.Engine.Events.{
  EngineEvent, ok, err, order_not_found, invalid_transition, order_submitted, order_rejected,
  order_cancelled, order_filled, order_partially_filled, position_corrected,
  reconciliation_completed, PositionDivergence, ReconciliationReport, is_accept_venue,
  divergence_count,
}
use feynman_engine.Engine.Runtime.{Runtime}
use feynman_engine.Engine.Sequencer.{
  Step, CommandOutcome, ◌>>=◌, call, mutated, remaining_qty, write_record,
}

unfoldable pub is_cancellable : OrderState → Bool
is_cancellable OrderState.submitted = true
is_cancellable OrderState.partially_filled = true
is_cancellable _ = false

module _ (E : Externs) where
  open E use {DateTime}

  abbrev pub when_acked : String → DateTime → OrderRecord E → OrderRecord E
  when_acked venue_order_id submitted_at entry = record entry {
    state = OrderState.submitted;
    venue_order_id = some venue_order_id;
    last_updated = submitted_at;
  }

  abbrev pub when_rejected : DateTime → OrderRecord E → OrderRecord E
  when_rejected now entry = record entry { state = OrderState.rejected; last_updated = now }

  abbrev pub when_cancelled : DateTime → OrderRecord E → OrderRecord E
  when_cancelled now entry = record entry { state = OrderState.cancelled; last_updated = now }

  -- `filter` and `map` of `handle_reconciliation`.
  abbrev pub corrections : String → List (PositionDivergence E) → List (EngineEvent E)
  corrections venue [] = []
  corrections venue (d ∷ ds) =
      let rest = corrections venue ds in
      if is_accept_venue d.action
      then position_corrected d.instrument venue d.engine_qty d.venue_qty ∷ rest
      else rest

  -- `u32::try_from(n).unwrap_or(u32::MAX)`
  abbrev pub saturated : ℕ → ℕ
  saturated n = if leb n (2 ^ 32 - 1) then n else 2 ^ 32 - 1

  module _ (R : Runtime E) where
    -- A report on an order: the record must be there and in an expected state, and is changed.
    -- The three handlers below differ in the expected states, the change, and the event.
    abbrev pub update_order :
        Option (OrderRecord E)
        → String
        → String
        → (OrderState → Bool)
        → (OrderRecord E → OrderRecord E)
        → EngineEvent E
        → Step E R (CommandOutcome E)
    update_order none id report expected change event s = (s, err (order_not_found id))
    update_order (some entry) id report expected change event s =
        if expected entry.state
        then (write_record E R id (change entry) s, ok (mutated E (event ∷ [])))
        else (
          s,
          err (
              invalid_transition (
                append report (
                  append " for order "
                    (append id (append " in unexpected state " (show_state entry.state)))))),
        )

    unfoldable pub handle_venue_ack : String → String → DateTime → Step E R (CommandOutcome E)
    handle_venue_ack id venue_order_id submitted_at s =
        update_order (lookup id (R.state s.core).orders) id "venue ack" is_pending
          (when_acked venue_order_id submitted_at) (order_submitted id venue_order_id) s

    unfoldable pub handle_venue_submit_failed :
        String → String → DateTime → Step E R (CommandOutcome E)
    handle_venue_submit_failed id reason now s =
        update_order (lookup id (R.state s.core).orders) id "venue submit failed" is_pending
          (when_rejected now) (order_rejected id "venue_submit" reason) s

    unfoldable pub handle_venue_cancelled : String → String → DateTime → Step E R (CommandOutcome E)
    handle_venue_cancelled id reason cancelled_at s =
        update_order (lookup id (R.state s.core).orders) id "venue cancel" is_cancellable
          (when_cancelled cancelled_at) (order_cancelled id reason) s

    -- The event of a fill, from the state that `on_fill` left.
    abbrev fill_event : OrderState → Fill E → E.Decimal → Step E R (CommandOutcome E)
    fill_event OrderState.partially_filled fill remaining s = (
      s,
      ok (
          mutated E
            (order_partially_filled fill.order_id fill.qty remaining fill.price fill.fee ∷ [])),
    )
    fill_event OrderState.filled fill remaining s =
        (s, ok (mutated E (order_filled fill.order_id fill.qty fill.price fill.fee ∷ [])))
    fill_event state fill remaining s = (
      s,
      err (
          invalid_transition (
            append "fill for order "
              (append fill.order_id (append " left state " (show_state state))))),
    )

    abbrev after_fill : Option (OrderRecord E) → Fill E → Step E R (CommandOutcome E)
    after_fill none fill = λ s. (s, err (order_not_found fill.order_id))
    after_fill (some entry) fill = do
      remaining ← λ s. (s, remaining_qty E entry)
      fill_event entry.state fill remaining

    unfoldable pub handle_fill : Fill E → DateTime → Step E R (CommandOutcome E)
    handle_fill fill now = do
      done ← call E R (R.on_fill fill now)
      λ s. after_fill (lookup fill.order_id (R.state s.core).orders) fill s

    unfoldable pub handle_reconciliation :
        ReconciliationReport E → DateTime → Step E R (CommandOutcome E)
    handle_reconciliation report now = do
      done ← call E R (R.on_reconciliation report now)
      λ s. (
        s,
        ok (
            mutated E (
              corrections report.venue_id report.position_divergences
              ++ (reconciliation_completed report.venue_id (saturated (divergence_count E report))
                  ∷ []))),
      )
