-- ===== src/Engine/Tests.antt =====
-- The sequencer on the samples: an order is submitted, reported on and submitted again.
use feynman_engine.Prelude.{
  ◌≡◌, refl, none, some, true, false, List, [], ◌∷◌, ◌++◌, All, ◌<◌, ◌^◌, arith, lookup, insert,
  ◌⊎◌,
}
use feynman_engine.Prelude.Int.{ℤ, pos}
use feynman_engine.Externs.FixedPoint.{fixed_point, whole}
use feynman_engine.Engine.State.{is_pending}
use feynman_engine.Engine.Events.{
  ok, SequencerCommand, submit_order, on_venue_ack, on_venue_cancelled, halt_all, adjust_limits,
  shutdown, mark_to_market,
}
use feynman_engine.Engine.Sequencer.{
  Sequencer, order_reply, answer, mutated, find_existing_ack, next_client_order_id,
}
use feynman_engine.Engine.Submit.{handle_submit_order, accept, acknowledge, submitted_events}
use feynman_engine.Engine.Venue.{
  handle_venue_ack, handle_venue_submit_failed, handle_venue_cancelled,
}
use feynman_engine.Engine.Process.{
  run, next_id, process_command, handle_command, drain_pending_commands,
}
use feynman_engine.Engine.Durable.{IsTakenEntry, run-IsDurable}
use feynman_engine.Types.Limits.{AgentRiskLimits}
use feynman_engine.Engine.Dispatch.{
  IsRecorded, IsRepeated, IsRefused, client_id, submit_records_sent,
}
use feynman_engine.Engine.Resubmission.{process_all, resubmit_lem}
use feynman_engine.Lifecycle.State.{OrderState}
use feynman_engine.Engine.Inbox.{
  drain_inbox, timed, send_all, empty_inbox, of_priority, drain_inbox-send_all,
}
use feynman_engine.Engine.Reports.{
  Reports, IsWaiting, IsLiving, taken_as, ended_as, venue_reports_lem,
}
use feynman_engine.Engine.Samples.{approve, runtime, laws, idle, started, order}

abbrev submitted : Sequencer fixed_point runtime
submitted = (handle_submit_order fixed_point runtime order 1 (pos 4) started).0

taken :
    (handle_submit_order fixed_point runtime order 1 (pos 4) started).1
    ≡ ok (mutated fixed_point (submitted_events fixed_point runtime order))
unfolding handle_submit_order accept find_existing_ack next_client_order_id lookup
taken = refl

submit_records_sent_example :
    let v = approve order in
    (◌≡◌ {A = _} true true
      → IsRecorded fixed_point runtime laws order 1
          (pos 4)
          (ok v)
          (client_id fixed_point runtime laws order 1 (pos 4) started)
          (some 2)
          []
          submitted)
    × (true ≡ false
        → IsRepeated fixed_point runtime laws order 1 (pos 4) started submitted
          ⊎ IsRefused fixed_point runtime laws order 1 (pos 4) [] idle submitted)
submit_records_sent_example =
    submit_records_sent fixed_point runtime laws order 1 (pos 4) started
      (mutated fixed_point (submitted_events fixed_point runtime order)) taken

numbered_taken :
    (handle_submit_order fixed_point runtime order 1
      (pos 4)
      (next_id fixed_point runtime started).1).1
    ≡ ok (mutated fixed_point (submitted_events fixed_point runtime order))
unfolding handle_submit_order accept find_existing_ack next_client_order_id lookup
numbered_taken = refl

-- The venue acknowledges and then cancels the order before it is submitted again.
abbrev reports : List (SequencerCommand fixed_point × ℤ)
reports =
    (on_venue_ack "o-7" "v-1" (pos 5), pos 5)
    ∷ (on_venue_cancelled "o-7" "expired" (pos 6), pos 6)
    ∷ []

resubmit_lem_example :
    let s1 = (process_command fixed_point runtime (submit_order order 1) (pos 4) started).0 in
    let s2 = process_all fixed_point runtime laws reports s1 in
    let ack =
      acknowledge fixed_point runtime order
        (client_id fixed_point runtime laws order 1 (pos 4) (next_id fixed_point runtime started).1)
        (pos 4) in
    (s1.replies ≡ (1, order_reply (ok ack)) ∷ [])
    × (process_command fixed_point runtime (submit_order order 2) (pos 9) s2 ≡ (
      answer fixed_point runtime 2 (order_reply (ok ack)) (next_id fixed_point runtime s2).1,
      ok none,
    ))
resubmit_lem_example =
    resubmit_lem fixed_point runtime laws order order 1 2 (pos 4) (pos 9) started
      (mutated fixed_point (submitted_events fixed_point runtime order)) reports numbered_taken refl
      (tt, (tt, tt)) refl

venue_reports_lem_example :
    Reports fixed_point runtime laws "o-7"
      (IsWaiting fixed_point runtime laws)
      (taken_as fixed_point runtime laws "v-1" (pos 5))
      "o-7"
      submitted
      (handle_venue_ack fixed_point runtime "o-7" "v-1" (pos 5) submitted)
    × Reports fixed_point runtime laws "o-7"
        (IsWaiting fixed_point runtime laws)
        (ended_as fixed_point runtime laws OrderState.rejected (pos 5))
        "o-7"
        submitted
        (handle_venue_submit_failed fixed_point runtime "o-7" "v-1" (pos 5) submitted)
    × Reports fixed_point runtime laws "o-7"
        (IsLiving fixed_point runtime laws)
        (ended_as fixed_point runtime laws OrderState.cancelled (pos 5))
        "o-7"
        submitted
        (handle_venue_cancelled fixed_point runtime "o-7" "v-1" (pos 5) submitted)
venue_reports_lem_example =
    venue_reports_lem fixed_point runtime laws submitted "o-7" "v-1" "o-7" (pos 5)

abbrev narrow : AgentRiskLimits fixed_point
narrow = record {
  allocated_capital = whole 100;
  max_position_notional = whole 50;
  max_gross_notional = whole 100;
  max_drawdown_pct = pos 500;
  max_daily_loss = whole 5;
  max_open_orders = 2;
  allowed_instruments = none;
  allowed_venues = none;
}

-- The order is submitted and acknowledged, and a halt and new limits are still waiting when the
-- shutdown comes.
abbrev pub session : List (SequencerCommand fixed_point × ℤ)
session =
    (submit_order order 1, pos 4)
    ∷ (on_venue_ack "o-7" "v-1" (pos 5), pos 5)
    ∷ (shutdown 2, pos 6)
    ∷ (halt_all "maintenance", pos 7)
    ∷ (adjust_limits "beta" narrow 3, pos 8)
    ∷ []

abbrev pub ended : Sequencer fixed_point runtime
ended = (run fixed_point runtime session started).0

pub ends_well : (run fixed_point runtime session started).1 ≡ ok ended.snapshot_cache
unfolding run process_command handle_command handle_submit_order accept find_existing_ack
    next_client_order_id handle_venue_ack lookup insert is_pending drain_pending_commands
ends_well = refl

pub session-IsTaken : All (IsTakenEntry fixed_point runtime laws) session
session-IsTaken = (tt, (tt, (tt, (tt, ((λ c. refl), tt)))))

run-IsDurable_example :
    (ended.journal ≡ some (ended.snapshot_cache.sequence_id, ended.snapshot_cache))
    × (ended.core ≡ ended.snapshot_cache.state)
    × (ended.snapshot_cache.sequence_id < ended.next_sequence)
    × (ended.next_sequence < 2 ^ 64)
run-IsDurable_example =
    run-IsDurable fixed_point runtime laws session started ended.snapshot_cache
      (refl, refl, omega arith) (omega arith) session-IsTaken ends_well

abbrev waiting : List (SequencerCommand fixed_point)
waiting = submit_order order 1 ∷ halt_all "drill" ∷ mark_to_market ∷ shutdown 2 ∷ []

drain_inbox-send_all_example :
    drain_inbox fixed_point runtime pos 8 4 (send_all fixed_point waiting (empty_inbox fixed_point))
    ≡ drain_pending_commands fixed_point runtime (
        timed fixed_point pos 8
          (of_priority fixed_point true waiting ++ of_priority fixed_point false waiting))
drain_inbox-send_all_example =
    drain_inbox-send_all fixed_point runtime pos waiting 8 4 (omega arith)
