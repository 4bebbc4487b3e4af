-- ===== src/Gateway/SubmitTask.antt =====
-- crates/gateway/src/lib.rs: `VenueSubmitTask`. The sequencer's handle either takes every command
-- that an order leads to or, once the sequencer has stopped, none of them.
use feynman_engine.Prelude.{
  Bool, not, ◌&&◌, Option, none, some, String, List, [], ◌∷◌, ◌++◌, Map, lookup, insert,
  if◌then◌else◌,
}
use feynman_engine.Prelude.Text.{◌++◌ as append}
use feynman_engine.Externs.{Externs}
use feynman_engine.Types.Pipeline.{PipelineOrder, Routed}
use feynman_engine.Engine.Events.{
  SequencerCommand, on_venue_ack, on_venue_submit_failed, on_venue_cancelled, on_fill,
}
use feynman_engine.Gateway.Errors.{Result, ok, err, show_error}
use feynman_engine.Gateway.Submission.{
  OrderSubmission, VenueOrderAck, PostAckFill, PostAckActions, from_routed,
}

-- The methods of `VenueAdapter` that the task calls.
pub record VenueAdapter (E : Externs) : Type 1 where
  pub Adapter : Type 0
  pub simulates_fills_locally : Adapter → Bool
  pub submit_order : Adapter → OrderSubmission E → Adapter × Result (VenueOrderAck E)
  pub take_post_ack_actions : Adapter → String → Adapter × Result (PostAckActions E)

pub record VenueSubmitTask (E : Externs) (V : VenueAdapter E) : Type 0 where
  pub adapters : Map V.Adapter
  pub sequencer_open : Bool
  pub delivered : List (SequencerCommand E)

module _ (E : Externs) (V : VenueAdapter E) where
  open E use {DateTime}

  -- `sequencer_handle.send`
  abbrev pub send : SequencerCommand E → VenueSubmitTask E V → VenueSubmitTask E V
  send command t =
      if t.sequencer_open then record t { delivered = t.delivered ++ (command ∷ []) } else t

  abbrev pub send_fills : List (PostAckFill E) → VenueSubmitTask E V → VenueSubmitTask E V
  send_fills [] t = t
  send_fills (queued ∷ rest) t = send_fills rest (send (on_fill queued.fill) t)

  abbrev pub send_cancellation :
      Option String → String → DateTime → VenueSubmitTask E V → VenueSubmitTask E V
  send_cancellation none id later t = t
  send_cancellation (some reason) id later t = send (on_venue_cancelled id reason later) t

  abbrev set_adapter : String → V.Adapter → VenueSubmitTask E V → VenueSubmitTask E V
  set_adapter venue adapter t = record t { adapters = insert venue adapter t.adapters }

  -- What follows the acknowledgement: the actions of the adapter.
  abbrev pub send_actions :
      Result (PostAckActions E) → String → DateTime → VenueSubmitTask E V → VenueSubmitTask E V
  send_actions (ok actions) id later t =
      send_cancellation actions.cancellation_reason id later (send_fills actions.fills t)
  send_actions (err e) id later t =
      send (on_venue_submit_failed id (append "post-ack adapter action failed: " (show_error E e)))
        t

  -- What follows the adapter's answer to the submission. A command that cannot be sent ends it.
  abbrev pub after_submit :
      Result (VenueOrderAck E)
      → V.Adapter
      → String
      → String
      → DateTime
      → VenueSubmitTask E V
      → VenueSubmitTask E V
  after_submit (err e) adapter venue id later t =
      send (on_venue_submit_failed id (show_error E e)) (set_adapter venue adapter t)
  after_submit (ok ack) adapter venue id later t =
      let taken = V.take_post_ack_actions adapter ack.venue_order_id in
      let acked = send (on_venue_ack id ack.venue_order_id ack.accepted_at) t in
      if t.sequencer_open
      then send_actions taken.1 id later (set_adapter venue taken.0 acked)
      else set_adapter venue adapter t

  abbrev pub with_adapter :
      Option V.Adapter
      → PipelineOrder E (Routed E)
      → DateTime
      → DateTime
      → VenueSubmitTask E V
      → VenueSubmitTask E V
  with_adapter none order now later t =
      send
        (on_venue_submit_failed order.core.id
          (append "no adapter registered for venue " order.core.venue_id))
        t
  with_adapter (some adapter) order now later t =
      let submitted = V.submit_order adapter (from_routed E order) in
      if order.core.dry_run && not (V.simulates_fills_locally adapter)
      then send (on_venue_ack order.core.id (append "sim-" order.stage.routing.client_order_id) now)
          t
      else after_submit submitted.1 submitted.0 order.core.venue_id order.core.id later t

  -- One round of `run`, with the two readings of the clock.
  unfoldable pub submit_one :
      PipelineOrder E (Routed E) → DateTime → DateTime → VenueSubmitTask E V → VenueSubmitTask E V
  unfolding from_routed
  submit_one order now later t =
      with_adapter (lookup order.core.venue_id t.adapters) order now later t
