-- ===== src/Gateway/Delivery.antt =====
-- crates/gateway/src/lib.rs: the commands that the sequencer gets for a routed order.
use feynman_engine.Prelude.{
  ◌≡◌, refl, subst, ◌∙◌, ap, sym, inl, inr, true, not, ◌&&◌, Option, none, some, String, List, [],
  ◌∷◌, ◌++◌, if◌then◌else◌, append_assoc, append_nil, Map, not, ◌&&◌, lookup, insert, Bool-cases,
}
use feynman_engine.Prelude.Text.{◌++◌ as append}
use feynman_engine.Externs.{Externs}
use feynman_engine.Types.Pipeline.{PipelineOrder, Routed}
use feynman_engine.Engine.Events.{
  SequencerCommand, on_venue_ack, on_venue_submit_failed, on_venue_cancelled, on_fill,
}
use feynman_engine.Gateway.Errors.{Result, ok, err, show_error}
use feynman_engine.Gateway.Submission.{VenueOrderAck, PostAckFill, PostAckActions, from_routed}
use feynman_engine.Gateway.SubmitTask.{
  VenueAdapter, VenueSubmitTask, send_fills, send_cancellation, send_actions, after_submit,
  with_adapter, submit_one,
}

module _ (E : Externs) where
  abbrev pub fill_commands : List (PostAckFill E) → List (SequencerCommand E)
  fill_commands [] = []
  fill_commands (queued ∷ rest) = on_fill queued.fill ∷ fill_commands rest

  abbrev pub cancel_commands : Option String → String → E.DateTime → List (SequencerCommand E)
  cancel_commands none id later = []
  cancel_commands (some reason) id later = on_venue_cancelled id reason later ∷ []

  -- What the sequencer is to get of an order that the venue acknowledged, by the answer to the
  -- request for the order's actions.
  abbrev pub acked_report :
      String → VenueOrderAck E → E.DateTime → Result (PostAckActions E) → List (SequencerCommand E)
  acked_report id ack later (ok actions) =
      on_venue_ack id ack.venue_order_id ack.accepted_at ∷ fill_commands actions.fills
      ++ cancel_commands actions.cancellation_reason id later
  acked_report id ack later (err e) =
      on_venue_ack id ack.venue_order_id ack.accepted_at
      ∷ on_venue_submit_failed id (append "post-ack adapter action failed: " (show_error E e))
      ∷ []

  module _ (V : VenueAdapter E) where
    abbrev opened : Map V.Adapter → List (SequencerCommand E) → VenueSubmitTask E V
    opened adapters delivered = record {
      adapters = adapters;
      sequencer_open = true;
      delivered = delivered;
    }

    sent_fills :
        (fills : List (PostAckFill E)) (adapters : Map V.Adapter)
        (delivered : List (SequencerCommand E))
        → send_fills E V fills (opened adapters delivered)
          ≡ opened adapters (delivered ++ fill_commands fills)
    sent_fills [] adapters delivered = ap (opened adapters) (sym (append_nil delivered))
    sent_fills (queued ∷ rest) adapters delivered =
        sent_fills rest adapters (delivered ++ (on_fill queued.fill ∷ []))
        ∙ ap (opened adapters)
            (append_assoc delivered (on_fill queued.fill ∷ []) (fill_commands rest))

    sent_cancellation :
        (reason : Option String) (id : String) (later : E.DateTime) (adapters : Map V.Adapter)
        (delivered : List (SequencerCommand E))
        → send_cancellation E V reason id later (opened adapters delivered)
          ≡ opened adapters (delivered ++ cancel_commands reason id later)
    sent_cancellation none id later adapters delivered =
        ap (opened adapters) (sym (append_nil delivered))
    sent_cancellation (some reason) id later adapters delivered = refl

    -- What the sequencer is to get, by the adapter's answer to the submission.
    abbrev pub answered_report :
        String → E.DateTime → V.Adapter × Result (VenueOrderAck E) → List (SequencerCommand E)
    answered_report id later (adapter, err e) = on_venue_submit_failed id (show_error E e) ∷ []
    answered_report id later (adapter, ok ack) =
        acked_report id ack later (V.take_post_ack_actions adapter ack.venue_order_id).1

    -- What the sequencer is to get for one order, by the adapter of the order's venue. A dry run is
    -- not submitted to an adapter that trades.
    abbrev pub report_of :
        Option V.Adapter
        → PipelineOrder E (Routed E)
        → E.DateTime
        → E.DateTime
        → List (SequencerCommand E)
    report_of none order now later =
        on_venue_submit_failed order.core.id
          (append "no adapter registered for venue " order.core.venue_id)
        ∷ []
    report_of (some adapter) order now later =
        if order.core.dry_run && not (V.simulates_fills_locally adapter)
        then on_venue_ack order.core.id (append "sim-" order.stage.routing.client_order_id) now ∷ []
        else answered_report order.core.id later (V.submit_order adapter (from_routed E order))

    sent_actions :
        (answer : Result (PostAckActions E)) (id : String) (ack : VenueOrderAck E)
        (later : E.DateTime) (adapters : Map V.Adapter) (delivered : List (SequencerCommand E))
        → let acked = delivered ++ (on_venue_ack id ack.venue_order_id ack.accepted_at ∷ []) in
          (send_actions E V answer id later (opened adapters acked)).delivered
          ≡ delivered ++ acked_report id ack later answer
    sent_actions (ok actions) id ack later adapters delivered =
        let first = on_venue_ack id ack.venue_order_id ack.accepted_at in
        let fills = fill_commands actions.fills in
        let cancelled = cancel_commands actions.cancellation_reason id later in
        let acked = delivered ++ (first ∷ []) in
        ap (λ t. (send_cancellation E V actions.cancellation_reason id later t).delivered)
          (sent_fills actions.fills adapters acked)
        ∙ ap (λ t. t.delivered)
            (sent_cancellation actions.cancellation_reason id later adapters (acked ++ fills))
        ∙ append_assoc acked fills cancelled
        ∙ append_assoc delivered (first ∷ []) (fills ++ cancelled)
    sent_actions (err e) id ack later adapters delivered = append_assoc delivered _ _

    after_submit_sends :
        (r : Result (VenueOrderAck E)) (adapter : V.Adapter) (venue id : String)
        (later : E.DateTime) (adapters : Map V.Adapter) (delivered : List (SequencerCommand E))
        → (after_submit E V r adapter venue id later (opened adapters delivered)).delivered
          ≡ delivered ++ answered_report id later (adapter, r)
    after_submit_sends (err e) adapter venue id later adapters delivered = refl
    after_submit_sends (ok ack) adapter venue id later adapters delivered =
        let taken = V.take_post_ack_actions adapter ack.venue_order_id in
        sent_actions taken.1 id ack later (insert venue taken.0 adapters) delivered

    with_adapter_sends :
        (found : Option V.Adapter) (order : PipelineOrder E (Routed E)) (now later : E.DateTime)
        (adapters : Map V.Adapter) (delivered : List (SequencerCommand E))
        → (with_adapter E V found order now later (opened adapters delivered)).delivered
          ≡ delivered ++ report_of found order now later
    with_adapter_sends none order now later adapters delivered = refl
    with_adapter_sends (some adapter) order now later adapters delivered =
        let submitted = V.submit_order adapter (from_routed E order) in
        let sent =
          after_submit_sends submitted.1 submitted.0 order.core.venue_id order.core.id later
            adapters delivered in
        elim (Bool-cases (order.core.dry_run && not (V.simulates_fills_locally adapter))) [
          | inl dry ↦ rw dry refl
          | inr live ↦ rw live sent
        ]

    -- While the sequencer runs, a routed order sends it exactly these commands: a failure, if no
    -- adapter is registered for the venue; an acknowledgement only, for a dry run with an adapter
    -- that does not simulate fills; a failure with the adapter's error, if it refuses the
    -- submission; and else the adapter's acknowledgement, followed by every fill of its actions in
    -- their order and then the cancellation if they have one, or by a failure if the actions could
    -- not be taken.
    pub submit_one-report_of :
        (t : VenueSubmitTask E V) (order : PipelineOrder E (Routed E)) (now later : E.DateTime)
        → t.sequencer_open ≡ true
        → (submit_one E V order now later t).delivered
          ≡ t.delivered ++ report_of (lookup order.core.venue_id t.adapters) order now later
    unfolding submit_one
    submit_one-report_of t order now later h =
        let found = lookup order.core.venue_id t.adapters in
        subst
          (λ o.
            (with_adapter E V found order now later (record {
              adapters = t.adapters;
              sequencer_open = o;
              delivered = t.delivered;
            })).delivered
            ≡ t.delivered ++ report_of found order now later)
          (sym h) (with_adapter_sends found order now later t.adapters t.delivered)
