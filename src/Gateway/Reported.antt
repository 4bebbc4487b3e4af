-- ===== src/Gateway/Reported.antt =====
-- crates/gateway/src/lib.rs: the submit task with paper adapters, as the engine runs it without a
-- venue.
use feynman_engine.Prelude.{
  ◌≡◌, refl, sym, ◌∙◌, ap, Bool, true, false, ◌&&◌, if◌then◌else◌, none, some, String, List, [],
  ◌∷◌, ◌++◌, lookup, arith,
}
use feynman_engine.Prelude.Text.{◌++◌ as append}
use feynman_engine.Externs.{Externs, ExactArithmetic}
use feynman_engine.Types.Pipeline.{PipelineOrder, Routed}
use feynman_engine.Types.Market.{OrderbookSnapshot}
use feynman_engine.Engine.Events.{SequencerCommand, on_venue_ack, on_venue_submit_failed}
use feynman_engine.Gateway.Errors.{Result, ok, err, show_error}
use feynman_engine.Gateway.Simulator.{FillSimulationOutcome}
use feynman_engine.Gateway.Submission.{OrderSubmission, VenueOrderAck, PostAckActions, from_routed}
use feynman_engine.Gateway.Paper.{PaperAdapter, Simulator, take_post_ack_actions, new_adapter}
use feynman_engine.Gateway.Place.{submit_order, outcome_of}
use feynman_engine.Gateway.Conserving.{IsConserving}
use feynman_engine.Gateway.Calls.{Call, run, acknowledged_takes_any}
use feynman_engine.Gateway.Actions.{actions_of, acknowledged_takes}
use feynman_engine.Gateway.SubmitTask.{VenueAdapter, VenueSubmitTask, submit_one}
use feynman_engine.Gateway.Delivery.{
  fill_commands, cancel_commands, acked_report, answered_report, report_of, submit_one-report_of,
}

module _ (E : Externs) where
  -- `impl VenueAdapter for PaperAdapter`
  abbrev pub paper_adapter : VenueAdapter E
  paper_adapter = record {
    Adapter = PaperAdapter E;
    simulates_fills_locally = λ a. true;
    submit_order = submit_order E;
    take_post_ack_actions = take_post_ack_actions E;
  }

  dry_or_not : (dry : Bool) → (dry && false) ≡ false
  dry_or_not true = refl
  dry_or_not false = refl

  module _ (X : ExactArithmetic E) where
    -- What the sequencer gets of a submission that the adapter `a` answered with `out`.
    abbrev pub IsPaperReport :
        PaperAdapter E
        → OrderSubmission E
        → String
        → E.DateTime
        → List (SequencerCommand E)
        → PaperAdapter E × Result (VenueOrderAck E)
        → Type 0
    IsPaperReport a s id later commands (a', err e) =
        commands ≡ on_venue_submit_failed id (show_error E e) ∷ []
    IsPaperReport a s id later commands (a', ok ack) =
        (actions : PostAckActions E) × ((take_post_ack_actions E a' ack.venue_order_id).1
          ≡ ok actions)
        × (commands
            ≡ on_venue_ack id ack.venue_order_id ack.accepted_at ∷ fill_commands E actions.fills
              ++ cancel_commands E actions.cancellation_reason id later)
        × (lookup s.client_order_id a.state.idempotency_cache ≡ none
            → (book : OrderbookSnapshot E) × (outcome : FillSimulationOutcome E) × (lookup
                  s.market_id a.state.orderbooks
                ≡ some book)
              × (outcome_of E a s book ≡ ok outcome)
              × (actions ≡ actions_of E s outcome))

    result_inj : (x y : PostAckActions E) → Result.ok x ≡ ok y → x ≡ y
    result_inj x y h = ground arith

    answered-IsPaperReport :
        (venue : String) (simulator : Simulator E) (calls : List (Call E)) (s : OrderSubmission E)
        (id : String) (later : E.DateTime) (out : PaperAdapter E × Result (VenueOrderAck E))
        → IsConserving E X simulator
        → let a = run E (new_adapter E venue simulator) calls in
          submit_order E a s ≡ out
          → IsPaperReport a s id later (answered_report E paper_adapter id later out) out
    answered-IsPaperReport venue simulator calls s id later (a', err e) c same = refl
    answered-IsPaperReport venue simulator calls s id later (a', ok ack) c same =
        let a = run E (new_adapter E venue simulator) calls in
        let acked : (submit_order E a s).1 ≡ ok ack = ap (λ o. o.1) same in
        let (actions, taken) = acknowledged_takes_any E X venue simulator calls s ack c acked in
        let here : (take_post_ack_actions E a' ack.venue_order_id).1 ≡ ok actions =
          ap (λ o. (take_post_ack_actions E o.0 ack.venue_order_id).1) (sym same) ∙ taken in
        (
          actions,
          here,
          ap (acked_report E id ack later) here,
          λ fresh.
              let (book, outcome, booked, simulates, first, second) =
                acknowledged_takes E X a s ack fresh acked in
              (
                book,
                outcome,
                booked,
                simulates,
                result_inj actions (actions_of E s outcome) (sym taken ∙ first),
              ),
        )

    -- The engine submits a routed order to a paper adapter on which any methods were called since
    -- it was new, whose simulator conserves quantities, while the sequencer runs. If the adapter
    -- refuses the submission, then the sequencer gets exactly one failure with the adapter's error.
    -- If it acknowledges the submission, then the sequencer gets exactly that acknowledgement,
    -- every fill of the actions that the adapter hands out for it, and last their cancellation if
    -- they have one; never a failure. For a client order identifier that is new to the adapter,
    -- these actions are the fill of the simulator on the market's book, if there is one, and a
    -- cancellation exactly for an immediate-or-cancel order that was not filled whole.
    pub submit_paper-IsPaperReport :
        (venue : String) (simulator : Simulator E) (calls : List (Call E))
        (t : VenueSubmitTask E paper_adapter) (order : PipelineOrder E (Routed E))
        (now later : E.DateTime)
        → IsConserving E X simulator
        → t.sequencer_open ≡ true
        → lookup order.core.venue_id t.adapters ≡ some (run E (new_adapter E venue simulator) calls)
        → let a = run E (new_adapter E venue simulator) calls in
          let s = from_routed E order in
          (commands : List (SequencerCommand E)) × ((submit_one E paper_adapter order now later
              t).delivered
            ≡ t.delivered ++ commands)
          × IsPaperReport a s order.core.id later commands (submit_order E a s)
    submit_paper-IsPaperReport venue simulator calls t order now later c opened found =
        let a = run E (new_adapter E venue simulator) calls in
        let s = from_routed E order in
        let sent = submit_one-report_of E paper_adapter t order now later opened in
        let none_dry = dry_or_not order.core.dry_run in
        (
          answered_report E paper_adapter order.core.id later (submit_order E a s),
          sent
              ∙ ap (λ f. t.delivered ++ report_of E paper_adapter f order now later) found
              ∙ ap
                  (λ b.
                    t.delivered
                    ++ (if b
                        then on_venue_ack order.core.id
                            (append "sim-" order.stage.routing.client_order_id) now
                          ∷ []
                        else answered_report E paper_adapter order.core.id later
                            (submit_order E a s)))
                  none_dry,
          answered-IsPaperReport venue simulator calls s order.core.id later (submit_order E a s) c
              refl,
        )
