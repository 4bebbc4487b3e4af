-- ===== src/Engine/Submit.antt =====
-- crates/engine-core/src/sequencer.rs: `handle_submit_order`.
use feynman_engine.Prelude.{Option, none, some, String, ℕ, List, [], ◌∷◌, insert}
use feynman_engine.Externs.{Externs}
use feynman_engine.Types.Pipeline.{PipelineOrder, Validated, RiskChecked, Routed, into_routed}
use feynman_engine.Lifecycle.State.{OrderState}
use feynman_engine.Engine.State.{OrderAck, OrderRecord}
use feynman_engine.Engine.Events.{
  EngineEvent, Result, ok, err, panic, internal, order_received, order_validated,
  order_risk_checked, order_routed, order_rejected, RiskOutcomeKind, show_error,
}
use feynman_engine.Engine.Runtime.{Runtime, SendResult, sent, full, closed}
use feynman_engine.Engine.Sequencer.{
  Step, CommandOutcome, order_reply, answer, unchanged, only_events, mutated, find_existing_ack,
  next_client_order_id,
}

module _ (E : Externs) (R : Runtime E) where
  open E use {DateTime}

  abbrev pub acknowledge : PipelineOrder E (Validated E) → String → DateTime → OrderAck E
  acknowledge order client_id now = record {
    order_id = order.core.id;
    client_order_id = client_id;
    accepted_at = now;
  }

  abbrev pub new_record : PipelineOrder E (RiskChecked E) → String → DateTime → OrderRecord E
  new_record checked client_id now = record {
    core = checked.core;
    state = OrderState.pending;
    client_order_id = client_id;
    venue_order_id = none;
    fills = [];
    created_at = now;
    last_updated = now;
  }

  abbrev pub submitted_events : PipelineOrder E (Validated E) → List (EngineEvent E)
  submitted_events order =
      let core = order.core in
      order_received core.id core.agent_id core.instrument_id core.venue_id
      ∷ order_validated core.id
      ∷ order_risk_checked core.id RiskOutcomeKind.approved
      ∷ order_routed core.id core.venue_id
      ∷ []

  -- The order is recorded and acknowledged.
  unfoldable pub accept :
      PipelineOrder E (Validated E)
      → PipelineOrder E (RiskChecked E)
      → String
      → ℕ
      → DateTime
      → Step E R (CommandOutcome E)
  accept order checked client_id respond now s =
      let state = R.state s.core in
      let ack = acknowledge order client_id now in
      let state' = record state {
        orders = insert order.core.id (new_record checked client_id now) state.orders;
        idempotency_cache = insert client_id ack state.idempotency_cache;
      } in
      (
        answer E R respond (order_reply (ok ack)) (record s { core = R.set_state state' s.core }),
        ok (mutated E (submitted_events order)),
      )

  abbrev refuse : PipelineOrder E (Validated E) → ℕ → String → Step E R (CommandOutcome E)
  refuse order respond reason s = (
    answer E R respond (order_reply (err (internal reason))) s,
    ok (only_events E (order_rejected order.core.id "route" reason ∷ [])),
  )

  -- What follows the answer of the submit channel.
  abbrev pub after_send :
      SendResult
      → PipelineOrder E (Validated E)
      → PipelineOrder E (RiskChecked E)
      → String
      → ℕ
      → DateTime
      → Step E R (CommandOutcome E)
  after_send sent order checked client_id respond now s =
      accept order checked client_id respond now s
  after_send full order checked client_id respond now s =
      refuse order respond "venue submit channel is full — order rejected" s
  after_send closed order checked client_id respond now s =
      refuse order respond "venue submit channel is closed — order rejected" s

  abbrev pub routed_order :
      PipelineOrder E (Validated E)
      → PipelineOrder E (RiskChecked E)
      → String
      → DateTime
      → PipelineOrder E (Routed E)
  routed_order order checked client_id now =
      into_routed E checked
        (record { venue_id = order.core.venue_id; client_order_id = client_id; routed_at = now })

  -- The order is sent to the venue submit task, if there is one.
  abbrev pub dispatch :
      Option R.Sender
      → PipelineOrder E (Validated E)
      → PipelineOrder E (RiskChecked E)
      → String
      → ℕ
      → DateTime
      → Step E R (CommandOutcome E)
  dispatch none order checked client_id respond now s = accept order checked client_id respond now s
  dispatch (some tx) order checked client_id respond now s =
      let attempt = R.try_send (routed_order order checked client_id now) tx in
      after_send attempt.1 order checked client_id respond now
        (record s { venue_submit_tx = some attempt.0 })

  -- What follows the evaluation of the order.
  abbrev pub route :
      Result (PipelineOrder E (RiskChecked E))
      → PipelineOrder E (Validated E)
      → ℕ
      → DateTime
      → Step E R (CommandOutcome E)
  route (ok checked) order respond now s =
      let named = next_client_order_id E R order.core.agent_id now s in
      dispatch named.1.venue_submit_tx order checked named.0 respond now named.1
  route (err e) order respond now s = (
    answer E R respond (order_reply (err e)) s,
    ok (only_events E (order_rejected order.core.id "risk" (show_error e) ∷ [])),
  )
  route (panic text) order respond now s = (s, panic text)

  abbrev submit_new :
      Option (OrderAck E)
      → PipelineOrder E (Validated E)
      → ℕ
      → DateTime
      → Step E R (CommandOutcome E)
  submit_new (some ack) order respond now s =
      (answer E R respond (order_reply (ok ack)) s, ok (unchanged E))
  submit_new none order respond now s =
      let verdict = R.evaluate_order order now s.core in
      route verdict.1 order respond now (record s { core = verdict.0 })

  unfoldable pub handle_submit_order :
      PipelineOrder E (Validated E) → ℕ → DateTime → Step E R (CommandOutcome E)
  unfolding accept
  handle_submit_order order respond now s =
      submit_new (find_existing_ack E R order.core.id s) order respond now s
