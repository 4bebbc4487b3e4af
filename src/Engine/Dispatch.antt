-- ===== src/Engine/Dispatch.antt =====
-- crates/engine-core/src/sequencer.rs: when `handle_submit_order` records an order, and what it
-- answers.
use feynman_engine.Prelude.{
  ℕ, ◌≡◌, subst, ap, refl, ◌⊎◌, inl, inr, Option, none, some, String, List, ◌∷◌, true, false, arith,
  lookup, insert, lookup-insert_self, Option-cases,
}
use feynman_engine.Externs.{Externs}
use feynman_engine.Types.Pipeline.{PipelineOrder, Validated, RiskChecked}
use feynman_engine.Engine.Events.{Result, ok, err, panic, EngineError, internal}
use feynman_engine.Engine.State.{OrderAck}
use feynman_engine.Engine.Runtime.{Runtime, RuntimeLaws, SendResult, sent, full, closed}
use feynman_engine.Engine.Sequencer.{
  Sequencer, CommandOutcome, Reply, order_reply, answer, find_existing_ack, next_client_order_id,
}
use feynman_engine.Engine.Submit.{
  handle_submit_order, acknowledge, new_record, accept, dispatch, after_send, route, routed_order,
}

module _ (E : Externs) (R : Runtime E) (L : RuntimeLaws E R) where
  module _ (order : PipelineOrder E (Validated E)) (respond : ℕ) (now : E.DateTime) where
    -- The order went to the venue submit task, if there is one.
    abbrev pub WasSent : PipelineOrder E (RiskChecked E) → String → Option R.Sender → Type 0
    WasSent checked id none = Unit
    WasSent checked id (some tx) = (R.try_send (routed_order E R order checked id now) tx).1 ≡ sent

    -- The order passed the risk checks, was sent, is on record as pending, and its acknowledgement
    -- is cached and was answered, after the answers of `log`.
    abbrev pub IsRecorded :
        Result (PipelineOrder E (RiskChecked E))
        → String
        → Option R.Sender
        → List (ℕ × Reply E)
        → Sequencer E R
        → Type 0
    IsRecorded (ok checked) id tx log s' =
        WasSent checked id tx
        × (lookup order.core.id (R.state s'.core).orders ≡ some (new_record E R checked id now))
        × (find_existing_ack E R order.core.id s' ≡ some (acknowledge E R order id now))
        × (s'.replies ≡ (respond, order_reply (ok (acknowledge E R order id now))) ∷ log)
    IsRecorded (err _) id tx log s' = ⊥
    IsRecorded (panic _) id tx log s' = ⊥

    recorded_ack :
        (verdict : Result (PipelineOrder E (RiskChecked E))) (id : String) (tx : Option R.Sender)
        (log : List (ℕ × Reply E)) (s' : Sequencer E R)
        → IsRecorded verdict id tx log s'
        → (find_existing_ack E R order.core.id s' ≡ some (acknowledge E R order id now))
          × (s'.replies ≡ (respond, order_reply (ok (acknowledge E R order id now))) ∷ log)
    recorded_ack (ok checked) id tx log s' recorded = (recorded.2, recorded.3)
    recorded_ack (err e) id tx log s' recorded = ground arith
    recorded_ack (panic text) id tx log s' recorded = ground arith

    accept_records :
        (checked : PipelineOrder E (RiskChecked E)) (id : String) (s : Sequencer E R)
        → let s' = (accept E R order checked id respond now s).0 in
          (lookup order.core.id (R.state s'.core).orders ≡ some (new_record E R checked id now))
          × (find_existing_ack E R order.core.id s' ≡ some (acknowledge E R order id now))
    unfolding accept find_existing_ack
    accept_records checked id s =
        let state = R.state s.core in
        let entry = new_record E R checked id now in
        let ack = acknowledge E R order id now in
        let state' = record state {
          orders = insert order.core.id entry state.orders;
          idempotency_cache = insert id ack state.idempotency_cache;
        } in
        ground (
          arith,
          L.state-set_state state' s.core,
          lookup-insert_self order.core.id entry state.orders,
          lookup-insert_self id ack state.idempotency_cache,
        )

    -- The order was answered with an error, after the answers of `log`, and the core is `c`.
    abbrev pub IsRefused : List (ℕ × Reply E) → R.Core → Sequencer E R → Type 0
    IsRefused log c s' =
        (e : EngineError) × (s'.replies ≡ (respond, order_reply (err e)) ∷ log) × (s'.core ≡ c)

    -- The order was answered with the acknowledgement that is on record for it, and nothing else was
    -- done.
    abbrev pub IsRepeated : Sequencer E R → Sequencer E R → Type 0
    IsRepeated s s' =
        (ack : OrderAck E) × (find_existing_ack E R order.core.id s ≡ some ack)
        × (s' ≡ answer E R respond (order_reply (ok ack)) s)

    -- What the handler left, from the sequencer `s` and the core `c` after the evaluation.
    abbrev Leaves :
        Result (PipelineOrder E (RiskChecked E))
        → String
        → Sequencer E R
        → R.Core
        → Sequencer E R
        → Result (CommandOutcome E)
        → Type 0
    Leaves verdict id s c s' (ok outcome) =
        (outcome.state_mutated ≡ true → IsRecorded verdict id s.venue_submit_tx s.replies s')
        × (outcome.state_mutated ≡ false → IsRefused s.replies c s')
    Leaves verdict id s c s' (err _) = Unit
    Leaves verdict id s c s' (panic _) = Unit

    -- The same, when a repeated order is answered from the record.
    abbrev LeavesAll :
        Result (PipelineOrder E (RiskChecked E))
        → String
        → Sequencer E R
        → R.Core
        → Sequencer E R
        → Result (CommandOutcome E)
        → Type 0
    LeavesAll verdict id s c s' (ok outcome) =
        (outcome.state_mutated ≡ true → IsRecorded verdict id s.venue_submit_tx s.replies s')
        × (outcome.state_mutated ≡ false → IsRepeated s s' ⊎ IsRefused s.replies c s')
    LeavesAll verdict id s c s' (err _) = Unit
    LeavesAll verdict id s c s' (panic _) = Unit

    leaves_all :
        (verdict : Result (PipelineOrder E (RiskChecked E))) (id : String) (s : Sequencer E R)
        (c : R.Core) (s' : Sequencer E R) (r : Result (CommandOutcome E))
        → Leaves verdict id s c s' r
        → LeavesAll verdict id s c s' r
    leaves_all verdict id s c s' (ok outcome) h = (h.0, λ e. inr (h.1 e))
    leaves_all verdict id s c s' (err e) h = tt
    leaves_all verdict id s c s' (panic text) h = tt

    sent-Leaves :
        (result : SendResult) (tx : R.Sender) (checked : PipelineOrder E (RiskChecked E))
        (id : String) (s t : Sequencer E R)
        → s.venue_submit_tx ≡ some tx
        → (R.try_send (routed_order E R order checked id now) tx).1 ≡ result
        → t.replies ≡ s.replies
        → let out = after_send E R result order checked id respond now t in
          Leaves (ok checked) id s t.core out.0 out.1
    unfolding accept
    sent-Leaves sent tx checked id s t e r log =
        let written = accept_records checked id t in ground (arith, written)
    sent-Leaves full tx checked id s t e r log =
        let reason : EngineError = internal "venue submit channel is full — order rejected" in
        (
          (λ h. absurd (ground arith)),
          λ h. (reason, ap (λ q. (respond, order_reply (err reason)) ∷ q) log, refl),
        )
    sent-Leaves closed tx checked id s t e r log =
        let reason : EngineError = internal "venue submit channel is closed — order rejected" in
        (
          (λ h. absurd (ground arith)),
          λ h. (reason, ap (λ q. (respond, order_reply (err reason)) ∷ q) log, refl),
        )

    dispatch-Leaves :
        (tx : Option R.Sender) (checked : PipelineOrder E (RiskChecked E)) (id : String)
        (s t : Sequencer E R)
        → s.venue_submit_tx ≡ tx
        → t.replies ≡ s.replies
        → let out = dispatch E R tx order checked id respond now t in
          Leaves (ok checked) id s t.core out.0 out.1
    unfolding accept
    dispatch-Leaves none checked id s t e log =
        let written = accept_records checked id t in ground (arith, written)
    dispatch-Leaves (some tx) checked id s t e log =
        let sender = some (R.try_send (routed_order E R order checked id now) tx).0 in
        let result = (R.try_send (routed_order E R order checked id now) tx).1 in
        sent-Leaves result tx checked id s (record t { venue_submit_tx = sender }) e refl log

    -- The identifier that the handler gives the order.
    abbrev pub client_id : Sequencer E R → String
    client_id s = (next_client_order_id E R order.core.agent_id now s).0

    route-Leaves :
        (verdict : Result (PipelineOrder E (RiskChecked E))) (s : Sequencer E R) (c : R.Core)
        → let out = route E R verdict order respond now (record s { core = c }) in
          Leaves verdict (client_id s) s c out.0 out.1
    unfolding next_client_order_id
    route-Leaves (ok checked) s c =
        let t = (next_client_order_id E R order.core.agent_id now (record s { core = c })).1 in
        dispatch-Leaves s.venue_submit_tx checked (client_id s) s t refl refl
    route-Leaves (err e) s c = ((λ h. absurd (ground arith)), λ h. (e, refl, refl))
    route-Leaves (panic text) s c = tt

    submit-LeavesAll :
        (s : Sequencer E R)
        → let verdict = R.evaluate_order order now s.core in
          let out = handle_submit_order E R order respond now s in
          LeavesAll verdict.1 (client_id s) s verdict.0 out.0 out.1
    unfolding handle_submit_order
    submit-LeavesAll s =
        let verdict = R.evaluate_order order now s.core in
        let out = route E R verdict.1 order respond now (record s { core = verdict.0 }) in
        let routed =
          leaves_all verdict.1 (client_id s) s verdict.0 out.0 out.1
            (route-Leaves verdict.1 s verdict.0) in
        elim (Option-cases (find_existing_ack E R order.core.id s)) [
          | inl none_found ↦ rw none_found routed
          | inr (ack, found) ↦ rw found ((λ h. absurd (ground arith)), λ h. inl (ack, found, refl))
        ]

    -- When the handler of a submission says that it changed the state, the order passed the
    -- evaluation, the venue's submit channel (if there is one) took it, it is on record as pending
    -- with its client order identifier, and the acknowledgement is cached and was answered. When
    -- the handler says that it did not change the state, then either an acknowledgement of the
    -- order was on record, and it was answered and nothing else changed; or the order was answered
    -- with an error, and the core is as the evaluation left it.
    pub submit_records_sent :
        (s : Sequencer E R) (outcome : CommandOutcome E)
        → let verdict = R.evaluate_order order now s.core in
          let s' = (handle_submit_order E R order respond now s).0 in
          (handle_submit_order E R order respond now s).1 ≡ ok outcome
          → (outcome.state_mutated ≡ true
              → IsRecorded verdict.1 (client_id s) s.venue_submit_tx s.replies s')
            × (outcome.state_mutated ≡ false → IsRepeated s s' ⊎ IsRefused s.replies verdict.0 s')
    submit_records_sent s outcome e =
        let verdict = R.evaluate_order order now s.core in
        let out = handle_submit_order E R order respond now s in
        subst (LeavesAll verdict.1 (client_id s) s verdict.0 out.0) e (submit-LeavesAll s)

    -- The acknowledgement of an order that was recorded is on record and was answered.
    pub submit_acknowledges :
        (s : Sequencer E R) (outcome : CommandOutcome E)
        → (handle_submit_order E R order respond now s).1 ≡ ok outcome
        → outcome.state_mutated ≡ true
        → let s' = (handle_submit_order E R order respond now s).0 in
          let ack = acknowledge E R order (client_id s) now in
          (find_existing_ack E R order.core.id s' ≡ some ack)
          × (s'.replies ≡ (respond, order_reply (ok ack)) ∷ s.replies)
    submit_acknowledges s outcome e changed =
        let verdict = R.evaluate_order order now s.core in
        let s' = (handle_submit_order E R order respond now s).0 in
        recorded_ack verdict.1 (client_id s) s.venue_submit_tx s.replies s'
          ((submit_records_sent s outcome e).0 changed)
