-- ===== src/Engine/Resubmission.antt =====
-- crates/engine-core/src/sequencer.rs: `process_command` on an order that was submitted before.
use feynman_engine.Prelude.{
  ℕ, ◌∙◌, ◌≡◌, refl, true, Bool, Bool-cases, inl, inr, Option, none, some, String, List, [], ◌∷◌,
  All, arith, lookup, insert, lookup-insert, eq_iff,
}
use feynman_engine.Externs.{Externs}
use feynman_engine.Types.Pipeline.{PipelineOrder, Validated}
use feynman_engine.Lifecycle.State.{OrderState}
use feynman_engine.Engine.State.{OrderAck, OrderRecord}
use feynman_engine.Engine.Events.{
  Result, ok, err, panic, EngineEvent, SequencerCommand, submit_order, submit_signal, on_venue_ack,
  on_venue_submit_failed, on_venue_cancelled, snapshot, shutdown, on_fill, on_reconciliation,
  mark_to_market, adjust_limits, pause_agent, resume_agent, halt_all, reset_circuit_breaker,
}
use feynman_engine.Engine.Runtime.{Runtime, RuntimeLaws}
use feynman_engine.Engine.Sequencer.{
  Sequencer, CommandOutcome, order_reply, answer, find_existing_ack,
}
use feynman_engine.Engine.Submit.{handle_submit_order, acknowledge}
use feynman_engine.Engine.Venue.{
  handle_venue_ack, handle_venue_submit_failed, handle_venue_cancelled, update_order,
}
use feynman_engine.Engine.Process.{handle_command, commit, next_id, process_command}
use feynman_engine.Engine.Dispatch.{client_id, submit_acknowledges}

module _ (E : Externs) (R : Runtime E) (L : RuntimeLaws E R) where
  -- A command that the sequencer handles without calling a method of the core that may change it.
  abbrev pub IsOwn : SequencerCommand E → Type 0
  IsOwn (on_venue_ack id venue_order_id submitted_at) = Unit
  IsOwn (on_venue_submit_failed id reason) = Unit
  IsOwn (on_venue_cancelled id reason cancelled_at) = Unit
  IsOwn (submit_signal signal respond) = Unit
  IsOwn (snapshot respond) = Unit
  IsOwn (shutdown respond) = Unit
  IsOwn _ = ⊥

  abbrev pub process_all : List (SequencerCommand E × E.DateTime) → Sequencer E R → Sequencer E R
  process_all [] s = s
  process_all (entry ∷ rest) s = process_all rest (process_command E R entry.0 entry.1 s).0

  abbrev IsOwnEntry : SequencerCommand E × E.DateTime → Type 0
  IsOwnEntry entry = IsOwn entry.0

  module _ (id : String) (ack : OrderAck E) where
    -- The acknowledgement `ack` of the order `id` is on record.
    abbrev IsOnRecord : Sequencer E R → Type 0
    IsOnRecord s = find_existing_ack E R id s ≡ some ack

    update-IsOnRecord :
        (found : Option (OrderRecord E)) (other report : String) (expected : OrderState → Bool)
        (change : OrderRecord E → OrderRecord E) (event : EngineEvent E) (s : Sequencer E R)
        → lookup other (R.state s.core).orders ≡ found
        → ((entry : OrderRecord E) → (change entry).client_order_id ≡ entry.client_order_id)
        → IsOnRecord s
        → IsOnRecord (update_order E R found other report expected change event s).0
    unfolding find_existing_ack
    update-IsOnRecord none other report expected change event s e keeps h = h
    update-IsOnRecord (some entry) other report expected change event s e keeps h =
        let state = R.state s.core in
        let state' = record state { orders = insert other (change entry) state.orders } in
        elim (Bool-cases (expected entry.state)) [
          | inl right ↦ ground (
            arith,
            keeps entry,
            L.state-set_state state' s.core,
            lookup-insert other id (change entry) state.orders,
            eq_iff other id,
          )
          | inr wrong ↦ rw wrong h
        ]

    command-IsOnRecord :
        (command : SequencerCommand E) (now : E.DateTime) (s : Sequencer E R)
        → IsOwn command
        → IsOnRecord s
        → IsOnRecord (handle_command E R command now s).0
    unfolding handle_command handle_venue_ack handle_venue_submit_failed handle_venue_cancelled
        find_existing_ack
    command-IsOnRecord (on_venue_ack other text time) now s own h =
        update-IsOnRecord _ other _ _ _ _ s refl (λ entry. refl) h
    command-IsOnRecord (on_venue_submit_failed other text) now s own h =
        update-IsOnRecord _ other _ _ _ _ s refl (λ entry. refl) h
    command-IsOnRecord (on_venue_cancelled other text time) now s own h =
        update-IsOnRecord _ other _ _ _ _ s refl (λ entry. refl) h
    command-IsOnRecord (submit_signal signal respond) now s own h = h
    command-IsOnRecord (snapshot respond) now s own h = h
    command-IsOnRecord (shutdown respond) now s own h = h
    command-IsOnRecord (submit_order order respond) now s own h = elim own [ ]
    command-IsOnRecord (on_fill fill) now s own h = elim own [ ]
    command-IsOnRecord (on_reconciliation report) now s own h = elim own [ ]
    command-IsOnRecord mark_to_market now s own h = elim own [ ]
    command-IsOnRecord (adjust_limits agent limits respond) now s own h = elim own [ ]
    command-IsOnRecord (pause_agent agent reason) now s own h = elim own [ ]
    command-IsOnRecord (resume_agent agent) now s own h = elim own [ ]
    command-IsOnRecord (halt_all reason) now s own h = elim own [ ]
    command-IsOnRecord (reset_circuit_breaker breaker) now s own h = elim own [ ]

    -- A commit keeps what is on record, whatever the journal answers.
    commit-IsOnRecord :
        (r : Result (CommandOutcome E)) (sequence_id : ℕ) (now : E.DateTime) (s : Sequencer E R)
        → IsOnRecord s
        → IsOnRecord (commit E R r sequence_id now s).0
          × ((commit E R r sequence_id now s).0.replies ≡ s.replies)
    unfolding find_existing_ack
    commit-IsOnRecord (ok outcome) sequence_id now s h =
        let state' = record (R.state s.core) {
          last_sequence_id = sequence_id;
          last_updated = now;
        } in
        ground (arith, L.state-set_state state' s.core)
    commit-IsOnRecord (err e) sequence_id now s h = (h, refl)
    commit-IsOnRecord (panic text) sequence_id now s h = (h, refl)

    process-IsOnRecord :
        (command : SequencerCommand E) (now : E.DateTime) (s : Sequencer E R)
        → IsOwn command
        → IsOnRecord s
        → IsOnRecord (process_command E R command now s).0
    unfolding process_command find_existing_ack
    process-IsOnRecord command now s own h =
        let numbered = next_id E R s in
        let handled = handle_command E R command now numbered.1 in
        (commit-IsOnRecord handled.1 numbered.0 now handled.0
          (command-IsOnRecord command now numbered.1 own h)).0

    process_all-IsOnRecord :
        (between : List (SequencerCommand E × E.DateTime)) (s : Sequencer E R)
        → All IsOwnEntry between
        → IsOnRecord s
        → IsOnRecord (process_all between s)
    process_all-IsOnRecord [] s own h = h
    process_all-IsOnRecord (entry ∷ rest) s own h =
        process_all-IsOnRecord rest (process_command E R entry.0 entry.1 s).0 own.1
          (process-IsOnRecord entry.0 entry.1 s own.0 h)

  repeated :
      (again : PipelineOrder E (Validated E)) (ack : OrderAck E) (respond : ℕ) (later : E.DateTime)
      (s : Sequencer E R)
      → find_existing_ack E R again.core.id s ≡ some ack
      → process_command E R (submit_order again respond) later s
        ≡ (answer E R respond (order_reply (ok ack)) (next_id E R s).1, ok none)
  unfolding process_command handle_command handle_submit_order find_existing_ack
  repeated again ack respond later s found = rw found refl

  -- An order that was recorded and answered by `process_command`, whether or not the journal took
  -- the commit, is submitted again, at any time and answered on any channel. In between, the
  -- sequencer may process any commands that it handles without the core: the three reports of a
  -- venue on any orders, refused signals, snapshot requests and shutdowns. The second submission
  -- is answered with the acknowledgement of the first. Apart from this answer it only uses up a
  -- sequence number: nothing is committed, and the order is not evaluated or sent again.
  pub resubmit_lem :
      (order again : PipelineOrder E (Validated E)) (respond respond' : ℕ) (now later : E.DateTime)
      (s : Sequencer E R) (outcome : CommandOutcome E)
      (between : List (SequencerCommand E × E.DateTime))
      → (handle_submit_order E R order respond now (next_id E R s).1).1 ≡ ok outcome
      → outcome.state_mutated ≡ true
      → All IsOwnEntry between
      → again.core.id ≡ order.core.id
      → let s1 = (process_command E R (submit_order order respond) now s).0 in
        let s2 = process_all between s1 in
        let ack = acknowledge E R order (client_id E R L order respond now (next_id E R s).1) now in
        (s1.replies ≡ (respond, order_reply (ok ack)) ∷ s.replies)
        × (process_command E R (submit_order again respond') later s2
            ≡ (answer E R respond' (order_reply (ok ack)) (next_id E R s2).1, ok none))
  unfolding process_command handle_command
  resubmit_lem order again respond respond' now later s outcome between e changed own same =
      let numbered = (next_id E R s).1 in
      let handled = handle_submit_order E R order respond now numbered in
      let ack = acknowledge E R order (client_id E R L order respond now numbered) now in
      let (found, answered) =
        submit_acknowledges E R L order respond now numbered outcome e changed in
      let (kept, replies) =
        commit-IsOnRecord order.core.id ack handled.1 s.next_sequence now handled.0 found in
      let s1 = (process_command E R (submit_order order respond) now s).0 in
      let on_record = process_all-IsOnRecord order.core.id ack between s1 own kept in
      (
        replies ∙ answered,
        repeated again ack respond' later (process_all between s1) (rw same on_record),
      )
