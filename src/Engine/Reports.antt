-- ===== src/Engine/Reports.antt =====
-- crates/engine-core/src/sequencer.rs: what the three reports of a venue do to the orders on record.
use feynman_engine.Prelude.{
  ◌≡◌, ◌↔◌, Bool, true, false, Option, none, some, String, str_eq, lookup, insert, lookup-insert,
  arith, ◌⊎◌, if◌then◌else◌, refl,
}
use feynman_engine.Externs.{Externs}
use feynman_engine.Lifecycle.State.{OrderState}
use feynman_engine.Engine.State.{OrderRecord, is_pending}
use feynman_engine.Engine.Events.{
  EngineEvent, Result, is_ok, order_submitted, order_rejected, order_cancelled,
}
use feynman_engine.Engine.Runtime.{Runtime, RuntimeLaws}
use feynman_engine.Engine.Sequencer.{Sequencer, CommandOutcome}
use feynman_engine.Engine.Venue.{
  handle_venue_ack, handle_venue_submit_failed, handle_venue_cancelled, is_cancellable,
  update_order,
}

module _ (E : Externs) (R : Runtime E) (L : RuntimeLaws E R) where
  abbrev pub IsInState : (OrderState → Type 0) → Option (OrderRecord E) → Type 0
  IsInState Expected none = ⊥
  IsInState Expected (some entry) = Expected entry.state

  abbrev pub changed :
      (OrderRecord E → OrderRecord E) → Option (OrderRecord E) → Option (OrderRecord E)
  changed change none = none
  changed change (some entry) = some (change entry)

  -- A report on the order `id` succeeds exactly when the order is on record in an expected state;
  -- it then makes one change to that order's record and none to any other order, and else it changes
  -- nothing at all.
  abbrev pub Reports :
      String
      → (OrderState → Type 0)
      → (OrderRecord E → OrderRecord E)
      → String
      → Sequencer E R
      → Sequencer E R × Result (CommandOutcome E)
      → Type 0
  Reports id Expected change other s (s', r) =
      let entry = lookup id (R.state s.core).orders in
      ((is_ok r ≡ true) ↔ IsInState Expected entry)
      × (is_ok r ≡ false → s' ≡ s)
      × (is_ok r ≡ true
          → lookup other (R.state s'.core).orders ≡ (
              if str_eq id other
              then changed change entry
              else lookup other (R.state s.core).orders))

  after_write :
      (id other : String) (entry : OrderRecord E) (s : Sequencer E R)
      → let state = R.state s.core in
        let state' = record state { orders = insert id entry state.orders } in
        lookup other (R.state (R.set_state state' s.core)).orders
        ≡ (if str_eq id other then some entry else lookup other state.orders)
  after_write id other entry s =
      let state = R.state s.core in
      let state' = record state { orders = insert id entry state.orders } in
      rw (L.state-set_state state' s.core, lookup-insert id other entry state.orders)

  module _ (id report : String) (expected : OrderState → Bool) (Expected : OrderState → Type 0)
      (agree : (state : OrderState) → (expected state ≡ true) ↔ Expected state)
      (change : OrderRecord E → OrderRecord E) (event : EngineEvent E) (other : String)
      (s : Sequencer E R) where
    update-Reports :
        (found : Option (OrderRecord E))
        → lookup id (R.state s.core).orders ≡ found
        → Reports id Expected change other s
            (update_order E R found id report expected change event s)
    update-Reports none e = ground arith
    update-Reports (some entry) e =
        ground (arith, agree entry.state, after_write id other (change entry) s)

  -- What a report of the venue leaves in the record of an order.
  abbrev pub taken_as : String → E.DateTime → OrderRecord E → OrderRecord E
  taken_as venue_order_id time entry = record entry {
    state = OrderState.submitted;
    venue_order_id = some venue_order_id;
    last_updated = time;
  }

  abbrev pub ended_as : OrderState → E.DateTime → OrderRecord E → OrderRecord E
  ended_as state time entry = record entry { state = state; last_updated = time }

  abbrev pub IsWaiting : OrderState → Type 0
  IsWaiting state = state ≡ OrderState.pending

  abbrev pub IsLiving : OrderState → Type 0
  IsLiving state = (state ≡ OrderState.submitted) ⊎ (state ≡ OrderState.partially_filled)

  is_pending_iff : (state : OrderState) → (is_pending state ≡ true) ↔ IsWaiting state
  unfolding is_pending
  is_pending_iff state = ground arith

  is_cancellable_iff : (state : OrderState) → (is_cancellable state ≡ true) ↔ IsLiving state
  unfolding is_cancellable
  is_cancellable_iff state = ground arith

  -- The reports of a venue on an order (`handle_venue_ack`, `handle_venue_submit_failed`,
  -- `handle_venue_cancelled`) succeed exactly when the order is on record as pending, pending, and
  -- submitted or partially filled, respectively. They then set that order's state to submitted and its
  -- venue order identifier to the reported one, its state to rejected, or its state to cancelled; they
  -- set its time of update and no other field of it, and change no other order. Any other report fails and
  -- changes nothing.
  pub venue_reports_lem :
      (s : Sequencer E R) (id text other : String) (time : E.DateTime)
      → Reports id IsWaiting (taken_as text time) other s (handle_venue_ack E R id text time s)
        × Reports id IsWaiting
            (ended_as OrderState.rejected time)
            other
            s
            (handle_venue_submit_failed E R id text time s)
        × Reports id IsLiving
            (ended_as OrderState.cancelled time)
            other
            s
            (handle_venue_cancelled E R id text time s)
  unfolding handle_venue_ack handle_venue_submit_failed handle_venue_cancelled
  venue_reports_lem s id text other time =
      let entry = lookup id (R.state s.core).orders in
      (
        update-Reports id "venue ack" is_pending IsWaiting is_pending_iff (taken_as text time)
            (order_submitted id text) other s entry refl,
        update-Reports id "venue submit failed" is_pending IsWaiting is_pending_iff
            (ended_as OrderState.rejected time) (order_rejected id "venue_submit" text) other s
            entry refl,
        update-Reports id "venue cancel" is_cancellable IsLiving is_cancellable_iff
            (ended_as OrderState.cancelled time) (order_cancelled id text) other s entry refl,
      )
