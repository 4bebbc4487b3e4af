-- ===== src/Gateway/Actions.antt =====
-- crates/gateway/src/lib.rs: the actions that `PaperAdapter::submit_order` leaves for
-- `take_post_ack_actions`.
use feynman_engine.Prelude.{
  ◌≡◌, refl, subst, true, Option, none, some, String, [], ◌∷◌, map, lookup, lookup-insert_self,
  remove, lookup-remove, eq_iff, ◌&&◌, if◌then◌else◌, arith, Bool-cases, inl, inr,
}
use feynman_engine.Externs.{Externs, ExactArithmetic}
use feynman_engine.Types.Order.{TimeInForce, ioc}
use feynman_engine.Types.Market.{OrderbookSnapshot}
use feynman_engine.Gateway.Errors.{Result, ok, err}
use feynman_engine.Gateway.Simulator.{FillSimulationOutcome, resting, executed, is_complete}
use feynman_engine.Gateway.Submission.{OrderSubmission, PostAckActions, VenueOrderAck, no_actions}
use feynman_engine.Gateway.Paper.{PaperAdapter, contains, take_post_ack_actions, broadcast_of}
use feynman_engine.Gateway.Place.{
  submit_order, check_submission, paper_id, place, simulated, with_book, when_checked, outcome_of,
  is_executed,
}
use feynman_engine.Gateway.Ledger.{contains-add}
use feynman_engine.Gateway.Calls.{broadcast_all-state}

module _ (E : Externs) where
  -- An immediate-or-cancel order is cancelled for what is not filled.
  abbrev pub ioc_reason : TimeInForce E → String → Option String
  ioc_reason ioc text = some text
  ioc_reason _ text = none

  -- What follows the acknowledgement of a submission, by what the simulator said of it.
  abbrev pub actions_of : OrderSubmission E → FillSimulationOutcome E → PostAckActions E
  actions_of s resting = record {
    fills = [];
    cancellation_reason =
        ioc_reason s.time_in_force "IOC order received no immediate fill on paper adapter";
  }
  actions_of s (executed f) = record {
    fills = (record { client_order_id = s.client_order_id; fill = f.fill }) ∷ [];
    cancellation_reason =
        if is_complete E f
        then none
        else ioc_reason s.time_in_force "IOC residual quantity cancelled on paper adapter";
  }

  module _ (X : ExactArithmetic E) where
    -- An order that was acknowledged is known, and the actions are kept under its identifier.
    abbrev HasActions : PostAckActions E → PaperAdapter E × Result (VenueOrderAck E) → Type 0
    HasActions actions (a, ok ack) =
        (lookup ack.venue_order_id a.state.post_ack_actions ≡ some actions)
        × (contains E ack.venue_order_id a.state.acknowledged_orders ≡ true)
    HasActions actions (a, err e) = Unit

    place-HasActions :
        (outcome : FillSimulationOutcome E) (a : PaperAdapter E) (s : OrderSubmission E)
        (book : OrderbookSnapshot E)
        → HasActions (actions_of s outcome) (place E outcome a s book)
    place-HasActions outcome a s book =
        let id = paper_id E s in
        let known = contains-add E X id id a.state.acknowledged_orders in
        let kept = lookup-insert_self id (actions_of s outcome) a.state.post_ack_actions in
        ground (arith, known, kept, eq_iff id id)

    abbrev Follows :
        PaperAdapter E → OrderSubmission E → PaperAdapter E × Result (VenueOrderAck E) → Type 0
    Follows a s (a', err e) = Unit
    Follows a s (a', ok ack) =
        (book : OrderbookSnapshot E) × (outcome : FillSimulationOutcome E) × (lookup s.market_id
            a.state.orderbooks
          ≡ some book)
        × (outcome_of E a s book ≡ ok outcome)
        × HasActions (actions_of s outcome) (a', ok ack)

    follows :
        (a : PaperAdapter E) (s : OrderSubmission E) (book : OrderbookSnapshot E)
        (outcome : FillSimulationOutcome E) (out : PaperAdapter E × Result (VenueOrderAck E))
        → lookup s.market_id a.state.orderbooks ≡ some book
        → outcome_of E a s book ≡ ok outcome
        → HasActions (actions_of s outcome) out
        → Follows a s out
    follows a s book outcome (a', ok ack) booked simulates kept =
        (book, outcome, booked, simulates, kept)
    follows a s book outcome (a', err e) booked simulates kept = tt

    simulated-Follows :
        (r : Result (FillSimulationOutcome E)) (a : PaperAdapter E) (s : OrderSubmission E)
        (book : OrderbookSnapshot E)
        → lookup s.market_id a.state.orderbooks ≡ some book
        → outcome_of E a s book ≡ r
        → Follows a s (simulated E r a s book)
    simulated-Follows (err e) a s book booked h = tt
    simulated-Follows (ok outcome) a s book booked h =
        let placed =
          follows a s book outcome (place E outcome a s book) booked h
            (place-HasActions outcome a s book) in
        elim (Bool-cases (s.post_only && is_executed E outcome)) [
          | inl takes ↦ rw takes tt
          | inr fits ↦ rw fits placed
        ]

    with_book-Follows :
        (found : Option (OrderbookSnapshot E)) (a : PaperAdapter E) (s : OrderSubmission E)
        → lookup s.market_id a.state.orderbooks ≡ found
        → Follows a s (with_book E found a s)
    with_book-Follows none a s booked = tt
    with_book-Follows (some book) a s booked =
        simulated-Follows (outcome_of E a s book) a s book booked refl

    checked-Follows :
        (r : Result Unit) (a : PaperAdapter E) (s : OrderSubmission E)
        → lookup s.client_order_id a.state.idempotency_cache ≡ none
        → Follows a s (when_checked E r a s)
    checked-Follows (err e) a s fresh = tt
    checked-Follows (ok u) a s fresh =
        rw fresh (with_book-Follows (lookup s.market_id a.state.orderbooks) a s refl)

    submit-Follows :
        (a : PaperAdapter E) (s : OrderSubmission E)
        → lookup s.client_order_id a.state.idempotency_cache ≡ none
        → Follows a s (submit_order E a s)
    unfolding submit_order
    submit-Follows a s fresh = checked-Follows (check_submission E a s) a s fresh

    taken_once :
        (a : PaperAdapter E) (id : String) (actions : PostAckActions E)
        → lookup id a.state.post_ack_actions ≡ some actions
        → contains E id a.state.acknowledged_orders ≡ true
        → let taken = take_post_ack_actions E a id in
          (taken.1 ≡ ok actions) × ((take_post_ack_actions E taken.0 id).1 ≡ ok (no_actions E))
    unfolding take_post_ack_actions
    taken_once a id actions found known =
        let state = record a.state { post_ack_actions = remove id a.state.post_ack_actions } in
        let left =
          broadcast_all-state E (record a { state = state }) (map (broadcast_of E) actions.fills) in
        let gone = lookup-remove id id a.state.post_ack_actions in
        ground (arith, found, left, gone, eq_iff id id)

    -- A submission under a new client order identifier, which the adapter acknowledges, was
    -- simulated on the book of its market. The actions that can then be taken for it are the fill
    -- that the simulator gave, if it gave one, and a cancellation exactly for an
    -- immediate-or-cancel order that was not filled whole. They can be taken once: the second time
    -- there are none.
    pub acknowledged_takes :
        (a : PaperAdapter E) (s : OrderSubmission E) (ack : VenueOrderAck E)
        → lookup s.client_order_id a.state.idempotency_cache ≡ none
        → (submit_order E a s).1 ≡ ok ack
        → let taken = take_post_ack_actions E (submit_order E a s).0 ack.venue_order_id in
          (book : OrderbookSnapshot E) × (outcome : FillSimulationOutcome E) × (lookup s.market_id
              a.state.orderbooks
            ≡ some book)
          × (outcome_of E a s book ≡ ok outcome)
          × (taken.1 ≡ ok (actions_of s outcome))
          × ((take_post_ack_actions E taken.0 ack.venue_order_id).1 ≡ ok (no_actions E))
    acknowledged_takes a s ack fresh h =
        let out = submit_order E a s in
        let (book, outcome, booked, simulates, kept) =
          subst (λ r. Follows a s (out.0, r)) h (submit-Follows a s fresh) in
        let (first, second) =
          taken_once out.0 ack.venue_order_id (actions_of s outcome) kept.0 kept.1 in
        (book, outcome, booked, simulates, first, second)
