-- ===== src/Gateway/Place.antt =====
-- crates/gateway/src/lib.rs: `PaperAdapter::submit_order`. The adapter is returned with the result,
-- because a submission that fails may have written before.
use feynman_engine.Prelude.{
  Bool, true, false, not, ◌&&◌, Option, none, some, String, [], ◌∷◌, lookup, insert, str_eq,
  if◌then◌else◌,
}
use feynman_engine.Prelude.Text.{◌++◌}
use feynman_engine.Externs.{Externs}
use feynman_engine.Types.Order.{
  OrderType, market, limit, TimeInForce, gtc, ioc, fok, gtd, show_type, show_tif,
}
use feynman_engine.Types.Venue.{is_submittable, debug_state}
use feynman_engine.Types.Market.{OrderbookSnapshot}
use feynman_engine.Gateway.Errors.{
  Result, ok, err, ◌>>=◌, require, validation, unsupported, venue_rejected, venue_not_connected,
  price_unavailable,
}
use feynman_engine.Gateway.Simulator.{
  FillSimulationOutcome, resting, executed, SimulatedFill, is_complete,
}
use feynman_engine.Gateway.Submission.{
  OrderSubmission, VenueOrderAck, PostAckActions, no_actions, order_core_from_submission,
}
use feynman_engine.Gateway.Paper.{PaperAdapter, PaperAdapterState, PaperOpenOrder, add}

module _ (E : Externs) where
  open E use {zero_dec}

  abbrev is_supported : OrderType → Bool
  is_supported market = true
  is_supported limit = true
  is_supported _ = false

  abbrev has_expiry : TimeInForce E → Bool
  has_expiry (gtd _) = true
  has_expiry _ = false

  abbrev pub is_limit : OrderType → Bool
  is_limit limit = true
  is_limit _ = false

  abbrev is_none : Option E.Decimal → Bool
  is_none none = true
  is_none (some _) = false

  unfoldable pub validate_submission : PaperAdapter E → OrderSubmission E → Result Unit
  validate_submission a s = do
    venue ← require (str_eq s.venue_id a.venue_id) (
        validation
          ("paper adapter " ++ (a.venue_id ++ (" cannot accept order for venue " ++ s.venue_id))))
    type ←
        require (is_supported s.order_type)
          (unsupported ("paper adapter does not support order type " ++ show_type s.order_type))
    expiry ←
        require (not (has_expiry s.time_in_force))
          (unsupported "paper adapter does not support GTD expiry handling yet")
    require (not (is_limit s.order_type && is_none s.price))
        (validation "limit order missing price")

  -- What is checked before the cache is read.
  unfoldable pub check_submission : PaperAdapter E → OrderSubmission E → Result Unit
  unfolding validate_submission
  check_submission a s = do
    submittable ←
        require (is_submittable E a.connection_health)
          (venue_not_connected a.venue_id (debug_state E a.connection_health.state))
    validate_submission a s

  abbrev pub paper_id : OrderSubmission E → String
  paper_id s = "paper-" ++ s.client_order_id

  abbrev pub ack_of : OrderSubmission E → OrderbookSnapshot E → VenueOrderAck E
  ack_of s book = record {
    venue_order_id = paper_id s;
    client_order_id = s.client_order_id;
    accepted_at = book.received_at;
  }

  abbrev pub open_order : OrderSubmission E → OrderbookSnapshot E → E.Decimal → PaperOpenOrder E
  open_order s book filled_qty = record {
    submission = s;
    venue_order_id = paper_id s;
    accepted_at = book.received_at;
    filled_qty = filled_qty;
  }

  -- The writes: the acknowledgement, an open order, and the actions that follow.
  abbrev pub acknowledge :
      OrderSubmission E → OrderbookSnapshot E → PaperAdapterState E → PaperAdapterState E
  acknowledge s book state = record state {
    idempotency_cache = insert s.client_order_id (ack_of s book) state.idempotency_cache;
    acknowledged_orders = add E (paper_id s) state.acknowledged_orders;
  }

  abbrev pub open_with :
      OrderSubmission E
      → OrderbookSnapshot E
      → E.Decimal
      → PaperAdapterState E
      → PaperAdapterState E
  open_with s book filled_qty state = record state {
    open_orders = insert (paper_id s) (open_order s book filled_qty) state.open_orders;
  }

  abbrev pub act : OrderSubmission E → PostAckActions E → PaperAdapterState E → PaperAdapterState E
  act s actions state = record state {
    post_ack_actions = insert (paper_id s) actions state.post_ack_actions;
  }

  abbrev write : PaperAdapter E → PaperAdapterState E → PaperAdapter E
  write a state = record a { state = state }

  -- An order without an immediate fill: the acknowledgement is written in every case.
  abbrev pub place_resting :
      TimeInForce E
      → PaperAdapter E
      → OrderSubmission E
      → OrderbookSnapshot E
      → PaperAdapter E × Result (VenueOrderAck E)
  place_resting gtc a s book = (
    write a (act s (no_actions E) (open_with s book zero_dec (acknowledge s book a.state))),
    ok (ack_of s book),
  )
  place_resting ioc a s book =
      let actions : PostAckActions E = record {
        fills = [];
        cancellation_reason = some "IOC order received no immediate fill on paper adapter";
      } in
      (write a (act s actions (acknowledge s book a.state)), ok (ack_of s book))
  place_resting fok a s book = (
    write a (acknowledge s book a.state),
    err (venue_rejected "FOK order could not be fully filled on paper adapter"),
  )
  place_resting (gtd _) a s book = (
    write a (acknowledge s book a.state),
    err (unsupported "paper adapter does not support GTD expiry handling yet"),
  )

  abbrev pub fill_actions : OrderSubmission E → SimulatedFill E → Option String → PostAckActions E
  fill_actions s f reason = record {
    fills = (record { client_order_id = s.client_order_id; fill = f.fill }) ∷ [];
    cancellation_reason = reason;
  }

  abbrev unsupported_partial : OrderSubmission E → SimulatedFill E → Result (VenueOrderAck E)
  unsupported_partial s f = err (
      venue_rejected (
        "paper adapter only supports partial execution for GTC limit or IOC orders; "
        ++ (show_type s.order_type
            ++ (" "
                ++ (show_tif E s.time_in_force
                    ++ (" left " ++ (E.display f.remaining_qty ++ " unfilled")))))))

  -- An order with a fill that is not complete.
  abbrev pub place_partial :
      TimeInForce E
      → PaperAdapter E
      → OrderSubmission E
      → OrderbookSnapshot E
      → SimulatedFill E
      → PaperAdapter E × Result (VenueOrderAck E)
  place_partial gtc a s book f =
      if is_limit s.order_type
      then (
        write a (
            act s (fill_actions s f none)
              (open_with s book f.fill.qty (acknowledge s book a.state))),
        ok (ack_of s book),
      )
      else (a, unsupported_partial s f)
  place_partial ioc a s book f =
      let reason : String = "IOC residual quantity cancelled on paper adapter" in
      (
        write a (act s (fill_actions s f (some reason)) (acknowledge s book a.state)),
        ok (ack_of s book),
      )
  place_partial fok a s book f =
      (a, err (venue_rejected "FOK order could not be fully filled on paper adapter"))
  place_partial (gtd _) a s book f = (a, unsupported_partial s f)

  abbrev pub place :
      FillSimulationOutcome E
      → PaperAdapter E
      → OrderSubmission E
      → OrderbookSnapshot E
      → PaperAdapter E × Result (VenueOrderAck E)
  place resting a s book = place_resting s.time_in_force a s book
  place (executed f) a s book =
      if is_complete E f
      then (
        write a (act s (fill_actions s f none) (acknowledge s book a.state)),
        ok (ack_of s book),
      )
      else place_partial s.time_in_force a s book f

  abbrev pub is_executed : FillSimulationOutcome E → Bool
  is_executed resting = false
  is_executed (executed _) = true

  abbrev pub simulated :
      Result (FillSimulationOutcome E)
      → PaperAdapter E
      → OrderSubmission E
      → OrderbookSnapshot E
      → PaperAdapter E × Result (VenueOrderAck E)
  simulated (err e) a s book = (a, err e)
  simulated (ok outcome) a s book =
      if s.post_only && is_executed outcome
      then (a, err (venue_rejected "post-only order would take liquidity on paper adapter"))
      else place outcome a s book

  -- What the simulator says of a submission against a book.
  abbrev pub outcome_of :
      PaperAdapter E → OrderSubmission E → OrderbookSnapshot E → Result (FillSimulationOutcome E)
  outcome_of a s book =
      a.simulator (order_core_from_submission E s book.received_at s.qty) (paper_id s) book

  abbrev pub with_book :
      Option (OrderbookSnapshot E)
      → PaperAdapter E
      → OrderSubmission E
      → PaperAdapter E × Result (VenueOrderAck E)
  with_book none a s = (a, err (price_unavailable s.instrument_id))
  with_book (some book) a s = simulated (outcome_of a s book) a s book

  abbrev pub unless_cached :
      Option (VenueOrderAck E)
      → PaperAdapter E
      → OrderSubmission E
      → PaperAdapter E × Result (VenueOrderAck E)
  unless_cached (some ack) a s = (a, ok ack)
  unless_cached none a s = with_book (lookup s.market_id a.state.orderbooks) a s

  abbrev pub when_checked :
      Result Unit → PaperAdapter E → OrderSubmission E → PaperAdapter E × Result (VenueOrderAck E)
  when_checked (err e) a s = (a, err e)
  when_checked (ok u) a s = unless_cached (lookup s.client_order_id a.state.idempotency_cache) a s

  unfoldable pub submit_order :
      PaperAdapter E → OrderSubmission E → PaperAdapter E × Result (VenueOrderAck E)
  unfolding order_core_from_submission
  submit_order a s = when_checked (check_submission a s) a s
