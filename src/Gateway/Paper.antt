-- ===== src/Gateway/Paper.antt =====
-- crates/gateway/src/lib.rs: the state of `PaperAdapter`, and its methods but those that submit an
-- order or take a new order book. A method runs by itself: calls that interleave at an `.await` are
-- not modelled. The entries of a map are visited in the order of its list.
use feynman_engine.Prelude.{
  Bool, true, false, Option, none, some, String, List, [], ◌∷◌, ◌++◌, map, any, Map, lookup, remove,
  str_eq, if◌then◌else◌,
}
use feynman_engine.Externs.{Externs, is_zero}
use feynman_engine.Types.Order.{OrderCore}
use feynman_engine.Types.Venue.{VenueConnectionHealth, connected, disconnected, new}
use feynman_engine.Types.Market.{OrderbookSnapshot}
use feynman_engine.Lifecycle.State.{OrderState, Fill}
use feynman_engine.Gateway.Errors.{Result, ok, err, order_not_found, unsupported}
use feynman_engine.Gateway.Simulator.{FillSimulationOutcome}
use feynman_engine.Gateway.Submission.{
  OrderSubmission, VenueOrderAck, VenueFill, VenueOpenOrder, VenuePosition, VenueBalance,
  VenueCapabilities, PostAckFill, PostAckActions, no_actions,
}

pub record PaperOpenOrder (E : Externs) : Type 0 where
  pub submission : OrderSubmission E
  pub venue_order_id : String
  pub accepted_at : E.DateTime
  pub filled_qty : E.Decimal

pub record PaperAdapterState (E : Externs) : Type 0 where
  pub acknowledged_orders : List String
  pub orderbooks : Map (OrderbookSnapshot E)
  pub open_orders : Map (PaperOpenOrder E)
  pub idempotency_cache : Map (VenueOrderAck E)
  pub post_ack_actions : Map (PostAckActions E)

-- The receiving end of a fill channel: what was sent to it, and whether it was dropped.
pub record Subscriber (E : Externs) : Type 0 where
  pub received : List (VenueFill E)
  pub closed : Bool

-- The fill simulator with its fee model, as the adapter calls them.
abbrev pub Simulator : Externs → Type 0
Simulator E = OrderCore E → String → OrderbookSnapshot E → Result (FillSimulationOutcome E)

pub record PaperAdapter (E : Externs) : Type 0 where
  pub venue_id : String
  pub connection_health : VenueConnectionHealth E
  pub simulator : Simulator E
  pub state : PaperAdapterState E
  pub fill_subscribers : List (Subscriber E)

module _ (E : Externs) where
  open E use {Decimal, sub, DateTime}

  unfoldable pub remaining_qty : PaperOpenOrder E → Decimal
  remaining_qty o = sub o.submission.qty o.filled_qty

  unfoldable pub as_open_order : PaperOpenOrder E → VenueOpenOrder E
  as_open_order o = record {
    venue_order_id = o.venue_order_id;
    client_order_id = some o.submission.client_order_id;
    instrument_id = o.submission.instrument_id;
    side = o.submission.side;
    qty = o.submission.qty;
    filled_qty = o.filled_qty;
    price = o.submission.price;
    state = if is_zero E o.filled_qty then OrderState.accepted else OrderState.partially_filled;
    created_at = o.accepted_at;
  }

  -- `HashSet::contains` and `HashSet::insert`
  abbrev pub contains : String → List String → Bool
  contains id = any (λ known. str_eq known id)

  abbrev pub add : String → List String → List String
  add id ids = if contains id ids then ids else id ∷ ids

  -- `broadcast_fill`: a channel that was dropped takes nothing and is forgotten.
  abbrev deliver : VenueFill E → Subscriber E → Subscriber E
  deliver fill s = if s.closed then s else record s { received = s.received ++ (fill ∷ []) }

  abbrev retain_open : List (Subscriber E) → List (Subscriber E)
  retain_open [] = []
  retain_open (s ∷ rest) = let later = retain_open rest in if s.closed then later else s ∷ later

  unfoldable pub broadcast_fill : PaperAdapter E → VenueFill E → PaperAdapter E
  broadcast_fill a fill = record a {
    fill_subscribers = retain_open (map (deliver fill) a.fill_subscribers);
  }

  abbrev pub broadcast_all : PaperAdapter E → List (VenueFill E) → PaperAdapter E
  broadcast_all a [] = a
  broadcast_all a (fill ∷ fills) = broadcast_all (broadcast_fill a fill) fills

  -- A fill as it is broadcast.
  abbrev pub venue_fill : String → Fill E → VenueFill E
  venue_fill client_order_id fill = record {
    venue_order_id = fill.venue_order_id;
    client_order_id = client_order_id;
    instrument_id = fill.instrument_id;
    side = fill.side;
    qty = fill.qty;
    price = fill.price;
    fee = fill.fee;
    is_maker = fill.is_maker;
    filled_at = fill.filled_at;
  }

  abbrev pub broadcast_of : PostAckFill E → VenueFill E
  broadcast_of queued = venue_fill queued.client_order_id queued.fill

  abbrev pub take_found :
      Option (PostAckActions E)
      → Bool
      → PaperAdapter E
      → String
      → PaperAdapter E × Result (PostAckActions E)
  take_found (some actions) known a id =
      let state = record a.state { post_ack_actions = remove id a.state.post_ack_actions } in
      (broadcast_all (record a { state = state }) (map broadcast_of actions.fills), ok actions)
  take_found none known a id = (a, if known then ok (no_actions E) else err (order_not_found id))

  unfoldable pub take_post_ack_actions :
      PaperAdapter E → String → PaperAdapter E × Result (PostAckActions E)
  unfolding broadcast_fill
  take_post_ack_actions a id =
      take_found (lookup id a.state.post_ack_actions) (contains id a.state.acknowledged_orders) a id

  abbrev cancel_found :
      Option (PaperOpenOrder E) → PaperAdapter E → String → PaperAdapter E × Result Unit
  cancel_found (some o) a id =
      (record a { state = record a.state { open_orders = remove id a.state.open_orders } }, ok tt)
  cancel_found none a id = (a, err (order_not_found id))

  unfoldable pub cancel_order : PaperAdapter E → String → PaperAdapter E × Result Unit
  cancel_order a id = cancel_found (lookup id a.state.open_orders) a id

  unfoldable pub amend_order :
      PaperAdapter E → String → Option Decimal → Option Decimal → Result (VenueOrderAck E)
  amend_order a id new_price new_qty =
      err (unsupported "paper adapter does not support amendments yet")

  unfoldable pub query_positions : PaperAdapter E → Result (List (VenuePosition E))
  query_positions a =
      err (
        unsupported "paper adapter does not own paper positions; query the sequencer state instead")

  unfoldable pub query_balance : PaperAdapter E → Result (VenueBalance E)
  query_balance a = err (unsupported "paper adapter does not model balances yet")

  -- The field `capabilities`, which `PaperAdapter::new` sets.
  unfoldable pub capabilities : PaperAdapter E → VenueCapabilities
  capabilities a = record {
    venue_id = a.venue_id;
    supports_market_orders = true;
    supports_limit_orders = true;
    supports_stop_market = false;
    supports_stop_limit = false;
    supports_trailing_stop = false;
    supports_oco = false;
    supports_amendment = false;
    supports_reduce_only = true;
    supports_post_only = true;
    max_batch_size = some 1;
  }

  unfoldable pub query_open_orders : PaperAdapter E → List (VenueOpenOrder E)
  unfolding as_open_order
  query_open_orders a = map (λ entry. as_open_order entry.1) a.state.open_orders

  unfoldable pub subscribe_fills : PaperAdapter E → PaperAdapter E
  subscribe_fills a = record a {
    fill_subscribers = a.fill_subscribers ++ (record { received = []; closed = false } ∷ []);
  }

  -- `PaperAdapter::new`
  unfoldable pub new_adapter : String → Simulator E → PaperAdapter E
  unfolding new
  new_adapter venue_id simulator = record {
    venue_id = venue_id;
    connection_health = new E venue_id;
    simulator = simulator;
    state = record {
      acknowledged_orders = [];
      orderbooks = [];
      open_orders = [];
      idempotency_cache = [];
      post_ack_actions = [];
    };
    fill_subscribers = [];
  }

  unfoldable pub connect : PaperAdapter E → DateTime → PaperAdapter E
  connect a now = record a {
    connection_health = record a.connection_health {
      state = connected;
      last_message_at = some now;
      last_heartbeat_at = some now;
      connected_since = some now;
    };
  }

  unfoldable pub disconnect : PaperAdapter E → PaperAdapter E
  disconnect a = record a {
    connection_health = record a.connection_health { state = disconnected; connected_since = none };
  }
