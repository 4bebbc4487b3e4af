-- ===== src/Gateway/Simulator.antt =====
-- crates/gateway/src/lib.rs: `LiveOrderbookFillSimulator`, which walks the depth of an order book.
use feynman_engine.Prelude.{
  Bool, true, false, Option, none, some, String, List, [], ◌∷◌, str_eq, if◌then◌else◌,
}
use feynman_engine.Prelude.Text.{◌++◌}
use feynman_engine.Prelude.Int.{pos}
use feynman_engine.Externs.{Externs, le, is_zero}
use feynman_engine.Types.Order.{Side, buy, sell, OrderType, market, limit, OrderCore, show_type}
use feynman_engine.Types.Market.{
  PriceLevel, OrderbookSnapshot, Validity, valid, invalid, validate, show_market_error, first,
}
use feynman_engine.Types.Fees.{FeeResult, fee, no_fee, show_fee_error}
use feynman_engine.Lifecycle.State.{Fill}
use feynman_engine.Gateway.Errors.{
  Result, ok, err, ◌>>=◌, require, validation, unsupported, price_unavailable,
}

pub record SimulatedFill (E : Externs) : Type 0 where
  pub fill : Fill E
  pub remaining_qty : E.Decimal
  pub slippage_bps : E.Decimal
  pub market_impact_bps : E.Decimal

pub data FillSimulationOutcome (E : Externs) : Type 0 where
  resting : FillSimulationOutcome E
  executed : SimulatedFill E → FillSimulationOutcome E

-- The mutable variables of the walk.
pub record Walk (E : Externs) : Type 0 where
  pub remaining_qty : E.Decimal
  pub executed_qty : E.Decimal
  pub executed_notional : E.Decimal
  pub worst_price : Option E.Decimal

module _ (E : Externs) where
  open E use {Decimal, zero_dec, add, sub, mul, div, abs, lt}

  abbrev pub is_complete : SimulatedFill E → Bool
  is_complete f = is_zero E f.remaining_qty

  unfoldable pub is_level_fillable : Side → Option Decimal → Decimal → Bool
  is_level_fillable side none price = true
  is_level_fillable buy (some bound) price = le E price bound
  is_level_fillable sell (some bound) price = le E bound price

  unfoldable pub basis_points_delta : Decimal → Decimal → Decimal
  basis_points_delta actual reference =
      if is_zero E reference
      then zero_dec
      else mul (div (abs (sub actual reference)) reference) (E.literal (pos 10000) 0)

  abbrev pub level_fill_qty : Walk E → PriceLevel E → Decimal
  level_fill_qty w level = if lt w.remaining_qty level.qty then w.remaining_qty else level.qty

  -- One level taken, before the test that ends the walk.
  abbrev pub take_level : Walk E → PriceLevel E → Walk E
  take_level w level =
      let taken = level_fill_qty w level in
      record {
        remaining_qty = sub w.remaining_qty taken;
        executed_qty = add w.executed_qty taken;
        executed_notional = add w.executed_notional (mul taken level.price);
        worst_price = some level.price;
      }

  -- `for level in levels`
  unfoldable pub walk : Side → Option Decimal → List (PriceLevel E) → Walk E → Walk E
  walk side bound [] w = w
  walk side bound (level ∷ levels) w =
      let taken = take_level w level in
      let rest = walk side bound levels taken in
      if is_level_fillable side bound level.price
      then (if le E taken.remaining_qty zero_dec
          then record taken { remaining_qty = zero_dec }
          else rest)
      else w

  -- The levels that the order takes from.
  abbrev pub opposite : Side → OrderbookSnapshot E → List (PriceLevel E)
  opposite buy book = book.asks
  opposite sell book = book.bids

  abbrev pub start : OrderCore E → Walk E
  start order = record {
    remaining_qty = order.qty;
    executed_qty = zero_dec;
    executed_notional = zero_dec;
    worst_price = none;
  }

  abbrev require_limit : Option Decimal → Result (Option Decimal)
  require_limit none = err (validation "limit order missing price")
  require_limit (some price) = ok (some price)

  unfoldable pub price_limit : OrderType → Option Decimal → Result (Option Decimal)
  price_limit market price = ok none
  price_limit limit price = require_limit price
  price_limit other price = err (
      unsupported ("paper adapter only simulates market and limit orders, got " ++ show_type other))

  unfoldable pub top_of_book : Option (PriceLevel E) → String → Result Decimal
  top_of_book none instrument = err (price_unavailable instrument)
  top_of_book (some level) instrument = ok level.price

  abbrev or_price : Option Decimal → Decimal → Decimal
  or_price none price = price
  or_price (some worst) price = worst

  abbrev with_fee : FeeResult E → Fill E → Result (Fill E)
  with_fee (fee f) fill = ok (record fill { fee = f.net })
  with_fee (no_fee e) fill = err (validation (show_fee_error e))

  -- What follows the walk.
  abbrev pub settle :
      (Fill E → FeeResult E)
      → OrderCore E
      → String
      → OrderbookSnapshot E
      → Decimal
      → Walk E
      → Result (FillSimulationOutcome E)
  settle calculate order venue_order_id book top w =
      let average_price = div w.executed_notional w.executed_qty in
      let unpriced : Fill E = record {
        order_id = order.id;
        venue_order_id = venue_order_id;
        instrument_id = order.instrument_id;
        side = order.side;
        qty = w.executed_qty;
        price = average_price;
        fee = zero_dec;
        filled_at = book.received_at;
        is_maker = false;
      } in
      if is_zero E w.executed_qty then ok resting else (do
        fill ← with_fee (calculate unpriced) unpriced
        ok (
            executed (record {
              fill = fill;
              remaining_qty = w.remaining_qty;
              slippage_bps = basis_points_delta average_price top;
              market_impact_bps = basis_points_delta (or_price w.worst_price top) top;
            })))

  abbrev check_book : Validity E → Result Unit
  check_book valid = ok tt
  check_book (invalid e) = err (validation (show_market_error E e))

  -- The checks in front of the walk.
  unfoldable pub check_order : OrderCore E → OrderbookSnapshot E → Result Unit
  check_order order book = do
    positive ← require (lt zero_dec order.qty) (validation "order quantity must be positive")
    venue ← require (str_eq order.venue_id book.venue_id) (
        validation (
          "order venue "
          ++ (order.venue_id ++ (" does not match orderbook venue " ++ book.venue_id))))
    instrument ← require (str_eq order.instrument_id book.instrument_id) (
        validation (
          "order instrument "
          ++ (order.instrument_id
              ++ (" does not match orderbook instrument " ++ book.instrument_id))))
    check_book (validate E book)

  unfoldable pub simulate :
      (Fill E → FeeResult E)
      → OrderCore E
      → String
      → OrderbookSnapshot E
      → Result (FillSimulationOutcome E)
  unfolding check_order price_limit top_of_book
  simulate calculate order venue_order_id book = do
    checked ← check_order order book
    bound ← price_limit order.order_type order.price
    top ← top_of_book (first E (opposite order.side book)) order.instrument_id
    settle calculate order venue_order_id book top
        (walk order.side bound (opposite order.side book) (start order))
