-- ===== src/Gateway/Reprice.antt =====
-- crates/gateway/src/lib.rs: `PaperAdapter::replace_orderbook` and `collect_repriced_fills`.
use feynman_engine.Prelude.{
  Option, none, some, String, List, [], ◌∷◌, ◌++◌, Map, lookup, insert, remove, str_eq,
  if◌then◌else◌,
}
use feynman_engine.Prelude.Text.{◌++◌ as append}
use feynman_engine.Externs.{Externs, le}
use feynman_engine.Types.Market.{
  OrderbookSnapshot, Validity, valid, invalid, validate, show_market_error,
}
use feynman_engine.Gateway.Errors.{Result, ok, err, validation}
use feynman_engine.Gateway.Simulator.{
  FillSimulationOutcome, resting, executed, SimulatedFill, is_complete,
}
use feynman_engine.Gateway.Submission.{VenueFill, order_core_from_submission}
use feynman_engine.Gateway.Paper.{
  PaperAdapter, PaperOpenOrder, Simulator, remaining_qty, broadcast_all,
}

module _ (E : Externs) where
  open E use {zero_dec, add}

  -- The identifiers of the open orders in a market.
  abbrev pub orders_in : String → Map (PaperOpenOrder E) → List String
  orders_in market [] = []
  orders_in market (entry ∷ rest) =
      let later = orders_in market rest in
      if str_eq entry.1.submission.market_id market then entry.0 ∷ later else later

  abbrev pub fill_of : String → PaperOpenOrder E → SimulatedFill E → VenueFill E
  fill_of id existing f = record {
    venue_order_id = id;
    client_order_id = existing.submission.client_order_id;
    instrument_id = f.fill.instrument_id;
    side = f.fill.side;
    qty = f.fill.qty;
    price = f.fill.price;
    fee = f.fill.fee;
    is_maker = f.fill.is_maker;
    filled_at = f.fill.filled_at;
  }

  -- An open order after a fill: gone, or with more of it filled.
  abbrev pub after_fill :
      String → PaperOpenOrder E → SimulatedFill E → Map (PaperOpenOrder E) → Map (PaperOpenOrder E)
  after_fill id existing f orders =
      if is_complete E f
      then remove id orders
      else insert id (record existing { filled_qty = add existing.filled_qty f.fill.qty }) orders

  abbrev pub repriced :
      Result (FillSimulationOutcome E)
      → String
      → PaperOpenOrder E
      → Map (PaperOpenOrder E)
      → Map (PaperOpenOrder E) × Result (List (VenueFill E))
  repriced (err e) id existing orders = (orders, err e)
  repriced (ok resting) id existing orders = (orders, ok [])
  repriced (ok (executed f)) id existing orders =
      (after_fill id existing f orders, ok (fill_of id existing f ∷ []))

  -- One round of the loop: the open orders that are left, and the fill, if any.
  abbrev pub reprice_found :
      Option (PaperOpenOrder E)
      → Simulator E
      → OrderbookSnapshot E
      → String
      → Map (PaperOpenOrder E)
      → Map (PaperOpenOrder E) × Result (List (VenueFill E))
  reprice_found none simulator book id orders = (orders, ok [])
  reprice_found (some existing) simulator book id orders =
      let remaining = remaining_qty E existing in
      let core = order_core_from_submission E existing.submission existing.accepted_at remaining in
      if le E remaining zero_dec
      then (remove id orders, ok [])
      else repriced (simulator core id book) id existing orders

  unfoldable pub reprice_one :
      Simulator E
      → OrderbookSnapshot E
      → String
      → Map (PaperOpenOrder E)
      → Map (PaperOpenOrder E) × Result (List (VenueFill E))
  unfolding remaining_qty order_core_from_submission
  reprice_one simulator book id orders = reprice_found (lookup id orders) simulator book id orders

  abbrev pub prepend :
      List (VenueFill E)
      → Map (PaperOpenOrder E) × Result (List (VenueFill E))
      → Map (PaperOpenOrder E) × Result (List (VenueFill E))
  prepend fills (orders, ok later) = (orders, ok (fills ++ later))
  prepend fills (orders, err e) = (orders, err e)

  abbrev pub continue :
      Map (PaperOpenOrder E) × Result (List (VenueFill E))
      → (Map (PaperOpenOrder E) → Map (PaperOpenOrder E) × Result (List (VenueFill E)))
      → Map (PaperOpenOrder E) × Result (List (VenueFill E))
  continue (orders, err e) later = (orders, err e)
  continue (orders, ok fills) later = prepend fills (later orders)

  -- `for venue_order_id in venue_order_ids`
  unfoldable pub reprice_all :
      Simulator E
      → OrderbookSnapshot E
      → List String
      → Map (PaperOpenOrder E)
      → Map (PaperOpenOrder E) × Result (List (VenueFill E))
  reprice_all simulator book [] orders = (orders, ok [])
  reprice_all simulator book (id ∷ ids) orders =
      continue (reprice_one simulator book id orders) (reprice_all simulator book ids)

  unfoldable pub collect_repriced_fills :
      Simulator E
      → OrderbookSnapshot E
      → Map (PaperOpenOrder E)
      → Map (PaperOpenOrder E) × Result (List (VenueFill E))
  unfolding reprice_all
  collect_repriced_fills simulator book orders =
      reprice_all simulator book (orders_in book.market_id orders) orders

  abbrev pub publish : Result (List (VenueFill E)) → PaperAdapter E → PaperAdapter E × Result Unit
  publish (ok fills) a = (broadcast_all E a fills, ok tt)
  publish (err e) a = (a, err e)

  abbrev pub take_book :
      Validity E → PaperAdapter E → OrderbookSnapshot E → PaperAdapter E × Result Unit
  take_book (invalid e) a book = (a, err (validation (show_market_error E e)))
  take_book valid a book =
      let collected = collect_repriced_fills a.simulator book a.state.open_orders in
      let state = record a.state {
        orderbooks = insert book.market_id book a.state.orderbooks;
        open_orders = collected.0;
      } in
      publish collected.1 (record a { state = state })

  unfoldable pub replace_orderbook :
      PaperAdapter E → OrderbookSnapshot E → PaperAdapter E × Result Unit
  unfolding collect_repriced_fills
  replace_orderbook a book =
      if str_eq book.venue_id a.venue_id then take_book (validate E book) a book else (
        a,
        err (
            validation (
              append "paper adapter for "
                (append a.venue_id (append " cannot ingest snapshot for " book.venue_id)))),
      )
