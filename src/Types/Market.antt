-- ===== src/Types/Market.antt =====
-- crates/types/src/market_data.rs and pnl.rs: order books, prices, and marking to market.
use feynman_engine.Prelude.{
  ℕ, suc, Bool, true, false, Option, none, some, String, List, [], ◌∷◌, if◌then◌else◌,
}
use feynman_engine.Prelude.Text.{◌++◌, show_ℕ}
use feynman_engine.Prelude.Int.{pos}
use feynman_engine.Externs.{Externs, le, is_zero}

pub data MarketDataError (E : Externs) : Type 0 where
  non_positive_price non_positive_qty : String → ℕ → E.Decimal → MarketDataError E
  bids_unsorted asks_unsorted : ℕ → E.Decimal → E.Decimal → MarketDataError E
  crossed_book : E.Decimal → E.Decimal → MarketDataError E

pub record PriceLevel (E : Externs) : Type 0 where
  pub price : E.Decimal
  pub qty : E.Decimal

pub record OrderbookSnapshot (E : Externs) : Type 0 where
  pub venue_id : String
  pub instrument_id : String
  pub market_id : String
  pub bids : List (PriceLevel E)
  pub asks : List (PriceLevel E)
  pub observed_at : E.DateTime
  pub received_at : E.DateTime

pub record PriceSnapshot (E : Externs) : Type 0 where
  pub instrument : String
  pub bid : E.Decimal
  pub ask : E.Decimal
  pub mid : E.Decimal
  pub last : E.Decimal
  pub observed_at : E.DateTime
  pub received_at : E.DateTime

pub record MarkToMarketSnapshot (E : Externs) : Type 0 where
  pub instrument : String
  pub qty : E.Decimal
  pub avg_entry_price : E.Decimal
  pub mark_price : E.Decimal
  pub unrealized_pnl : E.Decimal
  pub notional_value : E.Decimal
  pub computed_at : E.DateTime

-- `PriceSource`; a duration is a number of nanoseconds.
pub record PriceSource (E : Externs) : Type 0 where
  pub latest_price : String → Option (PriceSnapshot E)
  pub is_stale : String → ℕ → Bool

-- `Result<(), MarketDataError>`
pub data Validity (E : Externs) : Type 0 where
  valid : Validity E
  invalid : MarketDataError E → Validity E

module _ (E : Externs) where
  open E use {Decimal, zero_dec, add, sub, mul, div, abs, lt, display, DateTime}

  unfoldable pub show_market_error : MarketDataError E → String
  show_market_error (non_positive_price side level price) =
      "non-positive price on "
      ++ (side ++ (" side at level " ++ (show_ℕ level ++ (": " ++ display price))))
  show_market_error (non_positive_qty side level qty) =
      "non-positive quantity on "
      ++ (side ++ (" side at level " ++ (show_ℕ level ++ (": " ++ display qty))))
  show_market_error (bids_unsorted level previous current) =
      "bids must be sorted descending; level "
      ++ (show_ℕ level ++ (" is " ++ (display current ++ (" after " ++ display previous))))
  show_market_error (asks_unsorted level previous current) =
      "asks must be sorted ascending; level "
      ++ (show_ℕ level ++ (" is " ++ (display current ++ (" after " ++ display previous))))
  show_market_error (crossed_book best_bid best_ask) =
      "crossed book: best bid " ++ (display best_bid ++ (" > best ask " ++ display best_ask))

  unfoldable pub notional : PriceLevel E → Decimal
  notional level = mul level.price level.qty

  abbrev pub first : List (PriceLevel E) → Option (PriceLevel E)
  first [] = none
  first (level ∷ _) = some level

  unfoldable pub best_bid : OrderbookSnapshot E → Option (PriceLevel E)
  best_bid book = first book.bids

  unfoldable pub best_ask : OrderbookSnapshot E → Option (PriceLevel E)
  best_ask book = first book.asks

  abbrev mid_of : Option (PriceLevel E) → Option (PriceLevel E) → Option Decimal
  mid_of (some bid) (some ask) = some (div (add bid.price ask.price) (E.literal (pos 2) 0))
  mid_of _ _ = none

  unfoldable pub mid_price : OrderbookSnapshot E → Option Decimal
  unfolding best_bid best_ask
  mid_price book = mid_of (best_bid book) (best_ask book)

  -- Whether a price may follow `previous` on its side.
  abbrev pub in_order : Bool → Option Decimal → Decimal → Bool
  in_order descending none price = true
  in_order true (some previous) price = le E price previous
  in_order false (some previous) price = le E previous price

  abbrev unsorted : Bool → ℕ → Option Decimal → Decimal → MarketDataError E
  unsorted descending level none current = bids_unsorted level current current
  unsorted true level (some previous) current = bids_unsorted level previous current
  unsorted false level (some previous) current = asks_unsorted level previous current

  -- The loop of `validate_side`, from the level `index`.
  unfoldable pub validate_from :
      List (PriceLevel E) → String → Bool → ℕ → Option Decimal → Validity E
  validate_from [] side descending index previous = valid
  validate_from (level ∷ levels) side descending index previous =
      let rest = validate_from levels side descending (suc index) (some level.price) in
      if le E level.price zero_dec
      then invalid (non_positive_price side index level.price)
      else if le E level.qty zero_dec
      then invalid (non_positive_qty side index level.qty)
      else if in_order descending previous level.price
      then rest
      else invalid (unsorted descending index previous level.price)

  abbrev pub validate_side : List (PriceLevel E) → String → Bool → Validity E
  validate_side levels side descending = validate_from levels side descending 0 none

  abbrev pub uncrossed : Option (PriceLevel E) → Option (PriceLevel E) → Validity E
  uncrossed (some bid) (some ask) =
      if lt ask.price bid.price then invalid (crossed_book bid.price ask.price) else valid
  uncrossed _ _ = valid

  abbrev pub and_then : Validity E → Validity E → Validity E
  and_then valid later = later
  and_then (invalid e) later = invalid e

  unfoldable pub validate : OrderbookSnapshot E → Validity E
  unfolding validate_from best_bid best_ask
  validate book =
      and_then (validate_side book.bids "bid" true)
        (and_then (validate_side book.asks "ask" false) (uncrossed (best_bid book) (best_ask book)))

  unfoldable pub spread : PriceSnapshot E → Decimal
  spread snapshot = sub snapshot.ask snapshot.bid

  unfoldable pub spread_bps : PriceSnapshot E → Option Decimal
  unfolding spread
  spread_bps snapshot =
      if is_zero E snapshot.mid
      then none
      else some (mul (div (spread snapshot) snapshot.mid) (E.literal (pos 10000) 0))

  unfoldable pub compute : String → Decimal → Decimal → Decimal → DateTime → MarkToMarketSnapshot E
  compute instrument qty avg_entry_price mark_price now = record {
    instrument = instrument;
    qty = qty;
    avg_entry_price = avg_entry_price;
    mark_price = mark_price;
    unrealized_pnl = mul (sub mark_price avg_entry_price) qty;
    notional_value = mul (abs qty) mark_price;
    computed_at = now;
  }
