-- ===== src/Types/Tests.antt =====
-- A book with a bid at 99 and an ask at 100.
use feynman_engine.Prelude.{◌≡◌, ◌↔◌, [], ◌∷◌}
use feynman_engine.Prelude.Int.{pos}
use feynman_engine.Externs.FixedPoint.{fixed_point, whole}
use feynman_engine.Types.Market.{OrderbookSnapshot, validate, valid}
use feynman_engine.Types.Book.{IsBook, validate_iff}

abbrev book : OrderbookSnapshot fixed_point
book = record {
  venue_id = "sim";
  instrument_id = "BTC";
  market_id = "BTC-PERP";
  bids = record { price = whole 99; qty = whole 5 } ∷ [];
  asks = record { price = whole 100; qty = whole 4 } ∷ [];
  observed_at = pos 6;
  received_at = pos 7;
}

validate_iff_example : (validate fixed_point book ≡ valid) ↔ IsBook fixed_point book
validate_iff_example = validate_iff fixed_point book
