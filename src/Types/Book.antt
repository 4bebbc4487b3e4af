-- ===== src/Types/Book.antt =====
-- crates/types/src/market_data.rs: what `validate` accepts.
use feynman_engine.Prelude.{
  ℕ, suc, ◌≡◌, ◌↔◌, refl, Bool, true, false, Option, none, some, String, List, [], ◌∷◌, arith,
}
use feynman_engine.Externs.{Externs}
use feynman_engine.Types.Market.{
  PriceLevel, OrderbookSnapshot, valid, validate_from, first, validate, uncrossed,
}

module _ (E : Externs) where
  open E use {zero_dec, lt}

  -- A price may follow the one before it on its side: no higher among bids, no lower among asks.
  abbrev pub IsNext : Bool → Option E.Decimal → E.Decimal → Type 0
  IsNext descending none price = Unit
  IsNext true (some previous) price = lt previous price ≡ false
  IsNext false (some previous) price = lt price previous ≡ false

  -- Every level of a side has a positive price and quantity, and the prices are in order, after
  -- the price `previous` if there is one.
  abbrev pub IsSide : Bool → Option E.Decimal → List (PriceLevel E) → Type 0
  IsSide descending previous [] = Unit
  IsSide descending previous (level ∷ levels) =
      (lt zero_dec level.price ≡ true)
      × (lt zero_dec level.qty ≡ true)
      × IsNext descending previous level.price
      × IsSide descending (some level.price) levels

  -- The best bid is at most the best ask.
  abbrev pub IsUncrossed : Option (PriceLevel E) → Option (PriceLevel E) → Type 0
  IsUncrossed (some bid) (some ask) = lt ask.price bid.price ≡ false
  IsUncrossed _ _ = Unit

  abbrev pub IsBook : OrderbookSnapshot E → Type 0
  IsBook book =
      IsSide true none book.bids
      × IsSide false none book.asks
      × IsUncrossed (first E book.bids) (first E book.asks)

  validate_from_iff :
      (levels : List (PriceLevel E)) (side : String) (descending : Bool) (index : ℕ)
      (previous : Option E.Decimal)
      → (validate_from E levels side descending index previous ≡ valid)
        ↔ IsSide descending previous levels
  unfolding validate_from
  validate_from_iff [] side descending index previous = (λ _. tt, λ _. refl)
  validate_from_iff (level ∷ levels) side descending index previous =
      let rest = validate_from_iff levels side descending (suc index) (some level.price) in
      ground (arith, rest)

  uncrossed_iff :
      (bid ask : Option (PriceLevel E)) → (uncrossed E bid ask ≡ valid) ↔ IsUncrossed bid ask
  uncrossed_iff bid ask = ground arith

  -- A snapshot is valid exactly when every level has a positive price and a positive quantity, the
  -- bids do not rise and the asks do not fall with depth, and the best bid is not above the best
  -- ask.
  pub validate_iff : (book : OrderbookSnapshot E) → (validate E book ≡ valid) ↔ IsBook book
  unfolding validate
  validate_iff book =
      let bids = validate_from_iff book.bids "bid" true 0 none in
      let asks = validate_from_iff book.asks "ask" false 0 none in
      let spread = uncrossed_iff (first E book.bids) (first E book.asks) in
      ground (arith, bids, asks, spread)
