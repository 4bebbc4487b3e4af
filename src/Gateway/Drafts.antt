-- ===== src/Gateway/Drafts.antt =====
-- crates/gateway/src/lib.rs: the draft orders that `signal_to_orders` returns.
use feynman_engine.Prelude.{
  ◌≡◌, refl, sym, ◌⊎◌, inl, inr, Bool, true, false, Option, none, some, List, [], ◌∷◌, lookup,
  arith, Option-cases, if◌then◌else◌,
}
use feynman_engine.Prelude.Text.{◌++◌}
use feynman_engine.Externs.{Externs, ExactArithmetic, is_zero}
use feynman_engine.Types.Order.{Side, buy, sell}
use feynman_engine.Types.Pipeline.{PipelineOrder, Draft, new}
use feynman_engine.Types.Limits.{AgentRiskLimits}
use feynman_engine.Types.Portfolio.{FirmBook, AgentAllocation, active}
use feynman_engine.Types.Market.{PriceSource, PriceSnapshot}
use feynman_engine.Engine.State.{Signal}
use feynman_engine.Gateway.Errors.{Result, ok, bind_ok, ok_inj}
use feynman_engine.Gateway.Symbols.{VenueSymbol, venues_for}
use feynman_engine.Gateway.Bridge.{
  SignalOrderBridge, VenueRouteState, signal_to_orders, validate_signal, find_allocation, draft_one,
  draft_order, reference_price_for, validate_exit_targets, size_signal, select_venue,
  allowed_instruments, allowed_venues,
}
use feynman_engine.Gateway.Routing.{IsServed, IsRichest, select_venue-IsServed}
use feynman_engine.Gateway.Served.{Permits}

module _ (E : Externs) where
  open E use {Decimal, zero_dec, sub, mul, div, abs, lt, DateTime}

  -- A price at which a position of the side loses, and one at which it gains.
  abbrev pub IsLoss : Side → Decimal → Decimal → Type 0
  IsLoss buy level price = lt level price ≡ true
  IsLoss sell level price = lt price level ≡ true

  abbrev pub IsTarget : Side → Option Decimal → Decimal → Type 0
  IsTarget side none price = Unit
  IsTarget buy (some target) price = lt price target ≡ true
  IsTarget sell (some target) price = lt target price ≡ true

  -- One buys at the ask and sells at the bid.
  abbrev pub IsQuoteOf : Side → PriceSnapshot E → Decimal → Type 0
  IsQuoteOf buy snapshot price = price ≡ snapshot.ask
  IsQuoteOf sell snapshot price = price ≡ snapshot.bid

  -- A hint is an amount of money within the capital. Otherwise the conviction's share of the
  -- capital is what the order may lose at its stop.
  abbrev pub IsSized : Option Decimal → Signal E → Decimal → Decimal → Decimal → Type 0
  IsSized (some hint) signal capital price qty = (lt capital hint ≡ false) × (qty ≡ div hint price)
  IsSized none signal capital price qty =
      (lt zero_dec (abs (sub price signal.stop_loss)) ≡ true)
      × (qty ≡ div (mul signal.conviction capital) (abs (sub price signal.stop_loss)))

  module _ (bridge : SignalOrderBridge E) (signal : Signal E) (limits : Option (AgentRiskLimits E))
      (states : List (VenueRouteState E)) where
    -- The draft follows the signal, at a positive price and quantity, with its exits on their sides
    -- of the price, to the venue `venue` that serves the instrument.
    pub record IsDraftOf (allocation : AgentAllocation E) (prices : PriceSource E) (price : Decimal)
        (venue : VenueSymbol) (o : PipelineOrder E Draft) : Type 0 where
      pub names :
          (o.core.id ≡ "ord-" ++ signal.id)
          × (o.core.agent_id ≡ signal.agent)
          × (o.core.instrument_id ≡ signal.instrument)
          × (o.core.side ≡ signal.direction)
      pub priced : o.core.price ≡ some price
      pub quoted :
          (snapshot : PriceSnapshot E) × (prices.latest_price signal.instrument ≡ some snapshot)
          × (prices.is_stale signal.instrument bridge.config.max_price_age ≡ false)
          × IsQuoteOf signal.direction snapshot price
      pub sized : IsSized signal.sizing_hint signal allocation.allocated_capital price o.core.qty
      pub positive : (lt zero_dec price ≡ true) × (lt zero_dec o.core.qty ≡ true)
      pub exits :
          (o.core.stop_loss ≡ some signal.stop_loss)
          × (o.core.take_profit ≡ signal.take_profit)
          × IsLoss o.core.side signal.stop_loss price
          × IsTarget o.core.side o.core.take_profit price
      pub routed : (o.core.venue_id ≡ venue.venue_id) × (o.core.market_id ≡ venue.symbol)
      pub permitted : Permits E (allowed_instruments E limits) signal.instrument
      pub served :
          IsServed E
            (venues_for signal.instrument bridge.symbol_map)
            (allowed_venues E limits)
            states
            venue
      pub richest :
          IsRichest E bridge.config.routing_policy
            (venues_for signal.instrument bridge.symbol_map)
            (allowed_venues E limits)
            states
            venue

    branch_ok :
        (b : Bool) (orders : List (PipelineOrder E Draft))
        (r : Result (List (PipelineOrder E Draft)))
        → (if b then ok [] else r) ≡ ok orders
        → ((b ≡ true) × (orders ≡ [])) ⊎ ((b ≡ false) × (r ≡ ok orders))
    branch_ok true orders r h = inl (refl, sym (ok_inj [] orders h))
    branch_ok false orders r h = inr (refl, h)

    price_ok :
        (prices : PriceSource E) (price : Decimal)
        → reference_price_for E bridge signal prices ≡ ok price
        → (lt zero_dec price ≡ true)
          × ((snapshot : PriceSnapshot E) × (prices.latest_price signal.instrument ≡ some snapshot)
              × (prices.is_stale signal.instrument bridge.config.max_price_age ≡ false)
              × IsQuoteOf signal.direction snapshot price)
    unfolding reference_price_for
    price_ok prices price h = elim (Option-cases (prices.latest_price signal.instrument)) [
      | inl missing ↦ absurd (ground arith)
      | inr (snapshot, found) ↦ (ground arith, (snapshot, found, ground arith, ground arith))
    ]

    exits_ok :
        (price : Decimal) (u : Unit)
        → validate_exit_targets E signal price ≡ ok u
        → IsLoss signal.direction signal.stop_loss price
          × IsTarget signal.direction signal.take_profit price
    unfolding validate_exit_targets
    exits_ok price u h = ground arith

    size_ok :
        (capital price qty : Decimal)
        → size_signal E signal capital price ≡ ok qty
        → IsSized signal.sizing_hint signal capital price qty × (lt zero_dec qty ≡ true)
    unfolding size_signal
    size_ok capital price qty h = ground arith

    allocation_ok :
        (book : FirmBook E) (allocation : AgentAllocation E)
        → find_allocation E book signal.agent ≡ ok allocation
        → (lookup signal.agent book.agent_allocations ≡ some allocation)
          × (allocation.status ≡ active)
    unfolding find_allocation
    allocation_ok book allocation h = ground arith

    module _ (X : ExactArithmetic E) where
      draft_one-IsDraftOf :
          (allocation : AgentAllocation E) (prices : PriceSource E) (now : DateTime)
          (orders : List (PipelineOrder E Draft))
          → draft_one E bridge signal allocation limits prices states now ≡ ok orders
          → (price : Decimal) × (venue : VenueSymbol) × (o : PipelineOrder E Draft) × (orders
              ≡ o ∷ [])
            × IsDraftOf allocation prices price venue o
      unfolding draft_one new
      draft_one-IsDraftOf allocation prices now orders h =
          let (price, priced, h1) =
            bind_ok (reference_price_for E bridge signal prices) _ orders h in
          let (u, exits, h2) = bind_ok (validate_exit_targets E signal price) _ orders h1 in
          let (qty, sized, h3) =
            bind_ok (size_signal E signal allocation.allocated_capital price) _ orders h2 in
          let (venue, selected, h4) =
            bind_ok (select_venue E bridge signal limits states) _ orders h3 in
          let (permitted, served, richest) =
            select_venue-IsServed E X bridge signal limits states venue selected in
          let (positive_price, quote) = price_ok prices price priced in
          let (size, positive_size) = size_ok allocation.allocated_capital price qty sized in
          let (losing, target) = exits_ok price u exits in
          (
            price,
            venue,
            draft_order E bridge signal price qty venue now,
            sym (ok_inj _ orders h4),
            record {
              names = (refl, refl, refl, refl);
              priced = refl;
              quoted = quote;
              sized = size;
              positive = (positive_price, positive_size);
              exits = (refl, refl, losing, target);
              routed = (refl, refl);
              permitted = permitted;
              served = served;
              richest = richest;
            },
          )

      -- A signal that the bridge accepts comes from an agent with an active allocation. With zero
      -- conviction it gives no order. Otherwise it gives one draft order: it carries the signal's
      -- names and side, a positive quote that is not stale, a positive quantity that is the sizing hint
      -- at that price or puts the conviction's share of the capital at risk, the signal's stop, which is on the
      -- losing side of that price, and the signal's target, if it has one, which is on the profitable side; and it goes to a listing of the
      -- instrument at an allowed and connected venue, the one with the highest available balance
      -- if that is the policy.
      pub signal_to_orders-IsDraftOf :
          (book : FirmBook E) (prices : PriceSource E) (now : DateTime)
          (orders : List (PipelineOrder E Draft))
          → signal_to_orders E bridge signal book limits prices states now ≡ ok orders
          → (allocation : AgentAllocation E) × (lookup signal.agent book.agent_allocations
              ≡ some allocation)
            × (allocation.status ≡ active)
            × (((is_zero E signal.conviction ≡ true) × (orders ≡ []))
                ⊎ ((is_zero E signal.conviction ≡ false)
                    × ((price : Decimal) × (venue : VenueSymbol) × (o : PipelineOrder E Draft)
                        × (orders ≡ o ∷ [])
                        × IsDraftOf allocation prices price venue o)))
      unfolding signal_to_orders
      signal_to_orders-IsDraftOf book prices now orders h =
          let (u, valid, h1) = bind_ok (validate_signal E signal) _ orders h in
          let (allocation, found, h2) = bind_ok (find_allocation E book signal.agent) _ orders h1 in
          let (allocated, is_up) = allocation_ok book allocation found in
          (
            allocation,
            allocated,
            is_up,
            elim (branch_ok (is_zero E signal.conviction) orders _ h2) [
              | inl none_drafted ↦ inl none_drafted
              | inr (nonzero, drafted) ↦
                  inr (nonzero, draft_one-IsDraftOf allocation prices now orders drafted)
            ],
          )
