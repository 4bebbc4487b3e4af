-- ===== src/Gateway/Bridge.antt =====
-- crates/gateway/src/lib.rs: `SignalOrderBridge`, from a signal to a draft order.
use feynman_engine.Prelude.{
  ℕ, Bool, true, false, not, ◌&&◌, Option, none, some, String, List, [], ◌∷◌, any, find, lookup,
  str_eq, if◌then◌else◌,
}
use feynman_engine.Prelude.Text.{◌++◌, is_blank}
use feynman_engine.Prelude.Int.{pos}
use feynman_engine.Externs.{Externs, le, is_zero}
use feynman_engine.Types.Order.{Side, buy, sell, OrderType, market, TimeInForce, ioc, debug_side}
use feynman_engine.Types.Pipeline.{PipelineOrder, Draft, new}
use feynman_engine.Types.Limits.{AgentRiskLimits}
use feynman_engine.Types.Portfolio.{FirmBook, AgentAllocation, AgentStatus, active, show_status}
use feynman_engine.Types.Venue.{VenueConnectionHealth, is_submittable}
use feynman_engine.Types.Market.{PriceSource, PriceSnapshot}
use feynman_engine.Engine.State.{Signal}
use feynman_engine.Gateway.Errors.{
  Result, ok, err, ◌>>=◌, validation, agent_allocation_not_found, price_unavailable, stale_price,
  routing_unavailable, require,
}
use feynman_engine.Gateway.Symbols.{VenueSymbol, SymbolMap, venues_for}

pub record VenueRouteState (E : Externs) : Type 0 where
  pub connection_health : VenueConnectionHealth E
  pub available_balance : E.Decimal

pub data SignalRoutingPolicy : Type 0 where
  first_listed highest_available_balance : SignalRoutingPolicy

pub record SignalOrderBridgeConfig (E : Externs) : Type 0 where
  pub default_order_type : OrderType
  pub default_time_in_force : TimeInForce E
  pub dry_run : Bool
  pub routing_policy : SignalRoutingPolicy
  pub max_price_age : ℕ  -- in nanoseconds

pub record SignalOrderBridge (E : Externs) : Type 0 where
  pub config : SignalOrderBridgeConfig E
  pub symbol_map : SymbolMap

module _ (E : Externs) where
  open E use {Decimal, zero_dec, sub, mul, div, abs, lt, display, DateTime}

  -- `SignalOrderBridgeConfig::default`
  abbrev pub default_config : SignalOrderBridgeConfig E
  default_config = record {
    default_order_type = market;
    default_time_in_force = ioc;
    dry_run = true;
    routing_policy = highest_available_balance;
    max_price_age = 30000000000;
  }

  abbrev one : Decimal
  one = E.literal (pos 1) 0

  abbrev is_some : Option Decimal → Bool
  is_some none = false
  is_some (some _) = true

  abbrev positive_hint : Option Decimal → Result Unit
  positive_hint none = ok tt
  positive_hint (some hint) =
      require (lt zero_dec hint)
        (validation ("signal sizing_hint must be positive, got " ++ display hint))

  unfoldable pub validate_signal : Signal E → Result Unit
  validate_signal signal = do
    bounded ← require (le E zero_dec signal.conviction && le E signal.conviction one) (
        validation
          ("signal conviction must be within 0.0..=1.0, got " ++ display signal.conviction))
    unambiguous ←
        require (not (is_zero E signal.conviction && is_some signal.sizing_hint))
          (validation "sizing_hint provided with zero conviction; intent is ambiguous")
    stop ←
        require (lt zero_dec signal.stop_loss)
          (validation ("signal stop_loss must be positive, got " ++ display signal.stop_loss))
    thesis ← require (not (is_blank signal.thesis)) (validation "signal thesis must be non-empty")
    positive_hint signal.sizing_hint

  -- Whether `a` is on the losing side of `price`.
  abbrev pub is_losing : Side → Decimal → Decimal → Bool
  is_losing buy a price = lt a price
  is_losing sell a price = lt price a

  abbrev pub is_profitable : Side → Decimal → Decimal → Bool
  is_profitable buy a price = lt price a
  is_profitable sell a price = lt a price

  abbrev valid_target : Side → Option Decimal → Decimal → Result Unit
  valid_target side none price = ok tt
  valid_target side (some target) price = require (is_profitable side target price) (
      validation (
        "take_profit "
        ++ (display target
            ++ (" is not on the profitable side of reference price "
                ++ (display price ++ (" for " ++ debug_side side))))))

  unfoldable pub validate_exit_targets : Signal E → Decimal → Result Unit
  validate_exit_targets signal price = do
    stop ← require (is_losing signal.direction signal.stop_loss price) (
        validation (
          "stop_loss "
          ++ (display signal.stop_loss
              ++ (" is not on the losing side of reference price "
                  ++ (display price ++ (" for " ++ debug_side signal.direction))))))
    valid_target signal.direction signal.take_profit price

  abbrev pub quoted : Side → PriceSnapshot E → Decimal
  quoted buy snapshot = snapshot.ask
  quoted sell snapshot = snapshot.bid

  abbrev positive_price : Decimal → Result Decimal
  positive_price price =
      if lt zero_dec price
      then ok price
      else err (validation ("reference price must be positive, got " ++ display price))

  abbrev price_from : Option (PriceSnapshot E) → Bool → Signal E → ℕ → Result Decimal
  price_from none stale signal max_age = err (price_unavailable signal.instrument)
  price_from (some snapshot) stale signal max_age =
      if stale
      then err (stale_price signal.instrument max_age)
      else positive_price (quoted signal.direction snapshot)

  unfoldable pub reference_price_for :
      SignalOrderBridge E → Signal E → PriceSource E → Result Decimal
  reference_price_for bridge signal prices =
      price_from (prices.latest_price signal.instrument)
        (prices.is_stale signal.instrument bridge.config.max_price_age) signal
        bridge.config.max_price_age

  abbrev raw_size : Option Decimal → Signal E → Decimal → Decimal → Result Decimal
  raw_size (some hint) signal capital price =
      if lt capital hint
      then err (
          validation (
            "sizing_hint "
            ++ (display hint ++ (" exceeds agent allocated_capital " ++ display capital))))
      else ok (div hint price)
  raw_size none signal capital price =
      let max_loss_per_unit = abs (sub price signal.stop_loss) in
      if lt zero_dec max_loss_per_unit
      then ok (div (mul signal.conviction capital) max_loss_per_unit)
      else err (validation "signal stop_loss must differ from the reference price")

  abbrev positive_size : Decimal → Result Decimal
  positive_size qty =
      if lt zero_dec qty
      then ok qty
      else err (validation ("signal sizing produced a non-positive quantity: " ++ display qty))

  unfoldable pub size_signal : Signal E → Decimal → Decimal → Result Decimal
  size_signal signal capital price = do
    qty ← raw_size signal.sizing_hint signal capital price
    positive_size qty

  -- `agent_limits.and_then(|limits| limits.allowed_…)`, and the test of a name against it.
  abbrev pub allowed_instruments : Option (AgentRiskLimits E) → Option (List String)
  allowed_instruments none = none
  allowed_instruments (some limits) = limits.allowed_instruments

  abbrev pub allowed_venues : Option (AgentRiskLimits E) → Option (List String)
  allowed_venues none = none
  allowed_venues (some limits) = limits.allowed_venues

  abbrev pub is_allowed : Option (List String) → String → Bool
  is_allowed none id = true
  is_allowed (some ids) id = any (λ a. str_eq a id) ids

  abbrev pub find_state : String → List (VenueRouteState E) → Option (VenueRouteState E)
  find_state venue = find (λ s. str_eq s.connection_health.venue_id venue)

  abbrev pub usable : Option (VenueRouteState E) → Option (List String) → String → Bool
  usable none allowed venue = false
  usable (some state) allowed venue =
      is_allowed allowed venue && is_submittable E state.connection_health

  abbrev pub balance_of : Option (VenueRouteState E) → Decimal
  balance_of none = zero_dec
  balance_of (some state) = state.available_balance

  -- `filter_map`: the usable listings, each with its venue's available balance.
  unfoldable pub eligible :
      List VenueSymbol
      → Option (List String)
      → List (VenueRouteState E)
      → List (VenueSymbol × Decimal)
  eligible [] allowed states = []
  eligible (listing ∷ rest) allowed states =
      let later = eligible rest allowed states in
      let state = find_state listing.venue_id states in
      if usable state allowed listing.venue_id then (listing, balance_of state) ∷ later else later

  -- `max_by`, which keeps the last of several maxima.
  abbrev pub keep_max : VenueSymbol × Decimal → VenueSymbol × Decimal → VenueSymbol × Decimal
  keep_max best candidate = if lt candidate.1 best.1 then best else candidate

  unfoldable pub richest :
      VenueSymbol × Decimal → List (VenueSymbol × Decimal) → VenueSymbol × Decimal
  richest best [] = best
  richest best (candidate ∷ rest) = richest (keep_max best candidate) rest

  abbrev pub choose :
      SignalRoutingPolicy → String → List (VenueSymbol × Decimal) → Result VenueSymbol
  choose policy instrument [] = err (
      routing_unavailable instrument
        ("no mapped venue is simultaneously allowed and connected for " ++ instrument))
  choose first_listed instrument (candidate ∷ rest) = ok candidate.0
  choose highest_available_balance instrument (candidate ∷ rest) = ok (richest candidate rest).0

  abbrev require_mapped : Option (List VenueSymbol) → String → Result (List VenueSymbol)
  require_mapped none instrument =
      err (routing_unavailable instrument "instrument is missing from the symbol map")
  require_mapped (some listings) instrument = ok listings

  unfoldable pub mapped_venues : SymbolMap → String → Result (List VenueSymbol)
  unfolding venues_for
  mapped_venues m instrument = require_mapped (venues_for instrument m) instrument

  unfoldable pub select_venue :
      SignalOrderBridge E
      → Signal E
      → Option (AgentRiskLimits E)
      → List (VenueRouteState E)
      → Result VenueSymbol
  unfolding eligible richest mapped_venues
  select_venue bridge signal limits states = do
    allowed ← require (is_allowed (allowed_instruments limits) signal.instrument) (
        routing_unavailable signal.instrument
          ("instrument " ++ (signal.instrument ++ (" is not allowed for agent " ++ signal.agent))))
    mapped ← mapped_venues bridge.symbol_map signal.instrument
    choose bridge.config.routing_policy signal.instrument
        (eligible mapped (allowed_venues limits) states)

  abbrev pub is_active : AgentStatus E → Bool
  is_active active = true
  is_active _ = false

  abbrev require_allocation : Option (AgentAllocation E) → String → Result (AgentAllocation E)
  require_allocation none agent = err (agent_allocation_not_found agent)
  require_allocation (some allocation) agent =
      if is_active allocation.status
      then ok allocation
      else err (
          validation
            ("agent " ++ (agent ++ (" is not active: " ++ show_status E allocation.status))))

  unfoldable pub find_allocation : FirmBook E → String → Result (AgentAllocation E)
  find_allocation book agent = require_allocation (lookup agent book.agent_allocations) agent

  -- The draft order of a signal.
  abbrev pub draft_order :
      SignalOrderBridge E
      → Signal E
      → Decimal
      → Decimal
      → VenueSymbol
      → DateTime
      → PipelineOrder E Draft
  draft_order bridge signal price qty venue now = new E (record {
    id = "ord-" ++ signal.id;
    basket_id = signal.basket_id;
    agent_id = signal.agent;
    instrument_id = signal.instrument;
    market_id = venue.symbol;
    venue_id = venue.venue_id;
    side = signal.direction;
    order_type = bridge.config.default_order_type;
    time_in_force = bridge.config.default_time_in_force;
    qty = qty;
    price = some price;
    trigger_price = none;
    stop_loss = some signal.stop_loss;
    take_profit = signal.take_profit;
    post_only = false;
    reduce_only = false;
    dry_run = bridge.config.dry_run;
    exec_hint = record { allow_emulation = false };
    created_at = now;
  })

  -- What follows the test for zero conviction.
  unfoldable pub draft_one :
      SignalOrderBridge E
      → Signal E
      → AgentAllocation E
      → Option (AgentRiskLimits E)
      → PriceSource E
      → List (VenueRouteState E)
      → DateTime
      → Result (List (PipelineOrder E Draft))
  unfolding new reference_price_for validate_exit_targets size_signal select_venue
  draft_one bridge signal allocation limits prices states now = do
    price ← reference_price_for bridge signal prices
    exits ← validate_exit_targets signal price
    qty ← size_signal signal allocation.allocated_capital price
    venue ← select_venue bridge signal limits states
    ok (draft_order bridge signal price qty venue now ∷ [])

  unfoldable pub signal_to_orders :
      SignalOrderBridge E
      → Signal E
      → FirmBook E
      → Option (AgentRiskLimits E)
      → PriceSource E
      → List (VenueRouteState E)
      → DateTime
      → Result (List (PipelineOrder E Draft))
  unfolding validate_signal find_allocation draft_one
  signal_to_orders bridge signal book limits prices states now = do
    checked ← validate_signal signal
    allocation ← find_allocation book signal.agent
    (if is_zero E signal.conviction
        then ok []
        else draft_one bridge signal allocation limits prices states now)
