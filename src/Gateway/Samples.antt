-- ===== src/Gateway/Samples.antt =====
-- A book with bids at 99 and 98 and asks at 100 and 101, a paper adapter that has it, and orders.
use feynman_engine.Prelude.{String, Option, none, some, true, false, [], ◌∷◌}
use feynman_engine.Prelude.Int.{ℤ, pos}
use feynman_engine.Externs.FixedPoint.{fixed_point, whole}
use feynman_engine.Types.Order.{buy, limit, TimeInForce, gtc, OrderCore}
use feynman_engine.Types.Pipeline.{PipelineOrder, Routed}
use feynman_engine.Types.Portfolio.{FirmBook, AgentAllocation, active}
use feynman_engine.Types.Venue.{new, connected}
use feynman_engine.Types.Market.{PriceLevel, OrderbookSnapshot, PriceSnapshot, PriceSource}
use feynman_engine.Engine.State.{Signal, normal}
use feynman_engine.Gateway.Symbols.{SymbolMap, empty_map, insert_new}
use feynman_engine.Gateway.Bridge.{VenueRouteState, SignalOrderBridge, default_config}
use feynman_engine.Types.Fees.{FeeResult, fee}
use feynman_engine.Lifecycle.State.{Fill}
use feynman_engine.Gateway.Simulator.{simulate}
use feynman_engine.Gateway.Submission.{OrderSubmission, order_core_from_submission}
use feynman_engine.Gateway.Paper.{PaperAdapter, Simulator, new_adapter}
use feynman_engine.Gateway.Calls.{run, connects, replaces}

abbrev level : ℤ → ℤ → PriceLevel fixed_point
level price qty = record { price = price; qty = qty }

abbrev pub book : OrderbookSnapshot fixed_point
book = record {
  venue_id = "sim";
  instrument_id = "BTC";
  market_id = "BTC-PERP";
  bids = level (whole 99) (whole 5) ∷ level (whole 98) (whole 5) ∷ [];
  asks = level (whole 100) (whole 4) ∷ level (whole 101) (whole 6) ∷ [];
  observed_at = pos 6;
  received_at = pos 7;
}

abbrev pub calculate : Fill fixed_point → FeeResult fixed_point
calculate f = fee (record {
  trading_fee = pos 5;
  gas_fee = pos 0;
  rebate = pos 0;
  funding_fee = pos 0;
  net = pos 5;
})

abbrev pub simulator : Simulator fixed_point
simulator = simulate fixed_point calculate

abbrev pub adapter : PaperAdapter fixed_point
adapter =
    run fixed_point (new_adapter fixed_point "sim" simulator)
      (connects (pos 1) ∷ replaces book ∷ [])

-- To buy ten at the given price or better.
abbrev pub submission : TimeInForce fixed_point → ℤ → OrderSubmission fixed_point
submission tif price = record {
  order_id = "o-1";
  client_order_id = "c-1";
  agent_id = "alpha";
  instrument_id = "BTC";
  market_id = "BTC-PERP";
  venue_id = "sim";
  side = buy;
  order_type = limit;
  time_in_force = tif;
  qty = whole 10;
  price = some price;
  trigger_price = none;
  stop_loss = none;
  take_profit = none;
  post_only = false;
  reduce_only = false;
  dry_run = true;
  exec_hint = record { allow_emulation = false };
}

abbrev pub order : OrderCore fixed_point
order = order_core_from_submission fixed_point (submission gtc (whole 100)) (pos 7) (whole 10)

abbrev pub routed : PipelineOrder fixed_point (Routed fixed_point)
routed = record {
  core = order;
  stage = record {
    validated_at = pos 4;
    approval = record { approved_at = pos 5; checks_performed = []; warnings = [] };
    routing = record { venue_id = "sim"; client_order_id = "c-1"; routed_at = pos 6 };
  };
}

abbrev pub listed_map : SymbolMap
listed_map = insert_new "sim" "BTC-PERP" "BTC" empty_map

abbrev pub state : VenueRouteState fixed_point
state = record {
  connection_health = record (new fixed_point "sim") { state = connected };
  available_balance = whole 500;
}

abbrev pub bridge : SignalOrderBridge fixed_point
bridge = record { config = default_config fixed_point; symbol_map = listed_map }

abbrev pub signal : Signal fixed_point
signal = record {
  id = "s-1";
  basket_id = none;
  agent = "alpha";
  instrument = "BTC";
  direction = buy;
  conviction = pos 5000;
  sizing_hint = none;
  arb_type = "none";
  stop_loss = whole 90;
  take_profit = some (whole 130);
  thesis = "breakout";
  urgency = normal;
  metadata = "";
  created_at = pos 0;
}

abbrev allocation : AgentAllocation fixed_point
allocation = record {
  allocated_capital = whole 50000;
  used_capital = whole 2000;
  free_capital = whole 48000;
  realized_pnl = pos 0;
  unrealized_pnl = pos 0;
  current_drawdown = pos 0;
  max_drawdown_limit = pos 1000;
  status = active;
}

abbrev pub firm : FirmBook fixed_point
firm = record {
  nav = whole 100000;
  gross_notional = whole 0;
  net_notional = whole 0;
  realized_pnl = pos 0;
  unrealized_pnl = pos 0;
  daily_pnl = pos 0;
  hourly_pnl = pos 0;
  current_drawdown_pct = pos 0;
  allocated_capital = whole 50000;
  cash_available = whole 90000;
  total_fees_paid = pos 0;
  agent_allocations = ("alpha", allocation) ∷ [];
  instruments = [];
  prediction_exposure = record {
    total_notional = pos 0;
    pct_of_nav = pos 0;
    unresolved_markets = 0;
  };
  as_of = pos 1;
}

abbrev snapshot_of : String → Option (PriceSnapshot fixed_point)
snapshot_of instrument = some (record {
  instrument = instrument;
  bid = whole 99;
  ask = whole 100;
  mid = whole 99;
  last = whole 100;
  observed_at = pos 6;
  received_at = pos 7;
})

abbrev pub prices : PriceSource fixed_point
prices = record { latest_price = snapshot_of; is_stale = λ instrument age. false }
