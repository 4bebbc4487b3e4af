-- ===== src/Engine/Samples.antt =====
-- An engine with a core that approves every order, a submit channel with room for two orders, and a
-- journal that keeps its latest snapshot.
use feynman_engine.Prelude.{ℕ, zero, suc, refl, Option, none, some, true, false, []}
use feynman_engine.Prelude.Int.{pos}
use feynman_engine.Externs.FixedPoint.{fixed_point, whole}
use feynman_engine.Types.Order.{OrderCore, buy, limit, gtc}
use feynman_engine.Types.Pipeline.{PipelineOrder, Validated, RiskChecked, into_risk_checked}
use feynman_engine.Engine.State.{EngineState, EngineStateSnapshot}
use feynman_engine.Engine.Events.{ok}
use feynman_engine.Engine.Runtime.{Runtime, RuntimeLaws, SendResult, sent, full}
use feynman_engine.Engine.Sequencer.{Sequencer}

abbrev pub approve :
    PipelineOrder fixed_point (Validated fixed_point)
    → PipelineOrder fixed_point (RiskChecked fixed_point)
approve order =
    into_risk_checked fixed_point order
      (record { approved_at = pos 5; checks_performed = []; warnings = [] })

abbrev pub send : ℕ → ℕ × SendResult
send zero = (0, full)
send (suc room) = (room, sent)

abbrev pub keep :
    Option (EngineStateSnapshot fixed_point)
    → Option (ℕ × EngineStateSnapshot fixed_point)
    → Option (ℕ × EngineStateSnapshot fixed_point)
keep none kept = kept
keep (some latest) kept = some (latest.sequence_id, latest)

abbrev pub runtime : Runtime fixed_point
runtime = record {
  Core = EngineState fixed_point;
  Prices = ℕ;
  Journal = Option (ℕ × EngineStateSnapshot fixed_point);
  Sender = ℕ;
  state = λ c. c;
  set_state = λ s c. s;
  evaluate_order = λ order now c. (c, ok (approve order));
  on_fill = λ fill now c. (c, ok tt);
  on_reconciliation = λ report now c. (c, ok tt);
  mark_to_market = λ prices now c. (c, ok tt);
  pause_agent = λ agent reason now c. (c, ok tt);
  resume_agent = λ agent now c. (c, ok tt);
  adjust_limits = λ agent limits c. (c, ok tt);
  halt_all = λ reason now c. (c, ok tt);
  reset_circuit_breaker = λ now c. (c, ok tt);
  try_send = λ order room. send room;
  persist_commit = λ events latest kept. (keep latest kept, ok tt);
  load_latest_snapshot = λ kept. kept;
}

abbrev pub laws : RuntimeLaws fixed_point runtime
laws = record {
  state-set_state = λ s c. refl;
  load_persisted = λ events latest kept newest e. refl;
}

abbrev pub idle : EngineState fixed_point
idle = record {
  orders = [];
  positions = [];
  pending_signals = [];
  firm_book = record {
    nav = whole 1000;
    gross_notional = pos 0;
    net_notional = pos 0;
    realized_pnl = pos 0;
    unrealized_pnl = pos 0;
    daily_pnl = pos 0;
    hourly_pnl = pos 0;
    current_drawdown_pct = pos 0;
    allocated_capital = pos 0;
    cash_available = whole 1000;
    total_fees_paid = pos 0;
    agent_allocations = [];
    instruments = [];
    prediction_exposure = record {
      total_notional = pos 0;
      pct_of_nav = pos 0;
      unresolved_markets = 0;
    };
    as_of = pos 0;
  };
  agent_allocations = [];
  risk_limits = record {
    firm = record {
      max_gross_notional = whole 1000;
      max_net_notional = whole 1000;
      max_drawdown_pct = pos 1000;
      max_daily_loss = whole 50;
      max_open_orders = 10;
    };
    per_agent = [];
    per_instrument = [];
    per_venue = [];
    prediction_market = record {
      max_total_notional = pos 0;
      max_per_market_notional = pos 0;
      max_pct_of_nav = pos 0;
      max_unresolved_markets = 0;
    };
  };
  agent_statuses = [];
  idempotency_cache = [];
  last_sequence_id = 6;
  last_updated = pos 1;
}

abbrev pub first_snapshot : EngineStateSnapshot fixed_point
first_snapshot = record { state = idle; sequence_id = 6; snapshot_at = pos 1 }

abbrev pub started : Sequencer fixed_point runtime
started = record {
  core = idle;
  journal = some (6, first_snapshot);
  prices = 0;
  next_sequence = 7;
  snapshot_cache = first_snapshot;
  client_order_id_generators = [];
  restart_epoch = 3;
  venue_submit_tx = some 2;
  replies = [];
}

abbrev pub bid : OrderCore fixed_point
bid = record {
  id = "o-7";
  basket_id = none;
  agent_id = "beta";
  instrument_id = "ETH";
  market_id = "ETH-PERP";
  venue_id = "hyper";
  side = buy;
  order_type = limit;
  time_in_force = gtc;
  qty = whole 2;
  price = some (whole 30);
  trigger_price = none;
  stop_loss = none;
  take_profit = none;
  post_only = true;
  reduce_only = false;
  dry_run = false;
  exec_hint = record { allow_emulation = false };
  created_at = pos 2;
}

abbrev pub order : PipelineOrder fixed_point (Validated fixed_point)
order = record { core = bid; stage = record { validated_at = pos 3 } }
