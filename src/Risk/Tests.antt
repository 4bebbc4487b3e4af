-- ===== src/Risk/Tests.antt =====
-- The risk gate on an order of ten at 100 with a stop at 90 and a target at 130, for a firm of
-- 100000.
use feynman_engine.Prelude.{
  ◌≡◌, ◌≢◌, ◌↔◌, refl, none, some, true, false, List, [], ◌∷◌, lookup, All,
}
use feynman_engine.Prelude.Int.{ℤ, pos, ◌+ℤ◌, ◌-ℤ◌, ◌*ℤ◌, neg_ℤ, abs_ℤ, quot_ℤ}
use feynman_engine.Externs.FixedPoint.{fixed_point, exact, whole}
use feynman_engine.Types.Order.{buy, limit, gtc}
use feynman_engine.Types.Pipeline.{PipelineOrder, Validated}
use feynman_engine.Types.Portfolio.{FirmBook, active}
use feynman_engine.Projection.{project_net_and_gross}
use feynman_engine.Risk.Checks.{
  check_agent_permissions, check_agent_budget, check_position_limit, check_account_risk,
  check_leverage, check_drawdown, check_cash_reserve, check_instrument_limits, check_venue_limits,
  check_signal_requirements, tightest_resize,
}
use feynman_engine.Risk.Exposure.{project, current_venue_notional, current_venue_positions}
use feynman_engine.Risk.Manager.{
  submit_signal, submit_order, submit_batch, AgentRiskManager, Inputs, find_inputs, find_violations,
  find_resizes, evaluate,
}
use feynman_engine.Risk.Limits.{MeetsSignal}
use feynman_engine.Risk.Outcome.{
  is_rejected, IsAcceptable, IsRightSize, evaluate_accepts_iff, evaluate-IsRightSize,
}
use feynman_engine.Types.Limits.{RiskOutcome, RiskViolation, rejected}
use feynman_engine.Risk.Rejection.{IsHard, evaluate-IsHardRejection, evaluate-submit_signal}

abbrev order : PipelineOrder fixed_point (Validated fixed_point)
order = record {
  core = record {
    id = "o-1";
    basket_id = none;
    agent_id = "alpha";
    instrument_id = "BTC";
    market_id = "BTC-PERP";
    venue_id = "hyper";
    side = buy;
    order_type = limit;
    time_in_force = gtc;
    qty = whole 10;
    price = some (whole 100);
    trigger_price = none;
    stop_loss = some (whole 90);
    take_profit = some (whole 130);
    post_only = false;
    reduce_only = false;
    dry_run = false;
    exec_hint = record { allow_emulation = false };
    created_at = pos 0;
  };
  stage = record { validated_at = pos 1 };
}

abbrev book : FirmBook fixed_point
book = record {
  nav = whole 100000;
  gross_notional = whole 0;
  net_notional = whole 0;
  realized_pnl = pos 0;
  unrealized_pnl = pos 0;
  daily_pnl = pos 0;
  hourly_pnl = pos 0;
  current_drawdown_pct = pos 0;
  allocated_capital = whole 50000;
  cash_available = whole 90000;
  total_fees_paid = pos 0;
  agent_allocations =
      (
        "alpha",
        record {
          allocated_capital = whole 50000;
          used_capital = whole 2000;
          free_capital = whole 48000;
          realized_pnl = pos 0;
          unrealized_pnl = pos 0;
          current_drawdown = pos 0;
          max_drawdown_limit = pos 1000;
          status = active;
        },
      )
      ∷ [];
  instruments =
      record {
        instrument = "BTC";
        net_qty = whole 2;
        gross_qty = whole 2;
        net_notional_usd = whole 200;
        gross_notional_usd = whole 200;
        by_venue =
            record { venue = "hyper"; account = "a"; net_qty = whole 2; notional_usd = whole 200 }
            ∷ [];
        by_agent =
            record { agent = "alpha"; net_qty = whole 2; notional_usd = whole 200; pnl = pos 0 }
            ∷ [];
      }
      ∷ [];
  prediction_exposure = record {
    total_notional = pos 0;
    pct_of_nav = pos 0;
    unresolved_markets = 0;
  };
  as_of = pos 1;
}

abbrev manager : AgentRiskManager fixed_point
manager = record {
  nav = whole 100000;
  agent_limits =
      (
        "alpha",
        record {
          allocated_capital = whole 50000;
          max_position_notional = whole 5000;
          max_gross_notional = whole 20000;
          max_drawdown_pct = pos 1000;
          max_daily_loss = whole 1000;
          max_open_orders = 10;
          allowed_instruments = some ("BTC" ∷ "ETH" ∷ []);
          allowed_venues = none;
        },
      )
      ∷ [];
  instrument_limits =
      (
        "BTC",
        record {
          instrument = "BTC";
          max_net_qty = whole 50;
          max_gross_qty = whole 100;
          max_concentration_pct = pos 2000;
          max_leverage = whole 3;
        },
      )
      ∷ [];
  venue_limits =
      (
        "hyper",
        record {
          venue = "hyper";
          max_notional = whole 30000;
          max_positions = 5;
          max_pct_of_nav = pos 5000;
        },
      )
      ∷ [];
}

accepted_as_signal :
    is_rejected fixed_point (evaluate fixed_point manager order book submit_signal) ≡ false
unfolding evaluate find_inputs find_violations find_resizes project current_venue_notional
    current_venue_positions project_net_and_gross lookup check_agent_permissions check_agent_budget
    check_position_limit check_account_risk check_leverage check_drawdown check_cash_reserve
    check_instrument_limits check_venue_limits check_signal_requirements tightest_resize ◌+ℤ◌ ◌-ℤ◌
    ◌*ℤ◌ neg_ℤ abs_ℤ quot_ℤ
accepted_as_signal = refl

evaluate_accepts_iff_example :
    (is_rejected fixed_point (evaluate fixed_point manager order book submit_signal) ≡ false)
    ↔ ((i : Inputs fixed_point) × IsAcceptable fixed_point manager order.core book submit_signal i)
evaluate_accepts_iff_example = evaluate_accepts_iff fixed_point manager order book submit_signal

acceptable :
    (i : Inputs fixed_point) × IsAcceptable fixed_point manager order.core book submit_signal i
acceptable =
    (evaluate_accepts_iff fixed_point manager order book submit_signal).0 accepted_as_signal

evaluate-IsRightSize_example :
    IsRightSize fixed_point order.core acceptable.0
      (project fixed_point order.core acceptable.0.price book acceptable.0.allocation)
      (evaluate fixed_point manager order book submit_signal)
evaluate-IsRightSize_example =
    evaluate-IsRightSize fixed_point exact manager order book submit_signal acceptable.0
      acceptable.1

-- Without a stop loss, and far too large for the agent's limits.
abbrev reckless : PipelineOrder fixed_point (Validated fixed_point)
reckless = record order {
  core = record order.core { qty = whole 900; stop_loss = none; take_profit = none };
}

abbrev violations_of : RiskOutcome fixed_point → List RiskViolation
violations_of (rejected vs) = vs
violations_of _ = []

reckless-is_rejected :
    is_rejected fixed_point (evaluate fixed_point manager reckless book submit_signal) ≡ true
unfolding evaluate find_inputs lookup find_violations check_agent_permissions check_agent_budget
    project ◌-ℤ◌ ◌+ℤ◌ abs_ℤ project_net_and_gross quot_ℤ ◌*ℤ◌
reckless-is_rejected = refl

evaluate-IsHardRejection_example :
    let vs = violations_of (evaluate fixed_point manager reckless book submit_signal) in
    (vs ≢ []) × All IsHard vs
unfolding evaluate find_inputs lookup find_violations check_agent_permissions check_agent_budget
    project ◌-ℤ◌ ◌+ℤ◌ abs_ℤ project_net_and_gross quot_ℤ ◌*ℤ◌
evaluate-IsHardRejection_example =
    evaluate-IsHardRejection fixed_point manager reckless book submit_signal

evaluate-submit_signal_example :
    ((price : ℤ) × (order.core.price ≡ some price)
      × MeetsSignal fixed_point order.core price order.core.stop_loss)
    × (evaluate fixed_point manager order book submit_order
        ≡ evaluate fixed_point manager order book submit_signal)
    × (evaluate fixed_point manager order book submit_batch
        ≡ evaluate fixed_point manager order book submit_signal)
evaluate-submit_signal_example =
    evaluate-submit_signal fixed_point manager order book accepted_as_signal
