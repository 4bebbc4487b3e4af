-- ===== src/Breaker/Tests.antt =====
-- The breakers at concrete contexts.
use feynman_engine.Prelude.{
  ◌≡◌, ◌↔◌, ◌≢◌, refl, inl, inr, none, some, true, false, List, [], ◌∷◌, Any, arith, ap, eq_iff,
  String, lookup,
}
use feynman_engine.Prelude.Int.{ℤ, pos, negsuc, ◌+ℤ◌, ◌-ℤ◌, ◌*ℤ◌, neg_ℤ, abs_ℤ, quot_ℤ}
use feynman_engine.Externs.FixedPoint.{fixed_point, whole}
use feynman_engine.Types.Order.{OrderCore, buy, limit, gtc}
use feynman_engine.Types.Portfolio.{FirmBook}
use feynman_engine.Types.Venue.{connected}
use feynman_engine.Projection.{project_net_and_gross}
use feynman_engine.Breaker.Context.{
  OperationKind, new_order, reduce_only, live, CircuitBreakerContext, pass, manual_operator,
  cio_approval,
}
use feynman_engine.Breaker.Checks.{
  cb1_check, cb2_check, cb6_check, cb7_check, cb8_check, cb9_check, cb10_check, cb11_check,
}
use feynman_engine.Breaker.Bank.{
  new, latch_cb3, latch_cb4, cb3_latched, cb4_latched, cb3_check, cb4_check, cb5_check, check_all,
  ok, reset, is_halt_active,
}
use feynman_engine.Breaker.Limits.{MeetsOrderLimits, MeetsFirmLimits}
use feynman_engine.Breaker.Order.{
  IsOpen, first_block, check_all_sound, check_all_complete, check_all-reduce_only,
  check_all-first_block,
}
use feynman_engine.Breaker.Latch.{
  Call, check, clear, run, IsBreachingCheck, MayReset, check_all-is_halt_active, daily_halt_lasts,
  daily_halt_needs_breach, reset_lem,
}

abbrev buy_ten : OrderCore fixed_point
buy_ten = record {
  id = "o-1";
  basket_id = none;
  agent_id = "alpha";
  instrument_id = "BTC";
  market_id = "BTC-PERP";
  venue_id = "hyper";
  side = buy;
  order_type = limit;
  time_in_force = gtc;
  qty = whole 10;
  price = some (whole 100);
  trigger_price = none;
  stop_loss = none;
  take_profit = none;
  post_only = false;
  reduce_only = false;
  dry_run = false;
  exec_hint = record { allow_emulation = false };
  created_at = pos 0;
}

abbrev book : ℤ → FirmBook fixed_point
book daily = record {
  nav = whole 100000;
  gross_notional = whole 5000;
  net_notional = whole 1000;
  realized_pnl = pos 0;
  unrealized_pnl = pos 0;
  daily_pnl = daily;
  hourly_pnl = pos 0;
  current_drawdown_pct = pos 0;
  allocated_capital = whole 50000;
  cash_available = whole 60000;
  total_fees_paid = pos 0;
  agent_allocations = [];
  instruments =
      record {
        instrument = "BTC";
        net_qty = whole 10;
        gross_qty = whole 30;
        net_notional_usd = whole 1000;
        gross_notional_usd = whole 3000;
        by_venue = [];
        by_agent = [];
      }
      ∷ [];
  prediction_exposure = record {
    total_notional = pos 0;
    pct_of_nav = pos 0;
    unresolved_markets = 0;
  };
  as_of = pos 100;
}

abbrev context : OperationKind → ℤ → CircuitBreakerContext fixed_point
context kind daily = record {
  order = some (record { core = buy_ten; stage = record { validated_at = pos 90 } });
  firm_book = book daily;
  venue_health =
      (
        "hyper",
        record {
          venue_id = "hyper";
          state = connected;
          last_message_at = some (pos 95);
          last_heartbeat_at = some (pos 95);
          heartbeat_latency_ms = none;
          reconnect_count = 0;
          connected_since = none;
        },
      )
      ∷ [];
  venue_error_stats = ("hyper", record { errors_last_5min = 1; total_last_5min = 100 }) ∷ [];
  firm_orders_last_60s = 3;
  agent_orders_last_60s = ("alpha", 2) ∷ [];
  sequencer_queue_depth = 5;
  execution_mode = live;
  operation_kind = kind;
  config = record {
    max_single_order_notional = whole 2000;
    max_instrument_position_notional = whole 10000;
    max_firm_gross_notional = whole 100000;
    max_daily_loss_pct = pos 500;
    max_hourly_loss_pct = pos 200;
    max_firm_orders_per_min = 100;
    max_agent_orders_per_min = 20;
    max_venue_error_rate = pos 1000;
    max_venue_disconnect_secs = 30;
    max_sequencer_queue_depth = 800;
  };
  now = pos 100;
}

-- A calm day, and one with a loss of 6000 on a net asset value of 100000.
abbrev calm : CircuitBreakerContext fixed_point
calm = context new_order (pos 0)

abbrev losing : CircuitBreakerContext fixed_point
losing = context new_order (negsuc 59999999)

calm_passes : check_all fixed_point calm new ≡ (new, pass)
unfolding check_all cb1_check cb2_check cb3_check cb4_check cb5_check cb6_check cb7_check cb8_check
    cb9_check cb10_check cb11_check lookup project_net_and_gross ◌+ℤ◌ ◌-ℤ◌ ◌*ℤ◌ neg_ℤ abs_ℤ quot_ℤ
calm_passes = refl

calm_limits :
    IsOpen fixed_point new × MeetsOrderLimits fixed_point calm × MeetsFirmLimits fixed_point calm
calm_limits = check_all_sound fixed_point calm new refl (ap (λ r. r.1) calm_passes)

check_all_sound_example :
    IsOpen fixed_point new × MeetsOrderLimits fixed_point calm × MeetsFirmLimits fixed_point calm
check_all_sound_example = check_all_sound fixed_point calm new refl (ap (λ r. r.1) calm_passes)

check_all_complete_example : check_all fixed_point calm new ≡ (new, pass)
check_all_complete_example =
    check_all_complete fixed_point calm new refl calm_limits.0 calm_limits.1 calm_limits.2

-- The order closes part of a position while the daily halt is latched.
check_all-reduce_only_example :
    (((check_all fixed_point (context reduce_only (negsuc 59999999)) (latch_cb4 new)).1 ≡ pass)
      ↔ MeetsOrderLimits fixed_point (context reduce_only (negsuc 59999999)))
    × ((check_all fixed_point (context reduce_only (negsuc 59999999)) (latch_cb4 new)).0
        ≡ latch_cb4 new)
check_all-reduce_only_example =
    check_all-reduce_only fixed_point (context reduce_only (negsuc 59999999)) (latch_cb4 new) refl

check_all-first_block_example :
    (check_all fixed_point losing (latch_cb3 new)).1
    ≡ first_block (
        pass
        ∷ pass
        ∷ cb3_latched
        ∷ cb10_check fixed_point losing
        ∷ cb4_check fixed_point new.cb4 losing
        ∷ cb5_check fixed_point new.cb5 losing
        ∷ cb3_check fixed_point (latch_cb3 new).cb3 losing
        ∷ cb11_check fixed_point losing
        ∷ cb1_check fixed_point losing
        ∷ cb2_check fixed_point losing
        ∷ cb6_check fixed_point losing
        ∷ cb7_check fixed_point losing
        ∷ cb8_check fixed_point losing
        ∷ cb9_check fixed_point losing
        ∷ [])
check_all-first_block_example = check_all-first_block fixed_point losing (latch_cb3 new) refl

losing_halts : (check_all fixed_point losing new).0 ≡ latch_cb4 new
unfolding check_all cb4_check cb10_check ◌*ℤ◌ neg_ℤ quot_ℤ
losing_halts = refl

check_all-is_halt_active_example : is_halt_active (check_all fixed_point losing new).0 ≡ true
unfolding check_all cb4_check cb10_check ◌*ℤ◌ neg_ℤ quot_ℤ
check_all-is_halt_active_example = check_all-is_halt_active fixed_point losing new (inl refl)

abbrev quiet_calls : List (Call fixed_point)
quiet_calls =
    clear "CB-4" (manual_operator "ops") ∷ check calm ∷ clear "CB-5" (cio_approval "cio") ∷ []

daily_halt_lasts_example :
    check_all fixed_point calm (run fixed_point quiet_calls (latch_cb4 new))
    ≡ (run fixed_point quiet_calls (latch_cb4 new), cb4_latched)
daily_halt_lasts_example =
    daily_halt_lasts fixed_point quiet_calls (latch_cb4 new) calm refl
      (inr refl, (tt, (inl (ground (arith, eq_iff "CB-5" "CB-4")), tt))) refl

losing-run_halts : (run fixed_point (check calm ∷ check losing ∷ []) new).cb4.tripped ≡ true
unfolding run check_all cb1_check cb2_check cb3_check cb4_check cb5_check cb6_check cb7_check
    cb8_check cb9_check cb10_check cb11_check lookup project_net_and_gross ◌+ℤ◌ ◌-ℤ◌ ◌*ℤ◌ neg_ℤ
    abs_ℤ quot_ℤ
losing-run_halts = refl

daily_halt_needs_breach_example :
    Any (IsBreachingCheck fixed_point) (check calm ∷ check losing ∷ [])
daily_halt_needs_breach_example =
    daily_halt_needs_breach fixed_point (check calm ∷ check losing ∷ []) losing-run_halts

reset_lem_example :
    let r = reset "CB-4" (manual_operator "ops") (latch_cb4 new) in
    ((r.1 ≡ ok) ↔ MayReset "CB-4" (manual_operator "ops"))
    × (r.1 ≢ ok → r.0 ≡ latch_cb4 new)
    × (MayReset "CB-4" (manual_operator "ops")
        → (◌≡◌ {A = String} "CB-4" "CB-3"
            → r.0 ≡ record (latch_cb4 new) { cb3 = record { tripped = false } })
          × (◌≡◌ {A = String} "CB-4" "CB-4"
              → r.0 ≡ record (latch_cb4 new) { cb4 = record { tripped = false } })
          × (◌≡◌ {A = String} "CB-4" "CB-5"
              → r.0 ≡ record (latch_cb4 new) { cb5 = record { tripped = false } }))
reset_lem_example = reset_lem "CB-4" (manual_operator "ops") (latch_cb4 new)
