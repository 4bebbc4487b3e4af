-- ===== src/Breaker/Checks.antt =====
-- crates/risk/src/circuit_breaker.rs: the breakers that keep no state, CB-1, CB-2 and CB-6 to CB-11.
use feynman_engine.Prelude.{
  ℕ, Option, none, some, not, ◌&&◌, String, ltb, find, lookup, str_eq, if◌then◌else◌,
}
use feynman_engine.Prelude.Int.{ℤ, pos, ltb_ℤ, magnitude, pos_part}
use feynman_engine.Prelude.Text.{◌++◌, show_ℕ}
use feynman_engine.Externs.{Externs}
use feynman_engine.Projection.{project_net_and_gross, signed_delta}
use feynman_engine.Types.Order.{OrderCore}
use feynman_engine.Types.Portfolio.{InstrumentExposure}
use feynman_engine.Types.Venue.{VenueConnectionHealth, is_submittable, debug_state}
use feynman_engine.Breaker.Context.{
  ExecutionMode, live, paper, backtest, VenueErrorStats, CircuitBreakerContext, is_live,
  CircuitBreakerResult, pass, reject,
}

debug_mode : ExecutionMode → String
debug_mode live = "Live"
debug_mode paper = "Paper"
debug_mode backtest = "Backtest"

module _ (E : Externs) where
  open E use {Decimal, zero_dec, from_u32, mul, div, lt, display, display_fixed}

  -- `Some(p) if p > Decimal::ZERO`
  abbrev pub positive_price : OrderCore E → Option Decimal
  positive_price core = elim core.price [
    | none ↦ none
    | some p ↦ if lt zero_dec p then some p else none
  ]

  abbrev pub order_core : CircuitBreakerContext E → Option (OrderCore E)
  order_core ctx = elim ctx.order [ none ↦ none | some o ↦ some o.core ]

  -- The exposure entry of an instrument, and the net and gross notional that it shows.
  abbrev pub exposure_of : CircuitBreakerContext E → OrderCore E → Option (InstrumentExposure E)
  exposure_of ctx core =
      find (λ e. str_eq e.instrument core.instrument_id) ctx.firm_book.instruments

  abbrev pub notionals : Option (InstrumentExposure E) → Decimal × Decimal
  notionals none = (zero_dec, zero_dec)
  notionals (some e) = (e.net_notional_usd, e.gross_notional_usd)

  -- CB-1, for an order with a positive price.
  cb1_limit : CircuitBreakerContext E → Decimal → CircuitBreakerResult
  cb1_limit ctx notional =
      if lt ctx.config.max_single_order_notional notional
      then reject "CB-1" (
          "order notional "
          ++ display notional
          ++ " exceeds max single order notional "
          ++ display ctx.config.max_single_order_notional)
      else pass

  unfoldable pub cb1_check : CircuitBreakerContext E → CircuitBreakerResult
  unfolding cb1_limit
  cb1_check ctx = elim (order_core ctx) [
    | none ↦ pass
    | some core ↦ elim (positive_price core) [
      | none ↦ pass
      | some price ↦ cb1_limit ctx (mul core.qty price)
    ]
  ]

  -- CB-2: the gross exposure of the instrument after the order.
  abbrev pub projected_gross : CircuitBreakerContext E → OrderCore E → Decimal → Decimal
  projected_gross ctx core price =
      let (current_net, current_gross) = notionals (exposure_of ctx core) in
      (project_net_and_gross E current_net current_gross
        (signed_delta E core.side (mul core.qty price))).1

  cb2_limit : CircuitBreakerContext E → Decimal → CircuitBreakerResult
  cb2_limit ctx gross =
      if lt ctx.config.max_instrument_position_notional gross
      then reject "CB-2" (
          "projected instrument gross exposure "
          ++ display gross
          ++ " exceeds max "
          ++ display ctx.config.max_instrument_position_notional)
      else pass

  unfoldable pub cb2_check : CircuitBreakerContext E → CircuitBreakerResult
  unfolding cb2_limit
  cb2_check ctx = elim (order_core ctx) [
    | none ↦ pass
    | some core ↦ elim (positive_price core) [
      | none ↦ pass
      | some price ↦ cb2_limit ctx (projected_gross ctx core price)
    ]
  ]

  unfoldable pub cb6_check : CircuitBreakerContext E → CircuitBreakerResult
  cb6_check ctx =
      if ltb ctx.config.max_firm_orders_per_min ctx.firm_orders_last_60s
      then reject "CB-6" (
          "firm order rate "
          ++ show_ℕ ctx.firm_orders_last_60s
          ++ "/min exceeds max "
          ++ show_ℕ ctx.config.max_firm_orders_per_min
          ++ "/min")
      else pass

  -- `get(agent).copied().unwrap_or(0)`
  abbrev pub agent_rate : CircuitBreakerContext E → OrderCore E → ℕ
  agent_rate ctx core = elim (lookup core.agent_id ctx.agent_orders_last_60s) [
    | none ↦ 0
    | some n ↦ n
  ]

  unfoldable pub cb7_check : CircuitBreakerContext E → CircuitBreakerResult
  cb7_check ctx = elim (order_core ctx) [
    | none ↦ pass
    | some core ↦
        if ltb ctx.config.max_agent_orders_per_min (agent_rate ctx core)
        then reject "CB-7" (
            "agent "
            ++ core.agent_id
            ++ " order rate "
            ++ show_ℕ (agent_rate ctx core)
            ++ "/min exceeds max "
            ++ show_ℕ ctx.config.max_agent_orders_per_min
            ++ "/min")
        else pass
  ]

  abbrev pub error_rate : VenueErrorStats → Decimal
  error_rate stats = div (from_u32 stats.errors_last_5min) (from_u32 stats.total_last_5min)

  unfoldable pub cb8_check : CircuitBreakerContext E → CircuitBreakerResult
  cb8_check ctx = elim (order_core ctx) [
    | none ↦ pass
    | some core ↦ elim (lookup core.venue_id ctx.venue_error_stats) [
      | none ↦ pass
      | some stats ↦
          if ltb 0 stats.total_last_5min && lt ctx.config.max_venue_error_rate (error_rate stats)
          then reject "CB-8" (
              "venue "
              ++ core.venue_id
              ++ " error rate "
              ++ display_fixed 2 (error_rate stats)
              ++ " exceeds max "
              ++ display ctx.config.max_venue_error_rate)
          else pass
    ]
  ]

  -- CB-9, for a venue whose last heartbeat came `elapsed` seconds ago.
  cb9_age : CircuitBreakerContext E → String → ℤ → CircuitBreakerResult
  cb9_age ctx venue_id elapsed =
      if ltb_ℤ elapsed (pos 0)
      then reject "CB-9" (
          "venue "
          ++ venue_id
          ++ " heartbeat timestamp is "
          ++ show_ℕ (magnitude elapsed)
          ++ "s in the future — clock skew detected")
      else if ltb ctx.config.max_venue_disconnect_secs (pos_part elapsed)
      then reject "CB-9" (
          "venue "
          ++ venue_id
          ++ " last heartbeat "
          ++ show_ℕ (pos_part elapsed)
          ++ "s ago exceeds "
          ++ show_ℕ ctx.config.max_venue_disconnect_secs
          ++ "-second disconnect limit")
      else pass

  cb9_health :
      CircuitBreakerContext E → String → Option (VenueConnectionHealth E) → CircuitBreakerResult
  unfolding cb9_age debug_state
  cb9_health ctx venue_id none =
      reject "CB-9" ("no health record for venue " ++ venue_id ++ " — cannot verify connectivity")
  cb9_health ctx venue_id (some h) =
      if not (is_submittable E h)
      then reject "CB-9" (
          "venue "
          ++ venue_id
          ++ " is not in Connected state ("
          ++ debug_state E h.state
          ++ ") — submission blocked")
      else elim h.last_heartbeat_at [
        | none ↦ reject "CB-9" ("venue " ++ venue_id ++ " has never sent a heartbeat")
        | some last_hb ↦ cb9_age ctx venue_id (E.elapsed_secs ctx.now last_hb)
      ]

  unfoldable pub cb9_check : CircuitBreakerContext E → CircuitBreakerResult
  unfolding cb9_health
  cb9_check ctx = elim (order_core ctx) [
    | none ↦ pass
    | some core ↦ cb9_health ctx core.venue_id (lookup core.venue_id ctx.venue_health)
  ]

  unfoldable pub cb10_check : CircuitBreakerContext E → CircuitBreakerResult
  unfolding debug_mode
  cb10_check ctx = elim (order_core ctx) [
    | none ↦ pass
    | some core ↦
        if not core.dry_run && not (is_live ctx.execution_mode)
        then reject "CB-10" (
            "order has dry_run=false but engine is in "
            ++ debug_mode ctx.execution_mode
            ++ " mode — live submission blocked")
        else pass
  ]

  unfoldable pub cb11_check : CircuitBreakerContext E → CircuitBreakerResult
  cb11_check ctx =
      if ltb ctx.config.max_sequencer_queue_depth ctx.sequencer_queue_depth
      then reject "CB-11" (
          "sequencer queue depth "
          ++ show_ℕ ctx.sequencer_queue_depth
          ++ " exceeds max "
          ++ show_ℕ ctx.config.max_sequencer_queue_depth)
      else pass
