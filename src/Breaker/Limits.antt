-- ===== src/Breaker/Limits.antt =====
-- The limits that the breakers enforce, stated on the quantities of the context, and that each check
-- passes exactly within its limit.
use feynman_engine.Prelude.{◌≤◌, ◌≡◌, ◌↔◌, Option, none, some, true, false, lookup, arith}
use feynman_engine.Prelude.Int.{pos, pos_part, ◌≤ℤ◌}
use feynman_engine.Externs.{Externs, le}
use feynman_engine.Types.Order.{OrderCore}
use feynman_engine.Types.Venue.{VenueConnectionHealth, is_submittable}
use feynman_engine.Breaker.Context.{VenueErrorStats, CircuitBreakerContext, pass, is_live}
use feynman_engine.Breaker.Checks.{
  positive_price, order_core, projected_gross, agent_rate, error_rate, cb1_check, cb2_check,
  cb6_check, cb7_check, cb8_check, cb9_check, cb10_check, cb11_check,
}
use feynman_engine.Breaker.Bank.{
  Cb3MaxFirmGrossNotional, Cb4FirmDailyLoss, Cb5FirmHourlyLoss, cb3_check, cb4_check, cb5_check,
}

module _ (E : Externs) where
  open E use {Decimal, zero_dec, mul, neg, lt, DateTime}

  -- A condition on the order, if there is one, and on its price, if that is positive.
  abbrev pub OnOrder : CircuitBreakerContext E → (OrderCore E → Type 0) → Type 0
  OnOrder ctx P = elim (order_core E ctx) [ none ↦ Unit | some core ↦ P core ]

  abbrev pub OnPriced : OrderCore E → (Decimal → Type 0) → Type 0
  OnPriced core P = elim (positive_price E core) [ none ↦ Unit | some price ↦ P price ]

  -- a ≤ b
  abbrev pub AtMost : Decimal → Decimal → Type 0
  AtMost a b = lt b a ≡ false

  abbrev pub NotionalWithin : CircuitBreakerContext E → OrderCore E → Type 0
  NotionalWithin ctx core =
      OnPriced core (λ price. AtMost (mul core.qty price) ctx.config.max_single_order_notional)

  abbrev pub ExposureWithin : CircuitBreakerContext E → OrderCore E → Type 0
  ExposureWithin ctx core = OnPriced core (λ price.
      AtMost (projected_gross E ctx core price) ctx.config.max_instrument_position_notional)

  abbrev pub ErrorsWithin : CircuitBreakerContext E → Option VenueErrorStats → Type 0
  ErrorsWithin ctx none = Unit
  ErrorsWithin ctx (some stats) =
      1 ≤ stats.total_last_5min → AtMost (error_rate E stats) ctx.config.max_venue_error_rate

  -- A heartbeat that is not ahead of the clock, and not too old.
  abbrev pub IsFresh : CircuitBreakerContext E → Option DateTime → Type 0
  IsFresh ctx none = ⊥
  IsFresh ctx (some last_hb) =
      (pos 0 ≤ℤ E.elapsed_secs ctx.now last_hb)
      × (pos_part (E.elapsed_secs ctx.now last_hb) ≤ ctx.config.max_venue_disconnect_secs)

  abbrev pub IsUp : CircuitBreakerContext E → Option (VenueConnectionHealth E) → Type 0
  IsUp ctx none = ⊥
  IsUp ctx (some h) = (is_submittable E h ≡ true) × IsFresh ctx h.last_heartbeat_at

  -- A loss of at most `pct` of the net asset value, if that is positive.
  abbrev pub LossWithin : CircuitBreakerContext E → Decimal → Decimal → Type 0
  LossWithin ctx pct pnl =
      le E ctx.firm_book.nav zero_dec ≡ false → AtMost (neg (mul pct ctx.firm_book.nav)) pnl

  -- What every order meets, a reduce-only order too.
  pub record MeetsOrderLimits (ctx : CircuitBreakerContext E) : Type 0 where
    pub dry_run_kept :
        OnOrder ctx (λ core. core.dry_run ≡ false → is_live ctx.execution_mode ≡ true)
    pub queue_within : ctx.sequencer_queue_depth ≤ ctx.config.max_sequencer_queue_depth
    pub exposure_within : OnOrder ctx (ExposureWithin ctx)
    pub firm_rate_within : ctx.firm_orders_last_60s ≤ ctx.config.max_firm_orders_per_min
    pub agent_rate_within :
        OnOrder ctx (λ core. agent_rate E ctx core ≤ ctx.config.max_agent_orders_per_min)
    pub errors_within :
        OnOrder ctx (λ core. ErrorsWithin ctx (lookup core.venue_id ctx.venue_error_stats))
    pub venue_up : OnOrder ctx (λ core. IsUp ctx (lookup core.venue_id ctx.venue_health))

  -- What a new order meets besides.
  pub record MeetsFirmLimits (ctx : CircuitBreakerContext E) : Type 0 where
    pub daily_within : LossWithin ctx ctx.config.max_daily_loss_pct ctx.firm_book.daily_pnl
    pub hourly_within : LossWithin ctx ctx.config.max_hourly_loss_pct ctx.firm_book.hourly_pnl
    pub gross_within : AtMost ctx.firm_book.gross_notional ctx.config.max_firm_gross_notional
    pub notional_within : OnOrder ctx (NotionalWithin ctx)

  module _ (ctx : CircuitBreakerContext E) where
    pub cb1_iff : (cb1_check E ctx ≡ pass) ↔ OnOrder ctx (NotionalWithin ctx)
    unfolding cb1_check
    cb1_iff = ground arith

    pub cb2_iff : (cb2_check E ctx ≡ pass) ↔ OnOrder ctx (ExposureWithin ctx)
    unfolding cb2_check
    cb2_iff = ground arith

    pub cb6_iff :
        (cb6_check E ctx ≡ pass) ↔ (ctx.firm_orders_last_60s ≤ ctx.config.max_firm_orders_per_min)
    unfolding cb6_check
    cb6_iff = ground arith

    pub cb7_iff :
        (cb7_check E ctx ≡ pass)
        ↔ OnOrder ctx (λ core. agent_rate E ctx core ≤ ctx.config.max_agent_orders_per_min)
    unfolding cb7_check
    cb7_iff = ground arith

    pub cb8_iff :
        (cb8_check E ctx ≡ pass)
        ↔ OnOrder ctx (λ core. ErrorsWithin ctx (lookup core.venue_id ctx.venue_error_stats))
    unfolding cb8_check
    cb8_iff = ground arith

    pub cb9_iff :
        (cb9_check E ctx ≡ pass)
        ↔ OnOrder ctx (λ core. IsUp ctx (lookup core.venue_id ctx.venue_health))
    unfolding cb9_check
    cb9_iff = ground arith

    pub cb10_iff :
        (cb10_check E ctx ≡ pass)
        ↔ OnOrder ctx (λ core. core.dry_run ≡ false → is_live ctx.execution_mode ≡ true)
    unfolding cb10_check
    cb10_iff = ground arith

    pub cb11_iff :
        (cb11_check E ctx ≡ pass)
        ↔ (ctx.sequencer_queue_depth ≤ ctx.config.max_sequencer_queue_depth)
    unfolding cb11_check
    cb11_iff = ground arith

    pub cb3_iff :
        (cb : Cb3MaxFirmGrossNotional)
        → cb.tripped ≡ false
        → (cb3_check E cb ctx ≡ pass)
          ↔ AtMost ctx.firm_book.gross_notional ctx.config.max_firm_gross_notional
    unfolding cb3_check
    cb3_iff cb h = ground arith

    pub cb4_iff :
        (cb : Cb4FirmDailyLoss)
        → cb.tripped ≡ false
        → (cb4_check E cb ctx ≡ pass)
          ↔ LossWithin ctx ctx.config.max_daily_loss_pct ctx.firm_book.daily_pnl
    unfolding cb4_check
    cb4_iff cb h = ground arith

    pub cb5_iff :
        (cb : Cb5FirmHourlyLoss)
        → cb.tripped ≡ false
        → (cb5_check E cb ctx ≡ pass)
          ↔ LossWithin ctx ctx.config.max_hourly_loss_pct ctx.firm_book.hourly_pnl
    unfolding cb5_check
    cb5_iff cb h = ground arith
