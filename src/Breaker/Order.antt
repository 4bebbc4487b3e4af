-- ===== src/Breaker/Order.antt =====
-- `check_all` of crates/risk/src/circuit_breaker.rs: which breakers an operation meets, in which
-- order they answer, and when all let it through. The single checks stay shut.
use feynman_engine.Prelude.{◌≡◌, ◌↔◌, false, List, [], ◌∷◌, arith, if◌then◌else◌}
use feynman_engine.Externs.{Externs}
use feynman_engine.Breaker.Context.{
  CircuitBreakerContext, CircuitBreakerResult, pass, reject, halt_all, new_order, reduce_only,
}
use feynman_engine.Breaker.Checks.{
  cb1_check, cb2_check, cb6_check, cb7_check, cb8_check, cb9_check, cb10_check, cb11_check,
}
use feynman_engine.Breaker.Bank.{
  CircuitBreakerBank, cb3_latched, cb4_latched, cb5_latched, cb3_check, cb4_check, cb5_check,
  check_all,
}
use feynman_engine.Breaker.Limits.{
  MeetsOrderLimits, MeetsFirmLimits, cb1_iff, cb2_iff, cb3_iff, cb4_iff, cb5_iff, cb6_iff, cb7_iff,
  cb8_iff, cb9_iff, cb10_iff, cb11_iff,
}

-- The first answer that is not `pass`.
abbrev pub first_block : List CircuitBreakerResult → CircuitBreakerResult
first_block [] = pass
first_block (pass ∷ rs) = first_block rs
first_block (reject id reason ∷ rs) = reject id reason
first_block (halt_all id reason ∷ rs) = halt_all id reason

module _ (E : Externs) where
  -- No latch is set.
  pub record IsOpen (b : CircuitBreakerBank) : Type 0 where
    pub cb3_open : b.cb3.tripped ≡ false
    pub cb4_open : b.cb4.tripped ≡ false
    pub cb5_open : b.cb5.tripped ≡ false

  record OrderChecksPass (ctx : CircuitBreakerContext E) : Type 0 where
    cb10 : cb10_check E ctx ≡ pass
    cb11 : cb11_check E ctx ≡ pass
    cb2 : cb2_check E ctx ≡ pass
    cb6 : cb6_check E ctx ≡ pass
    cb7 : cb7_check E ctx ≡ pass
    cb8 : cb8_check E ctx ≡ pass
    cb9 : cb9_check E ctx ≡ pass

  record FirmChecksPass (ctx : CircuitBreakerContext E) (b : CircuitBreakerBank) : Type 0 where
    cb4 : cb4_check E b.cb4 ctx ≡ pass
    cb5 : cb5_check E b.cb5 ctx ≡ pass
    cb3 : cb3_check E b.cb3 ctx ≡ pass
    cb1 : cb1_check E ctx ≡ pass

  module _ (ctx : CircuitBreakerContext E) (b : CircuitBreakerBank) where
    new_order_checks :
        ctx.operation_kind ≡ new_order
        → (check_all E ctx b).1 ≡ pass
        → IsOpen b × OrderChecksPass ctx × FirmChecksPass ctx b
    unfolding check_all
    new_order_checks k h = ground arith

    new_order_passes :
        ctx.operation_kind ≡ new_order
        → IsOpen b
        → OrderChecksPass ctx
        → FirmChecksPass ctx b
        → check_all E ctx b ≡ (b, pass)
    unfolding check_all
    new_order_passes k o p q = ground arith

    order_limits : OrderChecksPass ctx ↔ MeetsOrderLimits E ctx
    order_limits = (
      λ p. record {
        dry_run_kept = (cb10_iff E ctx).0 p.cb10;
        queue_within = (cb11_iff E ctx).0 p.cb11;
        exposure_within = (cb2_iff E ctx).0 p.cb2;
        firm_rate_within = (cb6_iff E ctx).0 p.cb6;
        agent_rate_within = (cb7_iff E ctx).0 p.cb7;
        errors_within = (cb8_iff E ctx).0 p.cb8;
        venue_up = (cb9_iff E ctx).0 p.cb9;
      },
      λ m. record {
        cb10 = (cb10_iff E ctx).1 m.dry_run_kept;
        cb11 = (cb11_iff E ctx).1 m.queue_within;
        cb2 = (cb2_iff E ctx).1 m.exposure_within;
        cb6 = (cb6_iff E ctx).1 m.firm_rate_within;
        cb7 = (cb7_iff E ctx).1 m.agent_rate_within;
        cb8 = (cb8_iff E ctx).1 m.errors_within;
        cb9 = (cb9_iff E ctx).1 m.venue_up;
      },
    )

    firm_limits : IsOpen b → FirmChecksPass ctx b ↔ MeetsFirmLimits E ctx
    firm_limits o = (
      λ p. record {
        daily_within = (cb4_iff E ctx b.cb4 o.cb4_open).0 p.cb4;
        hourly_within = (cb5_iff E ctx b.cb5 o.cb5_open).0 p.cb5;
        gross_within = (cb3_iff E ctx b.cb3 o.cb3_open).0 p.cb3;
        notional_within = (cb1_iff E ctx).0 p.cb1;
      },
      λ m. record {
        cb4 = (cb4_iff E ctx b.cb4 o.cb4_open).1 m.daily_within;
        cb5 = (cb5_iff E ctx b.cb5 o.cb5_open).1 m.hourly_within;
        cb3 = (cb3_iff E ctx b.cb3 o.cb3_open).1 m.gross_within;
        cb1 = (cb1_iff E ctx).1 m.notional_within;
      },
    )

    -- A new order that passes finds no breaker latched, and meets every limit.
    pub check_all_sound :
        ctx.operation_kind ≡ new_order
        → (check_all E ctx b).1 ≡ pass
        → IsOpen b × MeetsOrderLimits E ctx × MeetsFirmLimits E ctx
    check_all_sound k h =
        let (o, p, q) = new_order_checks k h in (o, order_limits.0 p, (firm_limits o).0 q)

    -- A new order that meets every limit while no breaker is latched passes, and latches none.
    pub check_all_complete :
        ctx.operation_kind ≡ new_order
        → IsOpen b
        → MeetsOrderLimits E ctx
        → MeetsFirmLimits E ctx
        → check_all E ctx b ≡ (b, pass)
    check_all_complete k o p q = new_order_passes k o (order_limits.1 p) ((firm_limits o).1 q)

    reduce_only_checks :
        ctx.operation_kind ≡ reduce_only → (check_all E ctx b).1 ≡ pass → OrderChecksPass ctx
    unfolding check_all
    reduce_only_checks k h = ground arith

    reduce_only_passes :
        ctx.operation_kind ≡ reduce_only → OrderChecksPass ctx → (check_all E ctx b).1 ≡ pass
    unfolding check_all
    reduce_only_passes k p = ground arith

    reduce_only_keeps : ctx.operation_kind ≡ reduce_only → (check_all E ctx b).0 ≡ b
    unfolding check_all
    reduce_only_keeps k = ground arith

    -- A reduce-only order passes exactly when it meets the limits on every order, whatever is
    -- latched and whatever the firm's losses, gross exposure and single-order cap say; and it
    -- leaves every latch as it is.
    pub check_all-reduce_only :
        ctx.operation_kind ≡ reduce_only
        → (((check_all E ctx b).1 ≡ pass) ↔ MeetsOrderLimits E ctx) × ((check_all E ctx b).0 ≡ b)
    check_all-reduce_only k = (
      (λ h. order_limits.0 (reduce_only_checks k h), λ m. reduce_only_passes k (order_limits.1 m)),
      reduce_only_keeps k,
    )

    -- The answer to a new order is the first that is not `pass` in this order: the latches of
    -- CB-4, CB-5 and CB-3, then CB-10, fresh CB-4, CB-5 and CB-3, then CB-11, CB-1, CB-2, CB-6,
    -- CB-7, CB-8 and CB-9.
    pub check_all-first_block :
        ctx.operation_kind ≡ new_order
        → (check_all E ctx b).1
          ≡ first_block (
              (if b.cb4.tripped then cb4_latched else pass)
              ∷ (if b.cb5.tripped then cb5_latched else pass)
              ∷ (if b.cb3.tripped then cb3_latched else pass)
              ∷ cb10_check E ctx
              ∷ cb4_check E b.cb4 ctx
              ∷ cb5_check E b.cb5 ctx
              ∷ cb3_check E b.cb3 ctx
              ∷ cb11_check E ctx
              ∷ cb1_check E ctx
              ∷ cb2_check E ctx
              ∷ cb6_check E ctx
              ∷ cb7_check E ctx
              ∷ cb8_check E ctx
              ∷ cb9_check E ctx
              ∷ [])
    unfolding check_all
    check_all-first_block k = ground arith
