-- ===== src/Breaker/Latch.antt =====
-- The latches of CB-3, CB-4 and CB-5 in crates/risk/src/circuit_breaker.rs over whole runs of
-- `check_all` and `reset`.
use feynman_engine.Prelude.{
  ◌≡◌, ◌≢◌, ◌⊎◌, inl, inr, Bool, true, false, String, List, [], ◌∷◌, All, Any, arith, eq_iff, ◌↔◌,
  refl, Bool-cases,
}
use feynman_engine.Externs.{Externs, le}
use feynman_engine.Breaker.Context.{
  CircuitBreakerContext, new_order, ResetReason, manual_operator, cio_approval, is_halt_all,
}
use feynman_engine.Breaker.Checks.{
  cb1_check, cb2_check, cb6_check, cb7_check, cb8_check, cb9_check, cb10_check, cb11_check,
}
use feynman_engine.Breaker.Bank.{
  CircuitBreakerBank, cb4_latched, cb3_check, cb4_check, check_all, ok, reset, is_halt_active, new,
}

abbrev pub is_cio : ResetReason → Bool
is_cio (cio_approval _) = true
is_cio (manual_operator _) = false

-- The resets that succeed.
abbrev pub MayReset : String → ResetReason → Type 0
MayReset id reason = (id ≡ "CB-3") ⊎ ((id ≡ "CB-4") × (is_cio reason ≡ true)) ⊎ (id ≡ "CB-5")

module _ (E : Externs) where
  -- A call of the bank.
  pub data Call : Type 0 where
    check : CircuitBreakerContext E → Call
    clear : String → ResetReason → Call

  abbrev pub step : Call → CircuitBreakerBank → CircuitBreakerBank
  step (check ctx) b = (check_all E ctx b).0
  step (clear id reason) b = (reset id reason b).0

  unfoldable pub run : List Call → CircuitBreakerBank → CircuitBreakerBank
  run [] b = b
  run (c ∷ cs) b = run cs (step c b)

  -- The fresh checks other than CB-4 and CB-5 never halt.
  module _ (ctx : CircuitBreakerContext E) where
    never_halts :
        (is_halt_all (cb10_check E ctx) ≡ false)
        × (is_halt_all (cb11_check E ctx) ≡ false)
        × (is_halt_all (cb1_check E ctx) ≡ false)
        × (is_halt_all (cb2_check E ctx) ≡ false)
        × (is_halt_all (cb6_check E ctx) ≡ false)
        × (is_halt_all (cb7_check E ctx) ≡ false)
        × (is_halt_all (cb8_check E ctx) ≡ false)
        × (is_halt_all (cb9_check E ctx) ≡ false)
    unfolding cb1_check cb2_check cb6_check cb7_check cb8_check cb9_check cb10_check cb11_check
    never_halts = (
      ground arith,
      ground arith,
      ground arith,
      ground arith,
      ground arith,
      ground arith,
      ground arith,
      ground arith,
    )

    cb3_never_halts : (b : CircuitBreakerBank) → is_halt_all (cb3_check E b.cb3 ctx) ≡ false
    unfolding cb3_check
    cb3_never_halts b = ground arith

    -- When `check_all` answers with a halt, a halt is active afterwards; and when a halt is active
    -- before, it is active afterwards.
    pub check_all-is_halt_active :
        (b : CircuitBreakerBank)
        → (is_halt_all (check_all E ctx b).1 ≡ true) ⊎ (is_halt_active b ≡ true)
        → is_halt_active (check_all E ctx b).0 ≡ true
    unfolding check_all
    check_all-is_halt_active b h = ground (arith, never_halts, cb3_never_halts b)

    -- Each latch that was set is still set.
    check_all_keeps :
        (b : CircuitBreakerBank)
        → (b.cb3.tripped ≡ true → (check_all E ctx b).0.cb3.tripped ≡ true)
          × (b.cb4.tripped ≡ true → (check_all E ctx b).0.cb4.tripped ≡ true)
          × (b.cb5.tripped ≡ true → (check_all E ctx b).0.cb5.tripped ≡ true)
    unfolding check_all
    check_all_keeps b = ground arith

    -- A fresh daily loss beyond the cap, met by a new order.
    pub record DailyBreach : Type 0 where
      pub new : ctx.operation_kind ≡ new_order
      pub solvent : le E ctx.firm_book.nav E.zero_dec ≡ false
      pub beyond :
          E.lt ctx.firm_book.daily_pnl
            (E.neg (E.mul ctx.config.max_daily_loss_pct ctx.firm_book.nav))
          ≡ true

    cb4_latches_on_breach :
        (b : CircuitBreakerBank)
        → b.cb4.tripped ≡ false
        → (check_all E ctx b).0.cb4.tripped ≡ true
        → DailyBreach
    unfolding check_all cb4_check
    cb4_latches_on_breach b h t = ground arith

    cb4_blocks :
        (b : CircuitBreakerBank)
        → b.cb4.tripped ≡ true
        → ctx.operation_kind ≡ new_order
        → check_all E ctx b ≡ (b, cb4_latched)
    unfolding check_all
    cb4_blocks b t k = ground arith

  -- Any call but a reset of CB-4 that the CIO approved.
  abbrev pub KeepsDailyHalt : Call → Type 0
  KeepsDailyHalt (check ctx) = Unit
  KeepsDailyHalt (clear id reason) = (id ≢ "CB-4") ⊎ (is_cio reason ≡ false)

  reset_keeps_daily :
      (id : String) (reason : ResetReason) (b : CircuitBreakerBank)
      → b.cb4.tripped ≡ true
      → (id ≢ "CB-4") ⊎ (is_cio reason ≡ false)
      → (reset id reason b).0.cb4.tripped ≡ true
  unfolding reset
  reset_keeps_daily id reason b t h = ground (arith, eq_iff id "CB-4")

  run_keeps_daily :
      (cs : List Call) (b : CircuitBreakerBank)
      → b.cb4.tripped ≡ true
      → All KeepsDailyHalt cs
      → (run cs b).cb4.tripped ≡ true
  unfolding run
  run_keeps_daily [] b t h = t
  run_keeps_daily (check ctx ∷ cs) b t h =
      run_keeps_daily cs (step (check ctx) b) ((check_all_keeps ctx b).1 t) h.1
  run_keeps_daily (clear id reason ∷ cs) b t h =
      run_keeps_daily cs (step (clear id reason) b) (reset_keeps_daily id reason b t h.0) h.1

  -- Once the daily loss halt is latched, after any calls among which no reset of CB-4 carries the
  -- CIO's approval, every new order is still answered by that halt.
  pub daily_halt_lasts :
      (cs : List Call) (b : CircuitBreakerBank) (ctx : CircuitBreakerContext E)
      → b.cb4.tripped ≡ true
      → All KeepsDailyHalt cs
      → ctx.operation_kind ≡ new_order
      → check_all E ctx (run cs b) ≡ (run cs b, cb4_latched)
  daily_halt_lasts cs b ctx t h k = cb4_blocks ctx (run cs b) (run_keeps_daily cs b t h) k

  abbrev pub IsBreachingCheck : Call → Type 0
  IsBreachingCheck (check ctx) = DailyBreach ctx
  IsBreachingCheck (clear id reason) = ⊥

  reset_never_latches :
      (id : String) (reason : ResetReason) (b : CircuitBreakerBank)
      → b.cb4.tripped ≡ false
      → (reset id reason b).0.cb4.tripped ≡ false
  unfolding reset
  reset_never_latches id reason b t = ground arith

  breach_behind_latch :
      (cs : List Call) (b : CircuitBreakerBank)
      → b.cb4.tripped ≡ false
      → (run cs b).cb4.tripped ≡ true
      → Any IsBreachingCheck cs
  unfolding run
  breach_behind_latch [] b f t = cc
  breach_behind_latch (check ctx ∷ cs) b f t = elim (Bool-cases (check_all E ctx b).0.cb4.tripped) [
    | inl now ↦ inl (cb4_latches_on_breach ctx b f now)
    | inr later ↦ inr (breach_behind_latch cs (step (check ctx) b) later t)
  ]
  breach_behind_latch (clear id reason ∷ cs) b f t =
      inr (breach_behind_latch cs (step (clear id reason) b) (reset_never_latches id reason b f) t)

  -- The daily loss halt is latched after a run from a new bank only if some check of the run was of
  -- a new order, at a positive net asset value, with a daily loss beyond the cap.
  pub daily_halt_needs_breach :
      (cs : List Call) → (run cs new).cb4.tripped ≡ true → Any IsBreachingCheck cs
  daily_halt_needs_breach cs t = breach_behind_latch cs new refl t

reset_ok :
    (id : String) (reason : ResetReason) (b : CircuitBreakerBank)
    → ((reset id reason b).1 ≡ ok) ↔ MayReset id reason
unfolding reset
reset_ok id reason b =
    ground (arith, eq_iff id "CB-3", eq_iff id "CB-4", eq_iff id "CB-5", eq_iff "CB-4" "CB-5")

reset_named :
    (id : String) (reason : ResetReason) (b : CircuitBreakerBank)
    → MayReset id reason
    → (id ≡ "CB-3" → (reset id reason b).0 ≡ record b { cb3 = record { tripped = false } })
      × (id ≡ "CB-4" → (reset id reason b).0 ≡ record b { cb4 = record { tripped = false } })
      × (id ≡ "CB-5" → (reset id reason b).0 ≡ record b { cb5 = record { tripped = false } })
unfolding reset
reset_named id reason b h = ground (
  arith,
  eq_iff id "CB-3",
  eq_iff id "CB-4",
  eq_iff id "CB-5",
  eq_iff "CB-4" "CB-3",
  eq_iff "CB-5" "CB-3",
  eq_iff "CB-5" "CB-4",
)

-- A reset succeeds exactly for CB-3, for CB-5, and for CB-4 with the CIO's approval. A refused
-- reset leaves the bank as it was; one that succeeds sets the latch that it names to untripped and
-- leaves every other field of the bank.
pub reset_lem :
    (id : String) (reason : ResetReason) (b : CircuitBreakerBank)
    → (((reset id reason b).1 ≡ ok) ↔ MayReset id reason)
      × ((reset id reason b).1 ≢ ok → (reset id reason b).0 ≡ b)
      × (MayReset id reason
          → (id ≡ "CB-3" → (reset id reason b).0 ≡ record b { cb3 = record { tripped = false } })
            × (id ≡ "CB-4" → (reset id reason b).0 ≡ record b { cb4 = record { tripped = false } })
            × (id ≡ "CB-5" → (reset id reason b).0 ≡ record b { cb5 = record { tripped = false } }))
unfolding reset
reset_lem id reason b = (reset_ok id reason b, ground arith, reset_named id reason b)
