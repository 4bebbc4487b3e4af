-- ===== src/Breaker/Bank.antt =====
-- crates/risk/src/circuit_breaker.rs: the breakers that latch (CB-3, CB-4, CB-5) and the bank that
-- runs all eleven. The eight others are unit structs, so the bank's state is the three latches.
use feynman_engine.Prelude.{Bool, true, false, not, ◌&&◌, ◌||◌, String, str_eq, if◌then◌else◌}
use feynman_engine.Prelude.Int.{pos}
use feynman_engine.Prelude.Text.{◌++◌}
use feynman_engine.Externs.{Externs, le}
use feynman_engine.Breaker.Context.{
  CircuitBreakerContext, CircuitBreakerResult, pass, reject, halt_all, ResetReason, manual_operator,
  cio_approval, is_cancel, is_reduce_only, is_halt_all, is_reject,
}
use feynman_engine.Breaker.Checks.{
  cb1_check, cb2_check, cb6_check, cb7_check, cb8_check, cb9_check, cb10_check, cb11_check,
}

pub record Cb3MaxFirmGrossNotional : Type 0 where
  pub tripped : Bool

pub record Cb4FirmDailyLoss : Type 0 where
  pub tripped : Bool

pub record Cb5FirmHourlyLoss : Type 0 where
  pub tripped : Bool

pub record CircuitBreakerBank : Type 0 where
  pub cb3 : Cb3MaxFirmGrossNotional
  pub cb4 : Cb4FirmDailyLoss
  pub cb5 : Cb5FirmHourlyLoss

-- `CircuitBreakerBank::new`
abbrev pub new : CircuitBreakerBank
new = record {
  cb3 = record { tripped = false };
  cb4 = record { tripped = false };
  cb5 = record { tripped = false };
}

abbrev pub cb3_latched : CircuitBreakerResult
cb3_latched = reject "CB-3" "firm gross notional limit latched — manual reset required"

abbrev pub cb4_latched : CircuitBreakerResult
cb4_latched = halt_all "CB-4" "daily loss halt latched — manual reset + CIO approval required"

abbrev pub cb5_latched : CircuitBreakerResult
cb5_latched = halt_all "CB-5" "hourly loss halt latched — manual reset required"

-- `latch` and `reset` of each, on the bank.
abbrev pub latch_cb3 : CircuitBreakerBank → CircuitBreakerBank
latch_cb3 b = record b { cb3 = record { tripped = true } }

abbrev pub latch_cb4 : CircuitBreakerBank → CircuitBreakerBank
latch_cb4 b = record b { cb4 = record { tripped = true } }

abbrev pub latch_cb5 : CircuitBreakerBank → CircuitBreakerBank
latch_cb5 b = record b { cb5 = record { tripped = true } }

abbrev pub reset_cb3 : CircuitBreakerBank → CircuitBreakerBank
reset_cb3 b = record b { cb3 = record { tripped = false } }

abbrev pub reset_cb4 : CircuitBreakerBank → CircuitBreakerBank
reset_cb4 b = record b { cb4 = record { tripped = false } }

abbrev pub reset_cb5 : CircuitBreakerBank → CircuitBreakerBank
reset_cb5 b = record b { cb5 = record { tripped = false } }

-- A step that may answer: any answer but `pass` is returned at once.
abbrev pub Check : Type 0
Check = CircuitBreakerBank → CircuitBreakerBank × CircuitBreakerResult

abbrev pub continue :
    CircuitBreakerBank × CircuitBreakerResult → Check → CircuitBreakerBank × CircuitBreakerResult
continue (b, pass) k = k b
continue (b, reject id reason) k = (b, reject id reason)
continue (b, halt_all id reason) k = (b, halt_all id reason)

infixl 5 ◌>>◌
abbrev pub ◌>>◌ : Check → Check → Check
◌>>◌ m k b = continue (m b) k

abbrev pub stateless : CircuitBreakerResult → Check
stateless r b = (b, r)

-- `if !is_reduce_only { … }`
abbrev pub unless : Bool → Check → Check
unless true m b = (b, pass)
unless false m b = m b

module _ (E : Externs) where
  open E use {Decimal, zero_dec, literal, mul, neg, lt, display, display_fixed}

  unfoldable pub cb3_check :
      Cb3MaxFirmGrossNotional → CircuitBreakerContext E → CircuitBreakerResult
  cb3_check cb ctx =
      if cb.tripped
      then cb3_latched
      else if lt ctx.config.max_firm_gross_notional ctx.firm_book.gross_notional
      then reject "CB-3" (
          "firm gross notional "
          ++ display ctx.firm_book.gross_notional
          ++ " exceeds max "
          ++ display ctx.config.max_firm_gross_notional)
      else pass

  -- The reason of a fresh loss halt.
  loss_reason : String → Decimal → Decimal → Decimal → String
  loss_reason period pnl pct max_loss =
      period
      ++ " P&L "
      ++ display pnl
      ++ " breached -"
      ++ display_fixed 1 (mul pct (literal (pos 100) 0))
      ++ "% NAV loss cap (limit: -"
      ++ display max_loss
      ++ ")"

  unfoldable pub cb4_check : Cb4FirmDailyLoss → CircuitBreakerContext E → CircuitBreakerResult
  unfolding loss_reason
  cb4_check cb ctx =
      let max_loss = mul ctx.config.max_daily_loss_pct ctx.firm_book.nav in
      if cb.tripped
      then cb4_latched
      else if le E ctx.firm_book.nav zero_dec
      then pass
      else if lt ctx.firm_book.daily_pnl (neg max_loss)
      then halt_all "CB-4"
          (loss_reason "daily" ctx.firm_book.daily_pnl ctx.config.max_daily_loss_pct max_loss)
      else pass

  unfoldable pub cb5_check : Cb5FirmHourlyLoss → CircuitBreakerContext E → CircuitBreakerResult
  unfolding loss_reason
  cb5_check cb ctx =
      let max_loss = mul ctx.config.max_hourly_loss_pct ctx.firm_book.nav in
      if cb.tripped
      then cb5_latched
      else if le E ctx.firm_book.nav zero_dec
      then pass
      else if lt ctx.firm_book.hourly_pnl (neg max_loss)
      then halt_all "CB-5"
          (loss_reason "hourly" ctx.firm_book.hourly_pnl ctx.config.max_hourly_loss_pct max_loss)
      else pass

  -- Steps 1 and 2 of `check_all`: the latches of an earlier call, CB-4 before CB-5 before CB-3.
  unfoldable pub check_latches : Bool → Check
  check_latches is_reduce b =
      if b.cb4.tripped && not is_reduce
      then (b, cb4_latched)
      else if b.cb5.tripped && not is_reduce
      then (b, cb5_latched)
      else if b.cb3.tripped && not is_reduce
      then (b, cb3_latched)
      else (b, pass)

  -- Steps 4 to 6: a fresh evaluation, which latches the breaker on its own kind of answer.
  unfoldable pub run_cb4 : CircuitBreakerContext E → Check
  run_cb4 ctx b = let r = cb4_check b.cb4 ctx in (if is_halt_all r then latch_cb4 b else b, r)

  unfoldable pub run_cb5 : CircuitBreakerContext E → Check
  run_cb5 ctx b = let r = cb5_check b.cb5 ctx in (if is_halt_all r then latch_cb5 b else b, r)

  unfoldable pub run_cb3 : CircuitBreakerContext E → Check
  run_cb3 ctx b = let r = cb3_check b.cb3 ctx in (if is_reject r then latch_cb3 b else b, r)

  -- Steps 3 to 6.
  unfoldable pub check_firm : CircuitBreakerContext E → Check
  check_firm ctx =
      let skip = is_reduce_only ctx.operation_kind in
      do
        stateless (cb10_check E ctx)
        unless skip (run_cb4 ctx)
        unless skip (run_cb5 ctx)
        unless skip (run_cb3 ctx)

  -- Steps 7 to 12.
  unfoldable pub check_order : CircuitBreakerContext E → Check
  check_order ctx = do
    stateless (cb11_check E ctx)
    unless (is_reduce_only ctx.operation_kind) (stateless (cb1_check E ctx))
    stateless (cb2_check E ctx)
    stateless (cb6_check E ctx)
    stateless (cb7_check E ctx)
    stateless (cb8_check E ctx)
    stateless (cb9_check E ctx)

  unfoldable pub check_all : CircuitBreakerContext E → Check
  unfolding check_latches check_firm check_order run_cb3 run_cb4 run_cb5
  check_all ctx b =
      if is_cancel ctx.operation_kind
      then (b, pass)
      else (do check_latches (is_reduce_only ctx.operation_kind); check_firm ctx; check_order ctx) b

-- The result of `reset`: `Err` carries the message of `RiskError::Rejected`.
pub data ResetResult : Type 0 where
  ok : ResetResult
  err : String → ResetResult

-- The arms of CB-4, which an operator alone cannot reset.
abbrev pub reset_daily : ResetReason → CircuitBreakerBank → CircuitBreakerBank × ResetResult
reset_daily (cio_approval approver) b = (reset_cb4 b, ok)
reset_daily (manual_operator operator) b =
    (b, err "CB-4 (daily loss halt) requires CIO approval to reset — use ResetReason::CioApproval")

unfoldable pub reset : String → ResetReason → CircuitBreakerBank → CircuitBreakerBank × ResetResult
reset breaker_id reason b =
    if str_eq breaker_id "CB-3"
    then (reset_cb3 b, ok)
    else if str_eq breaker_id "CB-4"
    then reset_daily reason b
    else if str_eq breaker_id "CB-5"
    then (reset_cb5 b, ok)
    else (b, err ("circuit breaker " ++ breaker_id ++ " is not resettable or does not exist"))

abbrev pub is_halt_active : CircuitBreakerBank → Bool
is_halt_active b = b.cb4.tripped || b.cb5.tripped

abbrev pub any_tripped : CircuitBreakerBank → Bool
any_tripped b = b.cb3.tripped || b.cb4.tripped || b.cb5.tripped
