-- ===== src/Types/Fees.antt =====
-- crates/types/src/fees.rs: what the fee model returns. The trait `FeeModel` has no implementation
-- in the repository; the gateway calls its `calculate`.
use feynman_engine.Prelude.{String}
use feynman_engine.Prelude.Text.{◌++◌}
use feynman_engine.Externs.{Externs}

pub data FeeError : Type 0 where
  no_schedule : String → FeeError
  no_instrument_schedule : String → String → FeeError
  calculation : String → FeeError

unfoldable pub show_fee_error : FeeError → String
show_fee_error (no_schedule venue) = "no fee schedule for venue " ++ venue
show_fee_error (no_instrument_schedule instrument venue) =
    "no fee schedule for instrument " ++ (instrument ++ (" on venue " ++ venue))
show_fee_error (calculation text) = "fee calculation failed: " ++ text

pub record FeeEstimate (E : Externs) : Type 0 where
  pub as_maker : E.Decimal
  pub as_taker : E.Decimal
  pub worst_case : E.Decimal
  pub gas_estimate : E.Decimal

pub record Fee (E : Externs) : Type 0 where
  pub trading_fee : E.Decimal
  pub gas_fee : E.Decimal
  pub rebate : E.Decimal
  pub funding_fee : E.Decimal
  pub net : E.Decimal

-- `Result<Fee, FeeError>`
pub data FeeResult (E : Externs) : Type 0 where
  fee : Fee E → FeeResult E
  no_fee : FeeError → FeeResult E
