-- ===== src/Projection.antt =====
-- crates/risk/src/lib.rs: the exposure of a book after one more trade. A book is given by its net
-- and gross exposure, which stand for a long and a short side.
pub mod LongShort
mod Tests
use feynman_engine.Prelude.{not, if◌then◌else◌, ◌+◌}
use feynman_engine.Prelude.Int.{pos}
use feynman_engine.Externs.{Externs, min, le}
use feynman_engine.Types.Order.{Side, buy, sell}

module _ (E : Externs) where
  open E use {Decimal, zero_dec, literal, add, sub, div, neg, abs, lt}

  abbrev pub two : Decimal
  two = literal (pos 2) 0

  -- The two sides of a book.
  abbrev pub long_side : Decimal → Decimal → Decimal
  long_side net gross = div (add gross net) two

  abbrev pub short_side : Decimal → Decimal → Decimal
  short_side net gross = div (sub gross net) two

  -- A buy covers the short side first; a sale reduces the long side first.
  abbrev pub trade : Decimal → Decimal → Decimal → Decimal × Decimal
  trade long short signed_delta =
      if le E zero_dec signed_delta
      then (let reduction = min E signed_delta short in
          (add long (sub signed_delta reduction), sub short reduction))
      else (let sell_qty = abs signed_delta in
          let reduction = min E sell_qty long in
          (sub long reduction, add short (sub sell_qty reduction)))

  unfoldable pub project_net_and_gross : Decimal → Decimal → Decimal → Decimal × Decimal
  project_net_and_gross current_net current_gross signed_delta =
      let (long, short) =
        trade (long_side current_net current_gross) (short_side current_net current_gross)
          signed_delta in
      (sub long short, add long short)

  -- `AgentRiskManager::signed_delta`, and the same `match` in CB-2.
  abbrev pub signed_delta : Side → Decimal → Decimal
  signed_delta buy qty = qty
  signed_delta sell qty = neg qty
