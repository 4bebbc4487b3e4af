-- ===== src/Lifecycle/Order.antt =====
-- crates/types/src/pipeline.rs: `LiveOrder`. A method that fails returns before it writes, so it
-- returns either the new order or the error.
use feynman_engine.Prelude.{
  ℕ, ◌+◌, ◌%◌, ◌^◌, Option, none, some, String, List, [], ◌∷◌, ◌++◌, length, if◌then◌else◌,
}
use feynman_engine.Prelude.Text.{◌++◌ as append}
use feynman_engine.Externs.{Externs, le}
use feynman_engine.Types.Order.{OrderCore}
use feynman_engine.Types.Pipeline.{
  PipelineOrder, Routed, RiskApprovalStamp, risk_approval, client_order_id,
}
use feynman_engine.Lifecycle.State.{
  Fill, FillSummary, CancelReason, VenueState, submitted, accepted, triggered, partially_filled,
  filled, venue_rejected, cancelled, expired, invalid_fill, Outcome, ok, err, ◌>>=◌, try_transition,
}

pub record LiveOrder (E : Externs) : Type 0 where
  pub core : OrderCore E
  pub client_order_id : String
  pub venue_order_id : Option String
  pub venue_state : VenueState E
  pub filled_qty : E.Decimal
  pub remaining_qty : E.Decimal
  pub avg_fill_price : Option E.Decimal
  pub fills : List (Fill E)
  pub risk_approval : RiskApprovalStamp E
  pub submitted_at : E.DateTime
  pub last_updated : E.DateTime

module _ (E : Externs) where
  open E use {Decimal, zero_dec, add, sub, mul, div, lt, display, DateTime}

  unfoldable pub from_routed : PipelineOrder E (Routed E) → DateTime → LiveOrder E
  from_routed order now = record {
    core = order.core;
    client_order_id = client_order_id E order;
    venue_order_id = none;
    venue_state = submitted;
    filled_qty = zero_dec;
    remaining_qty = order.core.qty;
    avg_fill_price = none;
    fills = [];
    risk_approval = risk_approval E order;
    submitted_at = now;
    last_updated = now;
  }

  abbrev pub zero_or : Option Decimal → Decimal
  zero_or none = zero_dec
  zero_or (some d) = d

  -- `iter().map(|f| f.fee).fold(acc, …)`
  unfoldable pub sum_fees : Decimal → List (Fill E) → Decimal
  sum_fees acc [] = acc
  sum_fees acc (f ∷ fs) = sum_fees (add acc f.fee) fs

  -- `as u32` of a length.
  abbrev pub u32_length : List (Fill E) → ℕ
  u32_length fs = length fs % 2 ^ 32

  unfoldable pub fill_summary : LiveOrder E → FillSummary E
  unfolding sum_fees
  fill_summary o = record {
    filled_qty = o.filled_qty;
    remaining_qty = o.remaining_qty;
    avg_fill_price = zero_or o.avg_fill_price;
    total_fee = sum_fees zero_dec o.fills;
    fill_count = u32_length o.fills;
  }

  -- `FillSummary::empty`
  unfoldable pub empty : Decimal → FillSummary E
  empty original_qty = record {
    filled_qty = zero_dec;
    remaining_qty = original_qty;
    avg_fill_price = zero_dec;
    total_fee = zero_dec;
    fill_count = 0;
  }

  unfoldable pub on_accepted : LiveOrder E → String → DateTime → Outcome E (LiveOrder E)
  on_accepted o venue_order_id now = do
    state ← try_transition E o.venue_state (accepted now)
    ok (record o { venue_state = state; venue_order_id = some venue_order_id; last_updated = now })

  unfoldable pub on_triggered : LiveOrder E → DateTime → Outcome E (LiveOrder E)
  on_triggered o now = do
    state ← try_transition E o.venue_state (triggered now)
    ok (record o { venue_state = state; last_updated = now })

  -- The summary that a fill leads to.
  unfoldable pub summary_after : LiveOrder E → Fill E → FillSummary E
  unfolding sum_fees
  summary_after o fill =
      let new_filled_qty = add o.filled_qty fill.qty in
      let total_filled_notional =
        add (mul (zero_or o.avg_fill_price) o.filled_qty) (mul fill.price fill.qty) in
      record {
        filled_qty = new_filled_qty;
        remaining_qty = sub o.remaining_qty fill.qty;
        avg_fill_price =
            if lt zero_dec new_filled_qty
            then div total_filled_notional new_filled_qty
            else zero_dec;
        total_fee = sum_fees fill.fee o.fills;
        fill_count = (length o.fills + 1) % 2 ^ 32;
      }

  abbrev pub state_after : FillSummary E → DateTime → VenueState E
  state_after summary now =
      if le E summary.remaining_qty zero_dec then filled summary now else partially_filled summary

  unfoldable pub on_fill : LiveOrder E → Fill E → DateTime → Outcome E (LiveOrder E)
  on_fill o fill now =
      let summary = summary_after o fill in
      if le E fill.qty zero_dec
      then err (invalid_fill "fill quantity must be positive")
      else if lt o.remaining_qty fill.qty
      then err (
          invalid_fill (
            append "fill quantity "
              (append (display fill.qty) (append " exceeds remaining " (display o.remaining_qty)))))
      else (do
        state ← try_transition E o.venue_state (state_after summary now)
        ok (record o {
          venue_state = state;
          filled_qty = summary.filled_qty;
          remaining_qty = summary.remaining_qty;
          avg_fill_price = some summary.avg_fill_price;
          fills = o.fills ++ (fill ∷ []);
          last_updated = now;
        }))

  unfoldable pub on_cancel : LiveOrder E → CancelReason → DateTime → Outcome E (LiveOrder E)
  unfolding fill_summary
  on_cancel o reason now = do
    state ← try_transition E o.venue_state (cancelled reason (fill_summary o) now)
    ok (record o { venue_state = state; last_updated = now })

  unfoldable pub on_reject : LiveOrder E → String → DateTime → Outcome E (LiveOrder E)
  on_reject o reason now = do
    state ← try_transition E o.venue_state (venue_rejected reason now)
    ok (record o { venue_state = state; last_updated = now })

  unfoldable pub on_expire : LiveOrder E → DateTime → Outcome E (LiveOrder E)
  unfolding fill_summary
  on_expire o now = do
    state ← try_transition E o.venue_state (expired (fill_summary o) now)
    ok (record o { venue_state = state; last_updated = now })

  -- What a venue may report, and the method that handles it.
  pub data VenueEvent : Type 0 where
    accept : String → DateTime → VenueEvent
    trigger : DateTime → VenueEvent
    fill : Fill E → DateTime → VenueEvent
    cancel : CancelReason → DateTime → VenueEvent
    reject : String → DateTime → VenueEvent
    expire : DateTime → VenueEvent

  unfoldable pub handle : LiveOrder E → VenueEvent → Outcome E (LiveOrder E)
  handle o (accept id now) = on_accepted o id now
  handle o (trigger now) = on_triggered o now
  handle o (fill f now) = on_fill o f now
  handle o (cancel reason now) = on_cancel o reason now
  handle o (reject reason now) = on_reject o reason now
  handle o (expire now) = on_expire o now

  -- A failed method leaves the order as it was.
  abbrev pub or_keep : LiveOrder E → Outcome E (LiveOrder E) → LiveOrder E
  or_keep o (ok o') = o'
  or_keep o (err e) = o

  unfoldable pub run : LiveOrder E → List VenueEvent → LiveOrder E
  run o [] = o
  run o (e ∷ es) = run (or_keep o (handle o e)) es
