-- ===== src/Gateway/Tests.antt =====
-- The gateway on the samples: a book, a paper adapter that has it, and an order of ten.
use feynman_engine.Gateway.Paper.{cancel_order}
use feynman_engine.Gateway.Paper.{disconnect}
use feynman_engine.Prelude.Int.{quot_ℤ}
use feynman_engine.Prelude.Int.{abs_ℤ}
use feynman_engine.Prelude.Text.{is_blank}
use feynman_engine.Prelude.Int.{◌*ℤ◌}
use feynman_engine.Types.Venue.{new}
use feynman_engine.Prelude.Int.{◌+ℤ◌}
use feynman_engine.Prelude.Int.{◌-ℤ◌}
use feynman_engine.Gateway.Simulator.{is_level_fillable}
use feynman_engine.Prelude.{
  ◌≡◌, ◌⊎◌, refl, none, some, true, false, String, List, [], ◌∷◌, lookup, insert, arith, str_eq,
  ◌&&◌, if◌then◌else◌,
}
use feynman_engine.Prelude.Int.{ℤ, pos}
use feynman_engine.Externs.FixedPoint.{fixed_point, exact, whole}
use feynman_engine.Types.Order.{gtc, fok, buy}
use feynman_engine.Types.Portfolio.{AgentAllocation, active}
use feynman_engine.Types.Market.{OrderbookSnapshot, validate}
use feynman_engine.Gateway.Errors.{Result, ok, err, venue_rejected}
use feynman_engine.Gateway.Simulator.{
  FillSimulationOutcome, resting, simulate, walk, check_order, price_limit, top_of_book,
}
use feynman_engine.Gateway.Depth.{FitsDepth, depth, simulate-FitsDepth}
use feynman_engine.Gateway.Symbols.{empty_map, insert_symbol, instrument_for, forward_lookup}
use feynman_engine.Gateway.Listings.{IsConsistent, insert_symbol-IsConsistent}
use feynman_engine.Gateway.Submission.{no_actions, order_core_from_submission}
use feynman_engine.Gateway.Paper.{PaperAdapter, new_adapter, connect, take_post_ack_actions}
use feynman_engine.Gateway.Place.{submit_order, check_submission, ack_of, open_order, outcome_of}
use feynman_engine.Gateway.Reprice.{replace_orderbook}
use feynman_engine.Gateway.Resubmit.{submit_order_twice, submit_order-fok}
use feynman_engine.Gateway.Ledger.{IsPartial}
use feynman_engine.Gateway.Conserving.{simulate-IsConserving}
use feynman_engine.Gateway.Calls.{
  Call, run, step, connects, replaces, submits, takes, cancels, disconnects, open_orders-IsPartial,
}
use feynman_engine.Externs.{is_zero}
use feynman_engine.Types.Pipeline.{PipelineOrder, Draft}
use feynman_engine.Gateway.Symbols.{VenueSymbol, venues_for}
use feynman_engine.Gateway.Bridge.{
  highest_available_balance, select_venue, signal_to_orders, draft_order,
}
use feynman_engine.Gateway.Served.{Permits}
use feynman_engine.Gateway.Routing.{IsServed, IsRichest, select_venue-IsServed}
use feynman_engine.Gateway.Drafts.{IsDraftOf, signal_to_orders-IsDraftOf}
use feynman_engine.Gateway.Actions.{actions_of, acknowledged_takes}
use feynman_engine.Gateway.Samples.{
  book, calculate, simulator, adapter, submission, order, listed_map, state, bridge, signal, firm,
  prices,
}

abbrev outcome : Result (FillSimulationOutcome fixed_point) → FillSimulationOutcome fixed_point
outcome (ok o) = o
outcome (err e) = resting

abbrev filled : FillSimulationOutcome fixed_point
filled = outcome (simulator order "v-1" book)

order_simulates : simulate fixed_point calculate order "v-1" book ≡ ok filled
unfolding simulate walk check_order price_limit top_of_book validate order_core_from_submission
    is_level_fillable ◌-ℤ◌ ◌+ℤ◌
order_simulates = refl

simulate-FitsDepth_example :
    FitsDepth fixed_point exact order
      (depth fixed_point exact buy (some (whole 100)) book.asks)
      filled
unfolding is_level_fillable order_core_from_submission
simulate-FitsDepth_example =
    simulate-FitsDepth fixed_point exact calculate order "v-1" book filled order_simulates

submitted :
    lookup "paper-c-1"
      (run fixed_point (new_adapter fixed_point "sim" simulator) (
        connects (pos 1)
        ∷ replaces book
        ∷ submits (submission gtc (whole 100))
        ∷ [])).state.open_orders
    ≡ some (open_order fixed_point (submission gtc (whole 100)) book (whole 4))
unfolding lookup run step submit_order check_submission replace_orderbook connect new_adapter
    validate insert simulate walk is_level_fillable ◌-ℤ◌ ◌+ℤ◌
submitted = refl

-- A good-till-cancelled order of ten finds four at its price: six stay open.
open_orders-IsPartial_example :
    IsPartial fixed_point exact (open_order fixed_point (submission gtc (whole 100)) book (whole 4))
open_orders-IsPartial_example =
    open_orders-IsPartial fixed_point exact "sim" simulator
      (connects (pos 1) ∷ replaces book ∷ submits (submission gtc (whole 100)) ∷ []) "paper-c-1"
      (open_order fixed_point (submission gtc (whole 100)) book (whole 4))
      (simulate-IsConserving fixed_point exact calculate) submitted

acknowledged :
    (submit_order fixed_point adapter (submission gtc (whole 100))).1
    ≡ ok (ack_of fixed_point (submission gtc (whole 100)) book)
unfolding submit_order check_submission run step replace_orderbook connect new_adapter validate
    lookup insert simulate walk is_level_fillable ◌-ℤ◌ ◌+ℤ◌
acknowledged = refl

new_client : lookup "c-1" adapter.state.idempotency_cache ≡ none
unfolding lookup run step replace_orderbook connect new_adapter validate
new_client = refl

acknowledged_takes_example :
    let taken =
      take_post_ack_actions fixed_point
        (submit_order fixed_point adapter (submission gtc (whole 100))).0
        "paper-c-1" in
    (b : OrderbookSnapshot fixed_point) × (outcome : FillSimulationOutcome fixed_point) × (lookup
        "BTC-PERP" adapter.state.orderbooks
      ≡ some b)
    × (outcome_of fixed_point adapter (submission gtc (whole 100)) b ≡ ok outcome)
    × (taken.1 ≡ ok (actions_of fixed_point (submission gtc (whole 100)) outcome))
    × ((take_post_ack_actions fixed_point taken.0 "paper-c-1").1 ≡ ok (no_actions fixed_point))
acknowledged_takes_example =
    acknowledged_takes fixed_point exact adapter (submission gtc (whole 100))
      (ack_of fixed_point (submission gtc (whole 100)) book) new_client acknowledged

-- The actions are taken, the rest of the order is cancelled, and the venue reconnects.
abbrev between : List (Call fixed_point)
between = takes "paper-c-1" ∷ cancels "paper-c-1" ∷ disconnects ∷ connects (pos 7) ∷ []

abbrev later : PaperAdapter fixed_point
later = run fixed_point (submit_order fixed_point adapter (submission gtc (whole 100))).0 between

checked_again : check_submission fixed_point later (submission fok (whole 101)) ≡ ok tt
unfolding check_submission submit_order run step replace_orderbook connect new_adapter validate
    lookup insert simulate walk is_level_fillable ◌-ℤ◌ ◌+ℤ◌ disconnect cancel_order
    take_post_ack_actions
checked_again = refl

submit_order_twice_example :
    submit_order fixed_point later (submission fok (whole 101))
    ≡ (later, ok (ack_of fixed_point (submission gtc (whole 100)) book))
submit_order_twice_example =
    submit_order_twice fixed_point adapter (submission gtc (whole 100)) (submission fok (whole 101))
      (ack_of fixed_point (submission gtc (whole 100)) book) between acknowledged refl checked_again

checked : check_submission fixed_point adapter (submission fok (whole 90)) ≡ ok tt
unfolding check_submission run step replace_orderbook connect new_adapter validate
checked = refl

fresh : lookup "c-1" adapter.state.idempotency_cache ≡ none
unfolding lookup run step replace_orderbook connect new_adapter validate
fresh = refl

booked : lookup "BTC-PERP" adapter.state.orderbooks ≡ some book
unfolding lookup run step replace_orderbook connect new_adapter validate insert
booked = refl

rests : outcome_of fixed_point adapter (submission fok (whole 90)) book ≡ ok resting
unfolding run step replace_orderbook connect new_adapter validate simulate
    order_core_from_submission walk is_level_fillable
rests = refl

submit_order-fok_example :
    let a = (submit_order fixed_point adapter (submission fok (whole 90))).0 in
    ((submit_order fixed_point adapter (submission fok (whole 90))).1
      ≡ err (venue_rejected "FOK order could not be fully filled on paper adapter"))
    × (submit_order fixed_point a (submission fok (whole 90))
        ≡ (a, ok (ack_of fixed_point (submission fok (whole 90)) book)))
submit_order-fok_example =
    submit_order-fok fixed_point adapter (submission fok (whole 90)) book checked fresh booked rests
      refl

empty_map-IsConsistent : IsConsistent empty_map
unfolding instrument_for forward_lookup lookup
empty_map-IsConsistent v s i = ground arith

inserted : insert_symbol "sim" "BTC-PERP" "BTC" empty_map ≡ ok listed_map
unfolding insert_symbol
inserted = refl

insert_symbol-IsConsistent_example :
    IsConsistent listed_map
    × ((v s : String)
        → instrument_for v s listed_map ≡ (
            if str_eq "sim" v && str_eq "BTC-PERP" s
            then some "BTC"
            else instrument_for v s empty_map))
insert_symbol-IsConsistent_example =
    insert_symbol-IsConsistent empty_map listed_map "sim" "BTC-PERP" "BTC" empty_map-IsConsistent
      inserted

selected :
    select_venue fixed_point bridge signal none (state ∷ [])
    ≡ ok (record { venue_id = "sim"; symbol = "BTC-PERP" })
unfolding select_venue lookup insert new
selected = refl

select_venue-IsServed_example :
    let listings = venues_for "BTC" listed_map in
    let venue : VenueSymbol = record { venue_id = "sim"; symbol = "BTC-PERP" } in
    Permits fixed_point none "BTC"
    × IsServed fixed_point listings none (state ∷ []) venue
    × IsRichest fixed_point highest_available_balance listings none (state ∷ []) venue
select_venue-IsServed_example =
    select_venue-IsServed fixed_point exact bridge signal none (state ∷ [])
      (record { venue_id = "sim"; symbol = "BTC-PERP" }) selected

drafted :
    signal_to_orders fixed_point bridge signal firm none prices (state ∷ []) (pos 8)
    ≡ ok (
        draft_order fixed_point bridge signal
          (whole 100)
          (whole 2500)
          (record { venue_id = "sim"; symbol = "BTC-PERP" })
          (pos 8)
        ∷ [])
unfolding signal_to_orders ◌*ℤ◌ is_blank lookup abs_ℤ ◌-ℤ◌ quot_ℤ insert new
drafted = refl

signal_to_orders-IsDraftOf_example :
    let draft =
      draft_order fixed_point bridge signal
        (whole 100)
        (whole 2500)
        (record { venue_id = "sim"; symbol = "BTC-PERP" })
        (pos 8) in
    (allocation : AgentAllocation fixed_point) × (lookup "alpha" firm.agent_allocations
      ≡ some allocation)
    × (allocation.status ≡ active)
    × (((is_zero fixed_point signal.conviction ≡ true) × (draft ∷ [] ≡ []))
        ⊎ ((is_zero fixed_point signal.conviction ≡ false)
            × ((price : ℤ) × (venue : VenueSymbol) × (o : PipelineOrder fixed_point Draft) × (draft
                    ∷ []
                  ≡ o ∷ [])
                × IsDraftOf fixed_point bridge signal none
                    (state ∷ [])
                    allocation
                    prices
                    price
                    venue
                    o)))
signal_to_orders-IsDraftOf_example =
    signal_to_orders-IsDraftOf fixed_point bridge signal none (state ∷ []) exact firm prices (pos 8)
      (draft_order fixed_point bridge signal (whole 100) (whole 2500)
          (record { venue_id = "sim"; symbol = "BTC-PERP" }) (pos 8)
        ∷ [])
      drafted
