-- ===== src/Lifecycle/Tests.antt =====
-- An order of ten that is accepted, filled in two parts, and then left alone.
use feynman_engine.Prelude.{
  ℕ, ◌≡◌, ◌↔◌, ◌≤◌, refl, none, some, false, true, List, [], ◌∷◌, ◌++◌, Any, arith, if◌then◌else◌,
}
use feynman_engine.Prelude.Int.{pos, ◌+ℤ◌, ◌-ℤ◌, ◌*ℤ◌, quot_ℤ}
use feynman_engine.Externs.FixedPoint.{fixed_point, exact, whole}
use feynman_engine.Externs.Arithmetic.{above}
use feynman_engine.Types.Order.{OrderCore, buy, limit, gtc}
use feynman_engine.Types.Pipeline.{PipelineOrder, Routed}
use feynman_engine.Lifecycle.State.{
  Fill, VenueState, filled, partially_filled, ok, is_terminal, try_transition, user_requested,
}
use feynman_engine.Lifecycle.Order.{
  LiveOrder, VenueEvent, accept, fill, cancel, expire, from_routed, handle, or_keep, on_fill, run,
  on_accepted, on_expire, summary_after,
}
use feynman_engine.Lifecycle.Quantities.{
  IsConsistent, total, FillsFit, run-IsConsistent, run_identity, never_overfilled,
}
use feynman_engine.Lifecycle.Graph.{
  ◌⟶◌, IsAccept, IsTakeable, handle-⟶, run-is_terminal, run_needs-IsAccept, on_fill_iff, is_ok,
}

abbrev core : OrderCore fixed_point
core = record {
  id = "o-1";
  basket_id = none;
  agent_id = "alpha";
  instrument_id = "BTC";
  market_id = "BTC-PERP";
  venue_id = "hyper";
  side = buy;
  order_type = limit;
  time_in_force = gtc;
  qty = whole 10;
  price = some (whole 100);
  trigger_price = none;
  stop_loss = none;
  take_profit = none;
  post_only = false;
  reduce_only = false;
  dry_run = false;
  exec_hint = record { allow_emulation = false };
  created_at = pos 0;
}

abbrev routed : PipelineOrder fixed_point (Routed fixed_point)
routed = record {
  core = core;
  stage = record {
    validated_at = pos 1;
    approval = record { approved_at = pos 2; checks_performed = []; warnings = [] };
    routing = record {
      venue_id = "hyper";
      client_order_id = "alpha-3-000000-r01";
      routed_at = pos 3;
    };
  };
}

abbrev part : ℕ → Fill fixed_point
part n = record {
  order_id = "o-1";
  venue_order_id = "v-1";
  instrument_id = "BTC";
  side = buy;
  qty = whole n;
  price = whole 100;
  fee = pos 10;
  filled_at = pos 5;
  is_maker = true;
}

abbrev events : List (VenueEvent fixed_point)
events = accept "v-1" (pos 4) ∷ fill (part 4) (pos 5) ∷ expire (pos 6) ∷ fill (part 6) (pos 7) ∷ []

abbrev fresh : LiveOrder fixed_point
fresh = from_routed fixed_point routed (pos 3)

never_overfilled_example :
    FillsFit fixed_point exact
      (run fixed_point fresh events).venue_state
      (total fixed_point exact (run fixed_point fresh events).fills)
      (above fixed_point exact (whole 10))
    × (total fixed_point exact (run fixed_point fresh events).fills
        ≤ above fixed_point exact (whole 10))
never_overfilled_example = never_overfilled fixed_point exact routed (pos 3) events refl

run-IsConsistent_example : IsConsistent fixed_point exact (run fixed_point fresh events)
unfolding from_routed
run-IsConsistent_example = run-IsConsistent fixed_point exact fresh events (ground arith)

run_identity_example :
    let o' = run fixed_point fresh events in
    (o'.core ≡ fresh.core)
    × (o'.client_order_id ≡ fresh.client_order_id)
    × (o'.risk_approval ≡ fresh.risk_approval)
    × (o'.submitted_at ≡ fresh.submitted_at)
run_identity_example = run_identity fixed_point exact fresh events

abbrev opened : LiveOrder fixed_point
opened = or_keep fixed_point fresh (handle fixed_point fresh (accept "v-1" (pos 4)))

handle-⟶_example :
    ((to : VenueState fixed_point)
      → (try_transition fixed_point fresh.venue_state to ≡ ok to) ↔ (fresh.venue_state ⟶ to))
    × (handle fixed_point fresh (accept "v-1" (pos 4)) ≡ ok opened
        → fresh.venue_state ⟶ opened.venue_state)
handle-⟶_example = handle-⟶ fixed_point fresh opened (accept "v-1" (pos 4))

abbrev done : LiveOrder fixed_point
done = run fixed_point fresh events

done_filled : is_terminal fixed_point done.venue_state ≡ true
unfolding run handle on_accepted on_fill from_routed try_transition summary_after ◌+ℤ◌ ◌-ℤ◌ ◌*ℤ◌
    quot_ℤ on_expire
done_filled = refl

run-is_terminal_example : run fixed_point done (cancel user_requested (pos 8) ∷ []) ≡ done
run-is_terminal_example =
    run-is_terminal fixed_point done (cancel user_requested (pos 8) ∷ []) done_filled

run_needs-IsAccept_example : Any (IsAccept fixed_point) events
unfolding run handle on_accepted on_fill from_routed try_transition summary_after ◌+ℤ◌ ◌-ℤ◌ ◌*ℤ◌
    quot_ℤ on_expire
run_needs-IsAccept_example = run_needs-IsAccept fixed_point routed (pos 3) events refl

on_fill_iff_example :
    ((is_ok fixed_point (on_fill fixed_point opened (part 4) (pos 5)) ≡ true)
      ↔ IsTakeable fixed_point opened (part 4))
    × (IsTakeable fixed_point opened (part 4)
        → let o' = or_keep fixed_point opened (on_fill fixed_point opened (part 4) (pos 5)) in
          (o'.fills ≡ opened.fills ++ (part 4 ∷ []))
          × (o'.remaining_qty ≡ opened.remaining_qty -ℤ whole 4)
          × (o'.filled_qty ≡ opened.filled_qty +ℤ whole 4)
          × (o'.venue_state ≡ (
              if fixed_point.lt (pos 0) (opened.remaining_qty -ℤ whole 4)
              then partially_filled (summary_after fixed_point opened (part 4))
              else filled (summary_after fixed_point opened (part 4)) (pos 5))))
on_fill_iff_example = on_fill_iff fixed_point opened (part 4) (pos 5)
