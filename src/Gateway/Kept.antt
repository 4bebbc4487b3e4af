-- ===== src/Gateway/Kept.antt =====
-- crates/gateway/src/lib.rs: every call of a `PaperAdapter` keeps its maps in order.
use feynman_engine.Prelude.{
  ◌≡◌, refl, ◌<◌, ◌+◌, Bool, true, false, Option, none, some, String, lookup, remove, arith,
  Option-cases, Bool-cases, ◌&&◌, inl, inr, eq_iff, if◌then◌else◌,
}
use feynman_engine.Externs.{Externs, ExactArithmetic}
use feynman_engine.Externs.Arithmetic.{above, below, zero_above, zero_below, lt_true}
use feynman_engine.Types.Order.{gtc, ioc, fok, gtd, TimeInForce}
use feynman_engine.Types.Market.{OrderbookSnapshot}
use feynman_engine.Gateway.Errors.{Result, ok, err}
use feynman_engine.Gateway.Simulator.{
  FillSimulationOutcome, resting, executed, SimulatedFill, is_complete,
}
use feynman_engine.Gateway.Submission.{
  OrderSubmission, PostAckActions, VenueOrderAck, order_core_from_submission,
}
use feynman_engine.Gateway.Paper.{PaperAdapter, PaperAdapterState, contains, cancel_order}
use feynman_engine.Gateway.Place.{
  submit_order, acknowledge, act, open_with, paper_id, open_order, place, place_resting,
  place_partial, simulated, with_book, unless_cached, when_checked, check_submission, outcome_of,
  fill_actions, is_limit, is_executed,
}
use feynman_engine.Gateway.Ledger.{
  IsKept, IsPartial, acknowledge-IsKept, act-IsKept, set_open-IsKept, insert-IsPartial,
  remove-IsPartial, contains-add,
}
use feynman_engine.Gateway.Conserving.{IsConserving}

either : {A : Type 0} (P : A → Type 0) (b : Bool) (x y : A) → P x → P y → P (if b then x else y)
either P true x y p q = p
either P false x y p q = q

module _ (E : Externs) (X : ExactArithmetic E) where
  open E use {zero_dec, lt}

  module _ (s : OrderSubmission E) (book : OrderbookSnapshot E) (state : PaperAdapterState E)
      (k : IsKept E X state) where
    known : contains E (paper_id E s) (acknowledge E s book state).acknowledged_orders ≡ true
    known = ground (
      arith,
      contains-add E X (paper_id E s) (paper_id E s) state.acknowledged_orders,
      eq_iff (paper_id E s) (paper_id E s),
    )

    -- An order that is acknowledged, with the actions that follow.
    done-IsKept :
        (actions : PostAckActions E) → IsKept E X (act E s actions (acknowledge E s book state))
    done-IsKept actions =
        act-IsKept E X s actions (acknowledge E s book state)
          (acknowledge-IsKept E X s book state k) known

    -- An order that is also left open.
    opened-IsKept :
        (actions : PostAckActions E) (filled : E.Decimal)
        → IsPartial E X (open_order E s book filled)
        → IsKept E X (act E s actions (open_with E s book filled (acknowledge E s book state)))
    opened-IsKept actions filled p =
        let acked = acknowledge E s book state in
        let k' = acknowledge-IsKept E X s book state k in
        act-IsKept E X s actions (open_with E s book filled acked)
          (set_open-IsKept E X _ acked k' (
            insert-IsPartial E X (paper_id E s) (open_order E s book filled) acked.open_orders p
              k'.partial))
          known

  -- An order that is acknowledged is known as such.
  abbrev pub IsKnown : Result (VenueOrderAck E) → PaperAdapterState E → Type 0
  IsKnown (ok ack) state = contains E ack.venue_order_id state.acknowledged_orders ≡ true
  IsKnown (err e) state = Unit

  abbrev pub LeavesKept : PaperAdapter E × Result (VenueOrderAck E) → Type 0
  LeavesKept r = IsKept E X r.0.state × IsKnown r.1 r.0.state

  -- What an outcome says of the submission's quantity.
  abbrev FitsSubmission : FillSimulationOutcome E → OrderSubmission E → Type 0
  FitsSubmission resting s = (below E X s.qty ≡ 0) × (0 < above E X s.qty)
  FitsSubmission (executed f) s =
      (below E X s.qty ≡ 0)
      × (below E X f.fill.qty ≡ 0)
      × (below E X f.remaining_qty ≡ 0)
      × (above E X f.fill.qty + above E X f.remaining_qty ≡ above E X s.qty)

  incomplete :
      (s : OrderSubmission E) (book : OrderbookSnapshot E) (f : SimulatedFill E)
      → FitsSubmission (executed f) s
      → is_complete E f ≡ false
      → IsPartial E X (open_order E s book f.fill.qty)
  incomplete s book f fits h = ground (
    arith,
    zero_above E X,
    zero_below E X,
    lt_true E X f.remaining_qty zero_dec,
    lt_true E X zero_dec f.remaining_qty,
  )

  module _ (a : PaperAdapter E) (s : OrderSubmission E) (book : OrderbookSnapshot E)
      (k : IsKept E X a.state) where
    resting-IsKept :
        (tif : TimeInForce E) → FitsSubmission resting s → LeavesKept (place_resting E tif a s book)
    resting-IsKept gtc fits = (
      opened-IsKept s book a.state k _ zero_dec (ground (arith, zero_above E X, zero_below E X)),
      known s book a.state k,
    )
    resting-IsKept ioc fits = (done-IsKept s book a.state k _, known s book a.state k)
    resting-IsKept fok fits = (acknowledge-IsKept E X s book a.state k, tt)
    resting-IsKept (gtd t) fits = (acknowledge-IsKept E X s book a.state k, tt)

    partial-IsKept :
        (tif : TimeInForce E) (f : SimulatedFill E)
        → FitsSubmission (executed f) s
        → is_complete E f ≡ false
        → LeavesKept (place_partial E tif a s book f)
    partial-IsKept gtc f fits h =
        let opened =
          opened-IsKept s book a.state k (fill_actions E s f none) f.fill.qty
            (incomplete s book f fits h) in
        either LeavesKept (is_limit E s.order_type) _ _ (opened, known s book a.state k) (k, tt)
    partial-IsKept ioc f fits h = (done-IsKept s book a.state k _, known s book a.state k)
    partial-IsKept fok f fits h = (k, tt)
    partial-IsKept (gtd t) f fits h = (k, tt)

    place-IsKept :
        (outcome : FillSimulationOutcome E)
        → FitsSubmission outcome s
        → LeavesKept (place E outcome a s book)
    place-IsKept resting fits = resting-IsKept s.time_in_force fits
    place-IsKept (executed f) fits =
        let done = done-IsKept s book a.state k (fill_actions E s f none) in
        elim (Bool-cases (is_complete E f)) [
          | inl complete ↦ rw complete (done, known s book a.state k)
          | inr partly ↦ rw partly (partial-IsKept s.time_in_force f fits partly)
        ]

    simulated-IsKept :
        (r : Result (FillSimulationOutcome E))
        → ((outcome : FillSimulationOutcome E) → r ≡ ok outcome → FitsSubmission outcome s)
        → LeavesKept (simulated E r a s book)
    simulated-IsKept (err e) fits = (k, tt)
    simulated-IsKept (ok outcome) fits =
        either LeavesKept (s.post_only && is_executed E outcome) _ _ (k, tt)
          (place-IsKept outcome (fits outcome refl))

  module _ (a : PaperAdapter E) (k : IsKept E X a.state) (c : IsConserving E X a.simulator) where
    outcome_fits :
        (s : OrderSubmission E) (book : OrderbookSnapshot E) (outcome : FillSimulationOutcome E)
        → outcome_of E a s book ≡ ok outcome
        → FitsSubmission outcome s
    unfolding order_core_from_submission
    outcome_fits s book resting h =
        c.positive (order_core_from_submission E s book.received_at s.qty) (paper_id E s) book
          resting h
    outcome_fits s book (executed f) h =
        let core = order_core_from_submission E s book.received_at s.qty in
        let (nonneg, qty) = c.positive core (paper_id E s) book (executed f) h in
        let (filled, fill_nonneg, rest_nonneg, sum) = c.conserves core (paper_id E s) book f h in
        (nonneg, fill_nonneg, rest_nonneg, sum)

    with_book-IsKept :
        (found : Option (OrderbookSnapshot E)) (s : OrderSubmission E)
        → LeavesKept (with_book E found a s)
    with_book-IsKept none s = (k, tt)
    with_book-IsKept (some book) s =
        simulated-IsKept a s book k (outcome_of E a s book) (outcome_fits s book)

    unless_cached-IsKept :
        (found : Option (VenueOrderAck E)) (s : OrderSubmission E)
        → lookup s.client_order_id a.state.idempotency_cache ≡ found
        → LeavesKept (unless_cached E found a s)
    unless_cached-IsKept (some ack) s h = (k, k.cached s.client_order_id ack h)
    unless_cached-IsKept none s h = with_book-IsKept (lookup s.market_id a.state.orderbooks) s

    when_checked-IsKept :
        (r : Result Unit) (s : OrderSubmission E) → LeavesKept (when_checked E r a s)
    when_checked-IsKept (err e) s = (k, tt)
    when_checked-IsKept (ok u) s =
        unless_cached-IsKept (lookup s.client_order_id a.state.idempotency_cache) s refl

    pub submit-IsKept : (s : OrderSubmission E) → LeavesKept (submit_order E a s)
    unfolding submit_order
    submit-IsKept s = when_checked-IsKept (check_submission E a s) s

    pub cancel-IsKept : (id : String) → IsKept E X (cancel_order E a id).0.state
    unfolding cancel_order
    cancel-IsKept id =
        let gone =
          set_open-IsKept E X (remove id a.state.open_orders) a.state k
            (remove-IsPartial E X id a.state.open_orders k.partial) in
        elim (Option-cases (lookup id a.state.open_orders)) [
          | inl missing ↦ rw missing k
          | inr (o, found) ↦ rw found gone
        ]
