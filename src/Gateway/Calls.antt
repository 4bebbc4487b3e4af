-- ===== src/Gateway/Calls.antt =====
-- crates/gateway/src/lib.rs: any calls of a `PaperAdapter`, one after the other.
use feynman_engine.Prelude.{
  ◌≡◌, refl, sym, subst, Bool, Option, none, some, String, List, [], ◌∷◌, map, lookup, remove,
  lookup-remove, arith, Option-cases, Bool-cases, inl, inr, str_eq, insert,
}
use feynman_engine.Externs.{Externs, ExactArithmetic}
use feynman_engine.Types.Market.{OrderbookSnapshot, Validity, valid, invalid, validate}
use feynman_engine.Gateway.Errors.{Result, ok, err}
use feynman_engine.Gateway.Submission.{
  OrderSubmission, PostAckActions, VenueOrderAck, VenueFill, no_actions,
}
use feynman_engine.Gateway.Paper.{
  PaperAdapter, PaperAdapterState, PaperOpenOrder, Simulator, contains, take_post_ack_actions,
  cancel_order, broadcast_all, broadcast_fill, broadcast_of, connect, disconnect, subscribe_fills,
  new_adapter, take_found,
}
use feynman_engine.Gateway.Place.{submit_order}
use feynman_engine.Gateway.Reprice.{
  collect_repriced_fills, replace_orderbook, take_book, publish, orders_in,
}
use feynman_engine.Gateway.Ledger.{IsKept, IsPartial, set_open-IsKept}
use feynman_engine.Gateway.Conserving.{IsConserving}
use feynman_engine.Gateway.Kept.{submit-IsKept, cancel-IsKept, IsKnown}
use feynman_engine.Gateway.Partial.{all-ArePartial}

module _ (E : Externs) where
  pub data Call : Type 0 where
    submits : OrderSubmission E → Call
    takes cancels : String → Call
    replaces : OrderbookSnapshot E → Call
    subscribes disconnects : Call
    connects : E.DateTime → Call

  unfoldable pub step : PaperAdapter E → Call → PaperAdapter E
  step a (submits s) = (submit_order E a s).0
  step a (takes id) = (take_post_ack_actions E a id).0
  step a (cancels id) = (cancel_order E a id).0
  step a (replaces book) = (replace_orderbook E a book).0
  step a subscribes = subscribe_fills E a
  step a disconnects = disconnect E a
  step a (connects now) = connect E a now

  unfoldable pub run : PaperAdapter E → List Call → PaperAdapter E
  run a [] = a
  run a (c ∷ cs) = run (step a c) cs

  -- A broadcast changes the subscribers only.
  pub broadcast_all-state :
      (a : PaperAdapter E) (fills : List (VenueFill E))
      → ((broadcast_all E a fills).state ≡ a.state)
        × ((broadcast_all E a fills).simulator ≡ a.simulator)
  unfolding broadcast_fill
  broadcast_all-state a [] = (refl, refl)
  broadcast_all-state a (fill ∷ fills) = broadcast_all-state (broadcast_fill E a fill) fills

  submit-simulator :
      (a : PaperAdapter E) (s : OrderSubmission E) → (submit_order E a s).0.simulator ≡ a.simulator
  unfolding submit_order
  submit-simulator a s = ground arith

  cancel-simulator :
      (a : PaperAdapter E) (id : String) → (cancel_order E a id).0.simulator ≡ a.simulator
  unfolding cancel_order
  cancel-simulator a id = ground arith

  module _ (X : ExactArithmetic E) where
    -- The adapter's maps are in order, and its simulator conserves quantities.
    abbrev pub IsInOrder : PaperAdapter E → Type 0
    IsInOrder a = IsKept E X a.state × IsConserving E X a.simulator

    broadcast-IsInOrder :
        (a : PaperAdapter E) (fills : List (VenueFill E))
        → IsInOrder a
        → IsInOrder (broadcast_all E a fills)
    broadcast-IsInOrder a fills (k, c) =
        let (state, simulator) = broadcast_all-state a fills in
        (subst (IsKept E X) (sym state) k, subst (IsConserving E X) (sym simulator) c)

    removed-IsKept :
        (id : String) (s : PaperAdapterState E)
        → IsKept E X s
        → IsKept E X (record s { post_ack_actions = remove id s.post_ack_actions })
    removed-IsKept id s k = record {
      cached = k.cached;
      waiting = λ other actions found.
          ground (arith, lookup-remove id other s.post_ack_actions, k.waiting other actions);
      partial = k.partial;
    }

    take_found-IsInOrder :
        (found : Option (PostAckActions E)) (known : Bool) (a : PaperAdapter E) (id : String)
        → IsInOrder a
        → IsInOrder (take_found E found known a id).0
    take_found-IsInOrder (some actions) known a id (k, c) =
        let state = record a.state { post_ack_actions = remove id a.state.post_ack_actions } in
        broadcast-IsInOrder (record a { state = state }) (map (broadcast_of E) actions.fills)
          (removed-IsKept id a.state k, c)
    take_found-IsInOrder none known a id i = i

    publish-IsInOrder :
        (r : Result (List (VenueFill E))) (a : PaperAdapter E)
        → IsInOrder a
        → IsInOrder (publish E r a).0
    publish-IsInOrder (ok fills) a i = broadcast-IsInOrder a fills i
    publish-IsInOrder (err e) a i = i

    take_book-IsInOrder :
        (v : Validity E) (a : PaperAdapter E) (book : OrderbookSnapshot E)
        → IsInOrder a
        → IsInOrder (take_book E v a book).0
    unfolding collect_repriced_fills
    take_book-IsInOrder (invalid e) a book i = i
    take_book-IsInOrder valid a book (k, c) =
        let ids = orders_in E book.market_id a.state.open_orders in
        let collected = collect_repriced_fills E a.simulator book a.state.open_orders in
        let books = record a.state { orderbooks = insert book.market_id book a.state.orderbooks } in
        let kept : IsKept E X books = record {
          cached = k.cached;
          waiting = k.waiting;
          partial = k.partial;
        } in
        let left = all-ArePartial E X a.simulator c book ids a.state.open_orders k.partial in
        publish-IsInOrder collected.1
          (record a { state = record books { open_orders = collected.0 } })
          (set_open-IsKept E X collected.0 books kept left, c)

    replace-IsInOrder :
        (a : PaperAdapter E) (book : OrderbookSnapshot E)
        → IsInOrder a
        → IsInOrder (replace_orderbook E a book).0
    unfolding replace_orderbook
    replace-IsInOrder a book i =
        let taken = take_book-IsInOrder (validate E book) a book i in
        elim (Bool-cases (str_eq book.venue_id a.venue_id)) [
          | inl same ↦ rw same taken
          | inr other ↦ rw other i
        ]

    step-IsInOrder : (a : PaperAdapter E) (call : Call) → IsInOrder a → IsInOrder (step a call)
    unfolding step take_post_ack_actions connect disconnect subscribe_fills
    step-IsInOrder a (submits s) (k, c) =
        ((submit-IsKept E X a k c s).0, subst (IsConserving E X) (sym (submit-simulator a s)) c)
    step-IsInOrder a (takes id) i =
        take_found-IsInOrder (lookup id a.state.post_ack_actions)
          (contains E id a.state.acknowledged_orders) a id i
    step-IsInOrder a (cancels id) (k, c) =
        (cancel-IsKept E X a k c id, subst (IsConserving E X) (sym (cancel-simulator a id)) c)
    step-IsInOrder a (replaces book) i = replace-IsInOrder a book i
    step-IsInOrder a subscribes i = i
    step-IsInOrder a disconnects i = i
    step-IsInOrder a (connects now) i = i

    new_adapter-IsInOrder :
        (venue : String) (simulator : Simulator E)
        → IsConserving E X simulator
        → IsInOrder (new_adapter E venue simulator)
    unfolding new_adapter lookup
    new_adapter-IsInOrder venue simulator c = (
      record {
        cached = λ id ack h. ground arith;
        waiting = λ id actions h. ground arith;
        partial = λ id o h. ground arith;
      },
      c,
    )

    run-IsInOrder : (a : PaperAdapter E) (calls : List Call) → IsInOrder a → IsInOrder (run a calls)
    unfolding run
    run-IsInOrder a [] i = i
    run-IsInOrder a (c ∷ cs) i = run-IsInOrder (step a c) cs (step-IsInOrder a c i)

    -- Whatever is called on a new paper adapter whose simulator conserves quantities, every open
    -- order keeps a quantity to fill: its filled quantity is not negative and less than the whole.
    pub open_orders-IsPartial :
        (venue : String) (simulator : Simulator E) (calls : List Call) (id : String)
        (o : PaperOpenOrder E)
        → IsConserving E X simulator
        → lookup id (run (new_adapter E venue simulator) calls).state.open_orders ≡ some o
        → IsPartial E X o
    open_orders-IsPartial venue simulator calls id o c found =
        (run-IsInOrder (new_adapter E venue simulator) calls
            (new_adapter-IsInOrder venue simulator c)).0.partial
          id o found

    abbrev TakesAll : PaperAdapter E → Result (VenueOrderAck E) → Type 0
    TakesAll a (ok ack) =
        (actions : PostAckActions E) × ((take_post_ack_actions E a ack.venue_order_id).1
          ≡ ok actions)
    TakesAll a (err e) = Unit

    takes_known :
        (a : PaperAdapter E) (r : Result (VenueOrderAck E)) → IsKnown E X r a.state → TakesAll a r
    unfolding take_post_ack_actions
    takes_known a (ok ack) known =
        elim (Option-cases (lookup ack.venue_order_id a.state.post_ack_actions)) [
          | inl missing ↦ (no_actions E, rw (missing, known))
          | inr (actions, found) ↦ (actions, rw found)
        ]
    takes_known a (err e) known = tt

    -- After any calls, the actions of the next submission that is acknowledged can be taken.
    pub acknowledged_takes_any :
        (venue : String) (simulator : Simulator E) (calls : List Call) (s : OrderSubmission E)
        (ack : VenueOrderAck E)
        → IsConserving E X simulator
        → let a = run (new_adapter E venue simulator) calls in
          (submit_order E a s).1 ≡ ok ack
          → (actions : PostAckActions E) × ((take_post_ack_actions E
                (submit_order E a s).0
                ack.venue_order_id).1
              ≡ ok actions)
    acknowledged_takes_any venue simulator calls s ack c h =
        let a = run (new_adapter E venue simulator) calls in
        let (k, c') =
          run-IsInOrder (new_adapter E venue simulator) calls
            (new_adapter-IsInOrder venue simulator c) in
        let out = submit_order E a s in
        takes_known out.0 (ok ack)
          (subst (λ r. IsKnown E X r out.0.state) h (submit-IsKept E X a k c' s).1)
