-- ===== src/Gateway/Resubmit.antt =====
-- crates/gateway/src/lib.rs: a second `submit_order` of a `PaperAdapter` under the same client order
-- identifier.
use feynman_engine.Prelude.{
  ◌≡◌, refl, subst, Bool, Bool-cases, inl, inr, Option, none, some, Option-cases, String, List, [],
  ◌∷◌, map, str_eq, eq_iff, lookup, lookup-insert, lookup-insert_self, remove, arith,
}
use feynman_engine.Externs.{Externs}
use feynman_engine.Types.Order.{fok}
use feynman_engine.Types.Market.{OrderbookSnapshot, Validity, valid, invalid, validate}
use feynman_engine.Gateway.Errors.{Result, ok, err, venue_rejected}
use feynman_engine.Gateway.Simulator.{resting}
use feynman_engine.Gateway.Submission.{OrderSubmission, VenueOrderAck, VenueFill, PostAckActions}
use feynman_engine.Gateway.Paper.{
  PaperAdapter, contains, take_post_ack_actions, cancel_order, broadcast_all, broadcast_of, connect,
  disconnect, subscribe_fills, take_found,
}
use feynman_engine.Gateway.Reprice.{collect_repriced_fills, replace_orderbook, take_book, publish}
use feynman_engine.Gateway.Calls.{
  Call, submits, takes, cancels, replaces, subscribes, disconnects, connects, step, run,
  broadcast_all-state,
}
use feynman_engine.Gateway.Place.{
  submit_order, check_submission, ack_of, acknowledge, with_book, outcome_of,
}

module _ (E : Externs) where
  -- An acknowledgement that was returned is in the cache.
  abbrev IsCached : OrderSubmission E → PaperAdapter E × Result (VenueOrderAck E) → Type 0
  IsCached s (a, ok ack) = lookup s.client_order_id a.state.idempotency_cache ≡ some ack
  IsCached s (a, err e) = Unit

  with_book-IsCached :
      (found : Option (OrderbookSnapshot E)) (a : PaperAdapter E) (s : OrderSubmission E)
      → IsCached s (with_book E found a s)
  with_book-IsCached none a s = tt
  with_book-IsCached (some book) a s =
      let written =
        lookup-insert_self s.client_order_id (ack_of E s book) a.state.idempotency_cache in
      ground (arith, written)

  submit-IsCached : (a : PaperAdapter E) (s : OrderSubmission E) → IsCached s (submit_order E a s)
  unfolding submit_order
  submit-IsCached a s =
      let placed = with_book-IsCached (lookup s.market_id a.state.orderbooks) a s in
      ground (arith, placed)

  cached_answer :
      (a : PaperAdapter E) (s : OrderSubmission E) (ack : VenueOrderAck E)
      → check_submission E a s ≡ ok tt
      → lookup s.client_order_id a.state.idempotency_cache ≡ some ack
      → submit_order E a s ≡ (a, ok ack)
  unfolding submit_order
  cached_answer a s ack checked found = rw (checked, found)

  -- The acknowledgement `ack` is in the cache under `id`.
  module _ (id : String) (ack : VenueOrderAck E) where
    abbrev Remembers : PaperAdapter E → Type 0
    Remembers a = lookup id a.state.idempotency_cache ≡ some ack

    with_book-Remembers :
        (found : Option (OrderbookSnapshot E)) (a : PaperAdapter E) (s : OrderSubmission E)
        → lookup s.client_order_id a.state.idempotency_cache ≡ none
        → Remembers a
        → Remembers (with_book E found a s).0
    with_book-Remembers none a s fresh h = h
    with_book-Remembers (some book) a s fresh h =
        let written =
          lookup-insert s.client_order_id id (ack_of E s book) a.state.idempotency_cache in
        ground (arith, written, eq_iff s.client_order_id id)

    submit-Remembers :
        (a : PaperAdapter E) (s : OrderSubmission E)
        → Remembers a
        → Remembers (submit_order E a s).0
    unfolding submit_order
    submit-Remembers a s h =
        elim (Option-cases (lookup s.client_order_id a.state.idempotency_cache)) [
          | inl fresh ↦
              let placed =
                with_book-Remembers (lookup s.market_id a.state.orderbooks) a s fresh h in
              ground (arith, placed)
          | inr (known, found) ↦ ground arith
        ]

    broadcast-Remembers :
        (a : PaperAdapter E) (fills : List (VenueFill E))
        → Remembers a
        → Remembers (broadcast_all E a fills)
    broadcast-Remembers a fills h = rw (broadcast_all-state E a fills).0 h

    take-Remembers :
        (found : Option (PostAckActions E)) (known : Bool) (a : PaperAdapter E) (other : String)
        → Remembers a
        → Remembers (take_found E found known a other).0
    take-Remembers none known a other h = h
    take-Remembers (some actions) known a other h =
        let state = record a.state { post_ack_actions = remove other a.state.post_ack_actions } in
        broadcast-Remembers (record a { state = state }) (map (broadcast_of E) actions.fills) h

    publish-Remembers :
        (r : Result (List (VenueFill E))) (a : PaperAdapter E)
        → Remembers a
        → Remembers (publish E r a).0
    publish-Remembers (ok fills) a h = broadcast-Remembers a fills h
    publish-Remembers (err e) a h = h

    take_book-Remembers :
        (v : Validity E) (a : PaperAdapter E) (book : OrderbookSnapshot E)
        → Remembers a
        → Remembers (take_book E v a book).0
    unfolding collect_repriced_fills
    take_book-Remembers (invalid e) a book h = h
    take_book-Remembers valid a book h =
        publish-Remembers (collect_repriced_fills E a.simulator book a.state.open_orders).1 _ h

    replace-Remembers :
        (a : PaperAdapter E) (book : OrderbookSnapshot E)
        → Remembers a
        → Remembers (replace_orderbook E a book).0
    unfolding replace_orderbook
    replace-Remembers a book h =
        let taken = take_book-Remembers (validate E book) a book h in
        elim (Bool-cases (str_eq book.venue_id a.venue_id)) [
          | inl same ↦ rw same taken
          | inr other ↦ rw other h
        ]

    step-Remembers : (a : PaperAdapter E) (c : Call E) → Remembers a → Remembers (step E a c)
    unfolding step take_post_ack_actions cancel_order connect disconnect subscribe_fills
    step-Remembers a (submits s) h = submit-Remembers a s h
    step-Remembers a (takes other) h =
        take-Remembers (lookup other a.state.post_ack_actions)
          (contains E other a.state.acknowledged_orders) a other h
    step-Remembers a (cancels other) h = ground arith
    step-Remembers a (replaces book) h = replace-Remembers a book h
    step-Remembers a subscribes h = h
    step-Remembers a disconnects h = h
    step-Remembers a (connects now) h = h

    run-Remembers :
        (a : PaperAdapter E) (calls : List (Call E)) → Remembers a → Remembers (run E a calls)
    unfolding run
    run-Remembers a [] h = h
    run-Remembers a (c ∷ cs) h = run-Remembers (step E a c) cs (step-Remembers a c h)

  -- A submission was acknowledged, and then any methods of the adapter were called, one after the
  -- other: other submissions, actions taken, cancellations, new order books, disconnections. A
  -- submission under the same client order identifier that then passes the adapter's checks gets
  -- the same acknowledgement and changes nothing.
  pub submit_order_twice :
      (a : PaperAdapter E) (s again : OrderSubmission E) (ack : VenueOrderAck E)
      (calls : List (Call E))
      → let a' = run E (submit_order E a s).0 calls in
        (submit_order E a s).1 ≡ ok ack
        → again.client_order_id ≡ s.client_order_id
        → check_submission E a' again ≡ ok tt
        → submit_order E a' again ≡ (a', ok ack)
  submit_order_twice a s again ack calls h same checked =
      let out = submit_order E a s in
      let cached = subst (λ r. IsCached s (out.0, r)) h (submit-IsCached a s) in
      let remembered = run-Remembers s.client_order_id ack out.0 calls cached in
      cached_answer (run E out.0 calls) again ack checked (rw same remembered)

  check_same :
      (a : PaperAdapter E) (s : OrderSubmission E) (book : OrderbookSnapshot E)
      → check_submission E a s ≡ ok tt
      → check_submission E (record a { state = acknowledge E s book a.state }) s ≡ ok tt
  unfolding check_submission
  check_same a s book h = h

  fok_rejected :
      (a : PaperAdapter E) (s : OrderSubmission E) (book : OrderbookSnapshot E)
      → check_submission E a s ≡ ok tt
      → lookup s.client_order_id a.state.idempotency_cache ≡ none
      → lookup s.market_id a.state.orderbooks ≡ some book
      → outcome_of E a s book ≡ ok resting
      → s.time_in_force ≡ fok
      → submit_order E a s ≡ (
        record a { state = acknowledge E s book a.state },
        err (venue_rejected "FOK order could not be fully filled on paper adapter"),
      )
  unfolding submit_order
  fok_rejected a s book checked fresh booked rests kill = ground arith

  -- A fill-or-kill order that finds no liquidity is rejected. It is in the cache all the same: the
  -- same submission sent again is acknowledged.
  pub submit_order-fok :
      (a : PaperAdapter E) (s : OrderSubmission E) (book : OrderbookSnapshot E)
      → check_submission E a s ≡ ok tt
      → lookup s.client_order_id a.state.idempotency_cache ≡ none
      → lookup s.market_id a.state.orderbooks ≡ some book
      → outcome_of E a s book ≡ ok resting
      → s.time_in_force ≡ fok
      → let a' = (submit_order E a s).0 in
        ((submit_order E a s).1
          ≡ err (venue_rejected "FOK order could not be fully filled on paper adapter"))
        × (submit_order E a' s ≡ (a', ok (ack_of E s book)))
  submit_order-fok a s book checked fresh booked rests kill =
      let left = record a { state = acknowledge E s book a.state } in
      let written =
        lookup-insert_self s.client_order_id (ack_of E s book) a.state.idempotency_cache in
      let again = cached_answer left s (ack_of E s book) (check_same a s book checked) written in
      rw (fok_rejected a s book checked fresh booked rests kill) (refl, again)
