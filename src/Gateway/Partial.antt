-- ===== src/Gateway/Partial.antt =====
-- crates/gateway/src/lib.rs: the open orders of a `PaperAdapter` when its order book is replaced.
use feynman_engine.Prelude.{
  ◌≡◌, refl, false, Option, none, some, String, List, [], ◌∷◌, Map, lookup, arith, Bool-cases, inl,
  inr,
}
use feynman_engine.Externs.{Externs, ExactArithmetic, le}
use feynman_engine.Externs.Arithmetic.{
  add_parts, sub_parts, zero_above, zero_below, lt_true, one_sided,
}
use feynman_engine.Types.Market.{OrderbookSnapshot}
use feynman_engine.Gateway.Errors.{Result, ok, err}
use feynman_engine.Gateway.Simulator.{
  FillSimulationOutcome, resting, executed, SimulatedFill, is_complete,
}
use feynman_engine.Gateway.Submission.{VenueFill, order_core_from_submission}
use feynman_engine.Gateway.Paper.{PaperOpenOrder, Simulator, remaining_qty}
use feynman_engine.Gateway.Reprice.{
  reprice_one, reprice_found, repriced, reprice_all, after_fill, continue, prepend,
}
use feynman_engine.Gateway.Ledger.{IsPartial, insert-IsPartial, remove-IsPartial}
use feynman_engine.Gateway.Conserving.{IsConserving}

module _ (E : Externs) (X : ExactArithmetic E) where
  open E use {zero_dec, lt, add}

  -- Each open order has a quantity left.
  abbrev pub ArePartial : Map (PaperOpenOrder E) → Type 0
  ArePartial orders =
      (id : String) (o : PaperOpenOrder E) → lookup id orders ≡ some o → IsPartial E X o

  module _ (simulator : Simulator E) (c : IsConserving E X simulator)
      (book : OrderbookSnapshot E) where
    filled_more :
        (id : String) (o : PaperOpenOrder E) (f : SimulatedFill E)
        → IsPartial E X o
        → simulator
            (order_core_from_submission E o.submission o.accepted_at (remaining_qty E o))
            id
            book
          ≡ ok (executed f)
        → is_complete E f ≡ false
        → IsPartial E X (record o { filled_qty = add o.filled_qty f.fill.qty })
    unfolding order_core_from_submission remaining_qty
    filled_more id o f p h partly =
        let core = order_core_from_submission E o.submission o.accepted_at (remaining_qty E o) in
        let (filled, fill_nonneg, rest_nonneg, sum) = c.conserves core id book f h in
        ground (
          arith,
          zero_above E X,
          zero_below E X,
          add_parts E X o.filled_qty f.fill.qty,
          sub_parts E X o.submission.qty o.filled_qty,
          one_sided E X (E.sub o.submission.qty o.filled_qty),
          one_sided E X (add o.filled_qty f.fill.qty),
          lt_true E X f.remaining_qty zero_dec,
          lt_true E X zero_dec f.remaining_qty,
        )

    after_fill-ArePartial :
        (id : String) (o : PaperOpenOrder E) (f : SimulatedFill E) (orders : Map (PaperOpenOrder E))
        → ArePartial orders
        → (is_complete E f ≡ false
            → IsPartial E X (record o { filled_qty = add o.filled_qty f.fill.qty }))
        → ArePartial (after_fill E id o f orders)
    after_fill-ArePartial id o f orders ps p = elim (Bool-cases (is_complete E f)) [
      | inl complete ↦ rw complete (remove-IsPartial E X id orders ps)
      | inr partly ↦ rw partly (
          insert-IsPartial E X id (record o { filled_qty = add o.filled_qty f.fill.qty }) orders
            (p partly) ps)
    ]

    repriced-ArePartial :
        (r : Result (FillSimulationOutcome E)) (id : String) (o : PaperOpenOrder E)
        (orders : Map (PaperOpenOrder E))
        → ArePartial orders
        → ((f : SimulatedFill E)
            → r ≡ ok (executed f)
            → is_complete E f ≡ false
            → IsPartial E X (record o { filled_qty = add o.filled_qty f.fill.qty }))
        → ArePartial (repriced E r id o orders).0
    repriced-ArePartial (err e) id o orders ps p = ps
    repriced-ArePartial (ok resting) id o orders ps p = ps
    repriced-ArePartial (ok (executed f)) id o orders ps p =
        after_fill-ArePartial id o f orders ps (p f refl)

    found-ArePartial :
        (found : Option (PaperOpenOrder E)) (id : String) (orders : Map (PaperOpenOrder E))
        → ArePartial orders
        → lookup id orders ≡ found
        → ArePartial (reprice_found E found simulator book id orders).0
    found-ArePartial none id orders ps e = ps
    found-ArePartial (some o) id orders ps e =
        let remaining = remaining_qty E o in
        let core = order_core_from_submission E o.submission o.accepted_at remaining in
        elim (Bool-cases (le E remaining zero_dec)) [
          | inl done ↦ rw done (remove-IsPartial E X id orders ps)
          | inr left ↦ rw left (
              repriced-ArePartial (simulator core id book) id o orders ps
                (λ f. filled_more id o f (ps id o e)))
        ]

    pub all-ArePartial :
        (ids : List String) (orders : Map (PaperOpenOrder E))
        → ArePartial orders
        → ArePartial (reprice_all E simulator book ids orders).0
    unfolding reprice_all reprice_one
    all-ArePartial [] orders ps = ps
    all-ArePartial (id ∷ ids) orders ps =
        continue-ArePartial (reprice_one E simulator book id orders)
          (reprice_all E simulator book ids) (found-ArePartial (lookup id orders) id orders ps refl)
          (all-ArePartial ids)
      where
        continue-ArePartial :
            (r : Map (PaperOpenOrder E) × Result (List (VenueFill E)))
            (later : Map (PaperOpenOrder E) → Map (PaperOpenOrder E) × Result (List (VenueFill E)))
            → ArePartial r.0
            → ((orders : Map (PaperOpenOrder E)) → ArePartial orders → ArePartial (later orders).0)
            → ArePartial (continue E r later).0
        continue-ArePartial (orders, err e) later ps keep = ps
        continue-ArePartial (orders, ok fills) later ps keep =
            prepend-ArePartial fills (later orders) (keep orders ps)
          where
            prepend-ArePartial :
                (fills : List (VenueFill E))
                (r : Map (PaperOpenOrder E) × Result (List (VenueFill E)))
                → ArePartial r.0
                → ArePartial (prepend E fills r).0
            prepend-ArePartial fills (orders, ok later) ps = ps
            prepend-ArePartial fills (orders, err e) ps = ps
