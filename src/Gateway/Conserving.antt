-- ===== src/Gateway/Conserving.antt =====
-- crates/gateway/src/lib.rs: what the paper adapter relies on of its fill simulator, and that
-- `LiveOrderbookFillSimulator` provides it.
use feynman_engine.Prelude.{◌≡◌, ◌<◌, ◌+◌, arith, String}
use feynman_engine.Externs.{Externs, ExactArithmetic}
use feynman_engine.Externs.Arithmetic.{above, below, zero_above, zero_below, lt_true, one_sided}
use feynman_engine.Types.Order.{OrderCore}
use feynman_engine.Types.Market.{OrderbookSnapshot}
use feynman_engine.Types.Fees.{FeeResult}
use feynman_engine.Lifecycle.State.{Fill}
use feynman_engine.Gateway.Errors.{ok, bind_ok}
use feynman_engine.Gateway.Simulator.{
  FillSimulationOutcome, SimulatedFill, executed, simulate, check_order,
}
use feynman_engine.Gateway.Depth.{simulate-FitsDepth, check_order_ok}
use feynman_engine.Gateway.Paper.{Simulator}

module _ (E : Externs) (X : ExactArithmetic E) where
  -- It takes orders of a positive quantity only, and splits the quantity of an order that it
  -- executes into a positive fill and a remainder.
  pub record IsConserving (simulator : Simulator E) : Type 0 where
    pub positive :
        (order : OrderCore E) (id : String) (book : OrderbookSnapshot E)
        (o : FillSimulationOutcome E)
        → simulator order id book ≡ ok o
        → (below E X order.qty ≡ 0) × (0 < above E X order.qty)
    pub conserves :
        (order : OrderCore E) (id : String) (book : OrderbookSnapshot E) (f : SimulatedFill E)
        → simulator order id book ≡ ok (executed f)
        → (0 < above E X f.fill.qty)
          × (below E X f.fill.qty ≡ 0)
          × (below E X f.remaining_qty ≡ 0)
          × (above E X f.fill.qty + above E X f.remaining_qty ≡ above E X order.qty)

  pub simulate-IsConserving :
      (calculate : Fill E → FeeResult E) → IsConserving (simulate E calculate)
  unfolding simulate
  simulate-IsConserving calculate = record {
    positive = λ order id book o h.
        let (u, checked, h1) = bind_ok (check_order E order book) _ o h in
        let (positive, v) = check_order_ok E X order book u checked in
        ground (
          arith,
          zero_above E X,
          zero_below E X,
          one_sided E X order.qty,
          lt_true E X E.zero_dec order.qty,
        );
    conserves = λ order id book f h.
        let fits = simulate-FitsDepth E X calculate order id book (executed f) h in ground arith;
  }
