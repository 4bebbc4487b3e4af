-- ===== src/Gateway/Depth.antt =====
-- crates/gateway/src/lib.rs: the quantities that `LiveOrderbookFillSimulator::simulate` fills.
use feynman_engine.Prelude.{
  refl, ℕ, ◌+◌, ◌-◌, ◌<◌, ◌≡◌, Bool, true, false, Option, none, some, String, List, [], ◌∷◌, arith,
  if◌then◌else◌,
}
use feynman_engine.Externs.{Externs, ExactArithmetic, is_zero, le}
use feynman_engine.Externs.Arithmetic.{
  above, below, add_parts, sub_parts, zero_above, zero_below, lt_true, lt_false, one_sided,
}
use feynman_engine.Types.Order.{Side, buy, sell, OrderCore, OrderType, market}
use feynman_engine.Types.Market.{PriceLevel, OrderbookSnapshot, validate, valid, first}
use feynman_engine.Types.Book.{IsSide, validate_iff}
use feynman_engine.Types.Fees.{FeeResult}
use feynman_engine.Lifecycle.State.{Fill}
use feynman_engine.Gateway.Errors.{ok, bind_ok}
use feynman_engine.Gateway.Simulator.{
  Walk, is_level_fillable, take_level, walk, FillSimulationOutcome, resting, executed, settle,
  check_order, price_limit, simulate, opposite, start, top_of_book,
}

module _ (E : Externs) (X : ExactArithmetic E) where
  open E use {Decimal, zero_dec, lt}

  -- Whether a price limit reaches a price: a buyer pays at most the limit, a seller takes no less.
  abbrev pub reaches : Side → Option Decimal → Decimal → Bool
  reaches side none price = true
  reaches buy (some bound) price = le E price bound
  reaches sell (some bound) price = le E bound price

  is_level_fillable_lem :
      (side : Side) (bound : Option Decimal) (price : Decimal)
      → is_level_fillable E side bound price ≡ reaches side bound price
  unfolding is_level_fillable
  is_level_fillable_lem side none price = refl
  is_level_fillable_lem buy (some bound) price = refl
  is_level_fillable_lem sell (some bound) price = refl

  -- The levels that a side trades with.
  abbrev pub offers : Side → OrderbookSnapshot E → List (PriceLevel E)
  offers buy book = book.asks
  offers sell book = book.bids

  -- The quantity, in units, of the levels that a price limit reaches, up to the first that it does
  -- not reach.
  abbrev pub depth : Side → Option Decimal → List (PriceLevel E) → ℕ
  depth side bound [] = 0
  depth side bound (level ∷ levels) =
      let rest = depth side bound levels in
      if reaches side bound level.price then above E X level.qty + rest else 0

  -- A walk that is under way: what remains is positive, and what is executed is not negative.
  abbrev pub IsUnderWay : Walk E → Type 0
  IsUnderWay w =
      (0 < above E X w.remaining_qty)
      × (below E X w.remaining_qty ≡ 0)
      × (below E X w.executed_qty ≡ 0)

  -- What a walk over levels of depth `d` leaves.
  abbrev pub Leaves : ℕ → Walk E → Walk E → Type 0
  Leaves d w w' =
      (above E X w'.remaining_qty ≡ above E X w.remaining_qty - d)
      × (below E X w'.remaining_qty ≡ 0)
      × (above E X w'.executed_qty + above E X w'.remaining_qty
          ≡ above E X w.executed_qty + above E X w.remaining_qty)
      × (below E X w'.executed_qty ≡ 0)

  take_level_parts :
      (w : Walk E) (level : PriceLevel E)
      → IsUnderWay w
      → lt zero_dec level.qty ≡ true
      → let w' = take_level E w level in
        (above E X w'.executed_qty + above E X w'.remaining_qty
          ≡ above E X w.executed_qty + above E X w.remaining_qty)
        × (above E X w'.remaining_qty ≡ above E X w.remaining_qty - above E X level.qty)
        × (below E X w'.remaining_qty ≡ 0)
        × (below E X w'.executed_qty ≡ 0)
  take_level_parts w level u h = ground (
    arith,
    zero_above E X,
    zero_below E X,
    lt_true E X zero_dec level.qty,
    lt_true E X w.remaining_qty level.qty,
    lt_false E X w.remaining_qty level.qty,
    add_parts E X w.executed_qty w.remaining_qty,
    add_parts E X w.executed_qty level.qty,
    sub_parts E X w.remaining_qty w.remaining_qty,
    sub_parts E X w.remaining_qty level.qty,
  )

  walk-Leaves :
      (side : Side) (bound : Option Decimal) (descending : Bool) (previous : Option Decimal)
      (levels : List (PriceLevel E)) (w : Walk E)
      → IsSide E descending previous levels
      → IsUnderWay w
      → Leaves (depth side bound levels) w (walk E side bound levels w)
  unfolding walk
  walk-Leaves side bound descending previous [] w s u = ground arith
  walk-Leaves side bound descending previous (level ∷ levels) w s u =
      let taken = take_level E w level in
      let parts = take_level_parts w level u s.1 in
      let rest = walk-Leaves side bound descending (some level.price) levels taken s.3 in
      ground (
        arith,
        parts,
        rest,
        is_level_fillable_lem side bound level.price,
        zero_above E X,
        zero_below E X,
        lt_true E X zero_dec taken.remaining_qty,
        lt_false E X zero_dec taken.remaining_qty,
      )

  -- The price limit of an order that the simulator takes.
  abbrev pub bound_of : OrderType → Option Decimal → Option Decimal
  bound_of market price = none
  bound_of _ price = price

  -- What an outcome says of the walk.
  abbrev Settles : OrderCore E → Walk E → FillSimulationOutcome E → Type 0
  Settles order w resting = is_zero E w.executed_qty ≡ true
  Settles order w (executed f) =
      (is_zero E w.executed_qty ≡ false)
      × (f.fill.qty ≡ w.executed_qty)
      × (f.remaining_qty ≡ w.remaining_qty)
      × (f.fill.order_id ≡ order.id)
      × (f.fill.side ≡ order.side)

  settle-Settles :
      (calculate : Fill E → FeeResult E) (order : OrderCore E) (id : String)
      (book : OrderbookSnapshot E) (top : Decimal) (w : Walk E) (outcome : FillSimulationOutcome E)
      → settle E calculate order id book top w ≡ ok outcome
      → Settles order w outcome
  settle-Settles calculate order id book top w outcome h = ground arith

  pub check_order_ok :
      (order : OrderCore E) (book : OrderbookSnapshot E) (u : Unit)
      → check_order E order book ≡ ok u
      → (lt zero_dec order.qty ≡ true) × (validate E book ≡ valid)
  unfolding check_order
  check_order_ok order book u h = ground arith

  price_limit_ok :
      (t : OrderType) (price bound : Option Decimal)
      → price_limit E t price ≡ ok bound
      → bound ≡ bound_of t price
  unfolding price_limit
  price_limit_ok t price bound h = ground arith

  -- The quantities of an outcome, for an order that meets levels of depth `d`.
  abbrev pub FitsDepth : OrderCore E → ℕ → FillSimulationOutcome E → Type 0
  FitsDepth order d resting = d ≡ 0
  FitsDepth order d (executed f) =
      (f.fill.order_id ≡ order.id)
      × (f.fill.side ≡ order.side)
      × (0 < above E X f.fill.qty)
      × (above E X f.fill.qty + above E X f.remaining_qty ≡ above E X order.qty)
      × (above E X f.remaining_qty ≡ above E X order.qty - d)
      × (below E X f.fill.qty ≡ 0)
      × (below E X f.remaining_qty ≡ 0)

  opposite-IsSide :
      (order : OrderCore E) (book : OrderbookSnapshot E)
      → validate E book ≡ valid
      → (descending : Bool) × IsSide E descending none (opposite E order.side book)
  opposite-IsSide order book v =
      let (bids, asks, spread) = (validate_iff E book).0 v in
      elim order.side
        as (λ side. (descending : Bool) × IsSide E descending none (opposite E side book)) [
          | buy ↦ (false, asks)
          | sell ↦ (true, bids)
        ]

  under_way : (order : OrderCore E) → lt zero_dec order.qty ≡ true → IsUnderWay (start E order)
  under_way order h = ground (
    arith,
    zero_above E X,
    zero_below E X,
    one_sided E X order.qty,
    lt_true E X zero_dec order.qty,
  )

  fits_depth :
      (order : OrderCore E) (w : Walk E) (d : ℕ) (outcome : FillSimulationOutcome E)
      → lt zero_dec order.qty ≡ true
      → Leaves d (start E order) w
      → Settles order w outcome
      → FitsDepth order d outcome
  fits_depth order w d resting h leaves settles = ground (
    arith,
    zero_above E X,
    zero_below E X,
    one_sided E X order.qty,
    lt_true E X zero_dec order.qty,
    lt_false E X zero_dec w.executed_qty,
  )
  fits_depth order w d (executed f) h leaves settles = ground (
    arith,
    zero_above E X,
    zero_below E X,
    one_sided E X order.qty,
    lt_true E X zero_dec order.qty,
    lt_true E X zero_dec w.executed_qty,
    lt_true E X w.executed_qty zero_dec,
  )

  -- When the simulator returns an outcome, the order is left resting if no level of the opposite
  -- side is within its price limit. Otherwise the fill takes all of the depth within the limit, or
  -- the whole quantity of the order if that is less: the filled and the remaining quantity are not
  -- negative, add up to the order's quantity, and what remains is what that depth does not cover.
  pub simulate-FitsDepth :
      (calculate : Fill E → FeeResult E) (order : OrderCore E) (id : String)
      (book : OrderbookSnapshot E) (outcome : FillSimulationOutcome E)
      → simulate E calculate order id book ≡ ok outcome
      → FitsDepth order
          (depth order.side (bound_of order.order_type order.price) (offers order.side book))
          outcome
  unfolding simulate
  simulate-FitsDepth calculate order id book outcome h =
      let (u, checked, h1) = bind_ok (check_order E order book) _ outcome h in
      let (positive, v) = check_order_ok order book u checked in
      let (bound, limited, h2) =
        bind_ok (price_limit E order.order_type order.price) _ outcome h1 in
      let levels = opposite E order.side book in
      let (top, found, h3) =
        bind_ok (top_of_book E (first E levels) order.instrument_id) _ outcome h2 in
      let (descending, side) = opposite-IsSide order book v in
      let w = walk E order.side bound levels (start E order) in
      let settled = settle-Settles calculate order id book top w outcome h3 in
      let leaves =
        walk-Leaves order.side bound descending none levels (start E order) side
          (under_way order positive) in
      rw (← price_limit_ok order.order_type order.price bound limited)
        (fits_depth order w (depth order.side bound levels) outcome positive leaves settled)
