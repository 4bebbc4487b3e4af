-- ===== src/Gateway/Ledger.antt =====
-- crates/gateway/src/lib.rs: what holds of the maps of `PaperAdapter` whatever is called.
use feynman_engine.Prelude.{
  ◌≡◌, ap, ◌<◌, true, some, String, List, Map, lookup, insert, remove, lookup-insert, lookup-remove,
  str_eq, arith, eq_iff, if◌then◌else◌,
}
use feynman_engine.Externs.{Externs, ExactArithmetic}
use feynman_engine.Externs.Arithmetic.{above, below}
use feynman_engine.Types.Market.{OrderbookSnapshot}
use feynman_engine.Gateway.Submission.{OrderSubmission, VenueOrderAck, PostAckActions}
use feynman_engine.Gateway.Paper.{PaperAdapterState, PaperOpenOrder, contains, add}
use feynman_engine.Gateway.Place.{acknowledge, act, paper_id, ack_of}

module _ (E : Externs) (X : ExactArithmetic E) where
  open E use {zero_dec, lt}

  -- An open order is filled in part: the filled quantity is not negative and less than the whole.
  abbrev pub IsPartial : PaperOpenOrder E → Type 0
  IsPartial o =
      (below E X o.filled_qty ≡ 0)
      × (below E X o.submission.qty ≡ 0)
      × (above E X o.filled_qty < above E X o.submission.qty)

  -- Every acknowledgement in the cache, and every action that waits, is of an acknowledged order,
  -- and every open order has a quantity left.
  pub record IsKept (s : PaperAdapterState E) : Type 0 where
    pub cached :
        (id : String) (ack : VenueOrderAck E)
        → lookup id s.idempotency_cache ≡ some ack
        → contains E ack.venue_order_id s.acknowledged_orders ≡ true
    pub waiting :
        (id : String) (actions : PostAckActions E)
        → lookup id s.post_ack_actions ≡ some actions
        → contains E id s.acknowledged_orders ≡ true
    pub partial :
        (id : String) (o : PaperOpenOrder E) → lookup id s.open_orders ≡ some o → IsPartial o

  contains_same :
      (id other : String) (ids : List String)
      → id ≡ other
      → contains E id ids ≡ contains E other ids
  contains_same id other ids e = ap (λ k. contains E k ids) e

  pub contains-add :
      (id other : String) (ids : List String)
      → contains E other (add E id ids) ≡ (if str_eq id other then true else contains E other ids)
  contains-add id other ids = ground (arith, contains_same id other ids, eq_iff id other)

  pub acknowledge-IsKept :
      (sub : OrderSubmission E) (book : OrderbookSnapshot E) (s : PaperAdapterState E)
      → IsKept s
      → IsKept (acknowledge E sub book s)
  acknowledge-IsKept sub book s k = record {
    cached = λ id ack found.
        let fresh = ack_of E sub book in
        ground (
          arith,
          contains-add (paper_id E sub) ack.venue_order_id s.acknowledged_orders,
          lookup-insert sub.client_order_id id fresh s.idempotency_cache,
          k.cached id ack,
          eq_iff (paper_id E sub) ack.venue_order_id,
        );
    waiting = λ id actions found.
        ground
          (arith, contains-add (paper_id E sub) id s.acknowledged_orders, k.waiting id actions);
    partial = k.partial;
  }

  pub act-IsKept :
      (sub : OrderSubmission E) (actions : PostAckActions E) (s : PaperAdapterState E)
      → IsKept s
      → contains E (paper_id E sub) s.acknowledged_orders ≡ true
      → IsKept (act E sub actions s)
  act-IsKept sub actions s k known = record {
    cached = k.cached;
    waiting = λ id found h. ground (
      arith,
      lookup-insert (paper_id E sub) id actions s.post_ack_actions,
      k.waiting id found,
      contains_same (paper_id E sub) id s.acknowledged_orders,
      eq_iff (paper_id E sub) id,
    );
    partial = k.partial;
  }

  -- Open orders may change as long as each keeps a quantity.
  pub set_open-IsKept :
      (orders : Map (PaperOpenOrder E)) (s : PaperAdapterState E)
      → IsKept s
      → ((id : String) (o : PaperOpenOrder E) → lookup id orders ≡ some o → IsPartial o)
      → IsKept (record s { open_orders = orders })
  set_open-IsKept orders s k p = record { cached = k.cached; waiting = k.waiting; partial = p }

  pub insert-IsPartial :
      (id : String) (o : PaperOpenOrder E) (orders : Map (PaperOpenOrder E))
      → IsPartial o
      → ((k : String) (o' : PaperOpenOrder E) → lookup k orders ≡ some o' → IsPartial o')
      → (k : String) (o' : PaperOpenOrder E) → lookup k (insert id o orders) ≡ some o'
      → IsPartial o'
  insert-IsPartial id o orders p ps k o' h = ground (arith, lookup-insert id k o orders, ps k o', p)

  pub remove-IsPartial :
      (id : String) (orders : Map (PaperOpenOrder E))
      → ((k : String) (o' : PaperOpenOrder E) → lookup k orders ≡ some o' → IsPartial o')
      → (k : String) (o' : PaperOpenOrder E) → lookup k (remove id orders) ≡ some o'
      → IsPartial o'
  remove-IsPartial id orders ps k o' h = ground (arith, lookup-remove id k orders, ps k o')
