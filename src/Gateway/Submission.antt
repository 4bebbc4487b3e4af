-- ===== src/Gateway/Submission.antt =====
-- crates/gateway/src/lib.rs: what goes to a venue adapter and what comes back.
use feynman_engine.Prelude.{ℕ, Bool, Option, none, String, List, []}
use feynman_engine.Prelude.Text.{◌++◌, show_ℕ}
use feynman_engine.Externs.{Externs}
use feynman_engine.Types.Order.{
  Side, OrderType, TimeInForce, ExecHint, OrderCore, show_type, show_tif,
}
use feynman_engine.Types.Pipeline.{PipelineOrder, Routed}
use feynman_engine.Lifecycle.State.{OrderState, Fill}

pub record OrderSubmission (E : Externs) : Type 0 where
  pub order_id : String
  pub client_order_id : String
  pub agent_id : String
  pub instrument_id : String
  pub market_id : String
  pub venue_id : String
  pub side : Side
  pub order_type : OrderType
  pub time_in_force : TimeInForce E
  pub qty : E.Decimal
  pub price : Option E.Decimal
  pub trigger_price : Option E.Decimal
  pub stop_loss : Option E.Decimal
  pub take_profit : Option E.Decimal
  pub post_only : Bool
  pub reduce_only : Bool
  pub dry_run : Bool
  pub exec_hint : ExecHint

pub record VenueOrderAck (E : Externs) : Type 0 where
  pub venue_order_id : String
  pub client_order_id : String
  pub accepted_at : E.DateTime

pub record VenueFill (E : Externs) : Type 0 where
  pub venue_order_id : String
  pub client_order_id : String
  pub instrument_id : String
  pub side : Side
  pub qty : E.Decimal
  pub price : E.Decimal
  pub fee : E.Decimal
  pub is_maker : Bool
  pub filled_at : E.DateTime

pub record VenuePosition (E : Externs) : Type 0 where
  pub instrument_id : String
  pub qty : E.Decimal
  pub avg_entry_price : E.Decimal
  pub unrealized_pnl : E.Decimal
  pub margin_used : E.Decimal

pub record VenueBalance (E : Externs) : Type 0 where
  pub total_equity : E.Decimal
  pub available_balance : E.Decimal
  pub margin_used : E.Decimal
  pub unrealized_pnl : E.Decimal
  pub as_of : E.DateTime

pub record VenueOpenOrder (E : Externs) : Type 0 where
  pub venue_order_id : String
  pub client_order_id : Option String
  pub instrument_id : String
  pub side : Side
  pub qty : E.Decimal
  pub filled_qty : E.Decimal
  pub price : Option E.Decimal
  pub state : OrderState
  pub created_at : E.DateTime

pub record PostAckFill (E : Externs) : Type 0 where
  pub client_order_id : String
  pub fill : Fill E

pub record PostAckActions (E : Externs) : Type 0 where
  pub fills : List (PostAckFill E)
  pub cancellation_reason : Option String

pub record VenueCapabilities : Type 0 where
  pub venue_id : String
  pub supports_market_orders : Bool
  pub supports_limit_orders : Bool
  pub supports_stop_market : Bool
  pub supports_stop_limit : Bool
  pub supports_trailing_stop : Bool
  pub supports_oco : Bool
  pub supports_amendment : Bool
  pub supports_reduce_only : Bool
  pub supports_post_only : Bool
  pub max_batch_size : Option ℕ

pub data ValidationError (E : Externs) : Type 0 where
  invalid_qty invalid_price : String → ValidationError E
  unsupported_order_type : OrderType → String → ValidationError E
  unsupported_tif : TimeInForce E → String → ValidationError E
  missing_required_field incompatible_constraints : String → ValidationError E
  precision_exceeded : String → ℕ → ℕ → ValidationError E

module _ (E : Externs) where
  unfoldable pub show_validation_error : ValidationError E → String
  show_validation_error (invalid_qty reason) = "Invalid quantity: " ++ reason
  show_validation_error (invalid_price reason) = "Invalid price: " ++ reason
  show_validation_error (unsupported_order_type requested venue) =
      "Order type " ++ (show_type requested ++ (" not supported on " ++ venue))
  show_validation_error (unsupported_tif requested venue) =
      "TIF " ++ (show_tif E requested ++ (" not supported on " ++ venue))
  show_validation_error (missing_required_field field) = "Missing required field: " ++ field
  show_validation_error (incompatible_constraints reason) = "Incompatible constraints: " ++ reason
  show_validation_error (precision_exceeded field max_decimals actual) =
      "Field "
      ++ (field
          ++ (" precision exceeded: max " ++ (show_ℕ max_decimals ++ (", got " ++ show_ℕ actual))))

  -- `PostAckActions::default`
  abbrev pub no_actions : PostAckActions E
  no_actions = record { fills = []; cancellation_reason = none }

  unfoldable pub from_routed : PipelineOrder E (Routed E) → OrderSubmission E
  from_routed order = record {
    order_id = order.core.id;
    client_order_id = order.stage.routing.client_order_id;
    agent_id = order.core.agent_id;
    instrument_id = order.core.instrument_id;
    market_id = order.core.market_id;
    venue_id = order.stage.routing.venue_id;
    side = order.core.side;
    order_type = order.core.order_type;
    time_in_force = order.core.time_in_force;
    qty = order.core.qty;
    price = order.core.price;
    trigger_price = order.core.trigger_price;
    stop_loss = order.core.stop_loss;
    take_profit = order.core.take_profit;
    post_only = order.core.post_only;
    reduce_only = order.core.reduce_only;
    dry_run = order.core.dry_run;
    exec_hint = order.core.exec_hint;
  }

  -- `PaperAdapter::order_core_from_submission`
  unfoldable pub order_core_from_submission :
      OrderSubmission E → E.DateTime → E.Decimal → OrderCore E
  order_core_from_submission s created_at qty = record {
    id = s.order_id;
    basket_id = none;
    agent_id = s.agent_id;
    instrument_id = s.instrument_id;
    market_id = s.market_id;
    venue_id = s.venue_id;
    side = s.side;
    order_type = s.order_type;
    time_in_force = s.time_in_force;
    qty = qty;
    price = s.price;
    trigger_price = s.trigger_price;
    stop_loss = s.stop_loss;
    take_profit = s.take_profit;
    post_only = s.post_only;
    reduce_only = s.reduce_only;
    dry_run = s.dry_run;
    exec_hint = s.exec_hint;
    created_at = created_at;
  }
