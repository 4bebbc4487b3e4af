-- ===== src/Types/Order.antt =====
-- crates/types/src/pipeline.rs and signal.rs: the fields of an order. Identifiers are texts.
use feynman_engine.Prelude.{Option, Bool, String}
use feynman_engine.Prelude.Text.{◌++◌}
use feynman_engine.Externs.{Externs}

pub data Side : Type 0 where
  buy sell : Side

pub data OrderType : Type 0 where
  market limit stop_market stop_limit trailing_stop : OrderType

pub data TimeInForce (E : Externs) : Type 0 where
  gtc ioc fok : TimeInForce E
  gtd : E.DateTime → TimeInForce E

pub record ExecHint : Type 0 where
  pub allow_emulation : Bool

pub record OrderCore (E : Externs) : Type 0 where
  pub id : String
  pub basket_id : Option String
  pub agent_id : String
  pub instrument_id : String
  pub market_id : String
  pub venue_id : String
  pub side : Side
  pub order_type : OrderType
  pub time_in_force : TimeInForce E
  pub qty : E.Decimal
  pub price : Option E.Decimal
  pub trigger_price : Option E.Decimal
  pub stop_loss : Option E.Decimal
  pub take_profit : Option E.Decimal
  pub post_only : Bool
  pub reduce_only : Bool
  pub dry_run : Bool
  pub exec_hint : ExecHint
  pub created_at : E.DateTime

-- `Display` of an order type and of a time in force.
unfoldable pub show_type : OrderType → String
show_type market = "market"
show_type limit = "limit"
show_type stop_market = "stop_market"
show_type stop_limit = "stop_limit"
show_type trailing_stop = "trailing_stop"

unfoldable pub show_tif : (E : Externs) → TimeInForce E → String
show_tif E gtc = "GTC"
show_tif E ioc = "IOC"
show_tif E fok = "FOK"
show_tif E (gtd expire_at) = "GTD(" ++ (E.display_time expire_at ++ ")")

-- `{:?}` of a side.
unfoldable pub debug_side : Side → String
debug_side buy = "Buy"
debug_side sell = "Sell"
