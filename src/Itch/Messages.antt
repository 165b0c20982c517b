-- ===== src/Itch/Messages.antt =====
-- include/optitrade/itch/messages.hpp. A char is its byte; the eight bytes of a Symbol (types.hpp)
-- and the small char arrays are a field for each byte.
use opti_trade_engine.Prelude.{ℕ, Bool, if◌then◌else◌, ◌==◌}
use opti_trade_engine.Core.Types.{Price, Qty, OrderRef, Locate, Nanos, Side}

pub record Symbol : Type 0 where
  pub c0 : ℕ
  pub c1 : ℕ
  pub c2 : ℕ
  pub c3 : ℕ
  pub c4 : ℕ
  pub c5 : ℕ
  pub c6 : ℕ
  pub c7 : ℕ

pub record Header : Type 0 where
  pub locate : Locate
  pub tracking : ℕ
  pub timestamp : Nanos

pub record SystemEvent : Type 0 where
  pub h : Header
  pub event_code : ℕ

pub record StockDirectory : Type 0 where
  pub h : Header
  pub symbol : Symbol
  pub market_category : ℕ
  pub financial_status : ℕ
  pub round_lot_size : Qty
  pub round_lots_only : ℕ
  pub issue_classification : ℕ
  pub issue_subtype0 : ℕ
  pub issue_subtype1 : ℕ
  pub authenticity : ℕ
  pub short_sale_threshold : ℕ
  pub ipo_flag : ℕ
  pub luld_tier : ℕ
  pub etp_flag : ℕ
  pub etp_leverage : ℕ
  pub inverse : ℕ

pub record Mpid : Type 0 where
  pub m0 : ℕ
  pub m1 : ℕ
  pub m2 : ℕ
  pub m3 : ℕ

pub record AddOrder : Type 0 where
  pub h : Header
  pub ref : OrderRef
  pub side : Side
  pub shares : Qty
  pub symbol : Symbol
  pub price : Price
  pub has_attribution : Bool
  pub mpid : Mpid

pub record OrderExecuted : Type 0 where
  pub h : Header
  pub ref : OrderRef
  pub shares : Qty
  pub match : ℕ

pub record OrderExecutedPrice : Type 0 where
  pub h : Header
  pub ref : OrderRef
  pub shares : Qty
  pub match : ℕ
  pub printable : Bool
  pub price : Price

pub record OrderCancel : Type 0 where
  pub h : Header
  pub ref : OrderRef
  pub shares : Qty

pub record OrderDelete : Type 0 where
  pub h : Header
  pub ref : OrderRef

pub record OrderReplace : Type 0 where
  pub h : Header
  pub old_ref : OrderRef
  pub new_ref : OrderRef
  pub shares : Qty
  pub price : Price

pub record Trade : Type 0 where
  pub h : Header
  pub ref : OrderRef
  pub side : Side
  pub shares : Qty
  pub symbol : Symbol
  pub price : Price
  pub match : ℕ

-- What a handler's `on` is called with.
pub data Message : Type 0 where
  system_event : SystemEvent → Message
  stock_directory : StockDirectory → Message
  add_order : AddOrder → Message
  order_executed : OrderExecuted → Message
  order_executed_price : OrderExecutedPrice → Message
  order_cancel : OrderCancel → Message
  order_delete : OrderDelete → Message
  order_replace : OrderReplace → Message
  trade : Trade → Message

abbrev pub system_event_length : ℕ
system_event_length = 12

abbrev pub stock_directory_length : ℕ
stock_directory_length = 39

abbrev pub add_order_length : ℕ
add_order_length = 36

abbrev pub add_order_mpid_length : ℕ
add_order_mpid_length = 40

abbrev pub order_executed_length : ℕ
order_executed_length = 31

abbrev pub order_executed_price_length : ℕ
order_executed_price_length = 36

abbrev pub order_cancel_length : ℕ
order_cancel_length = 23

abbrev pub order_delete_length : ℕ
order_delete_length = 19

abbrev pub order_replace_length : ℕ
order_replace_length = 35

abbrev pub trade_length : ℕ
trade_length = 44

abbrev pub frame_header_size : ℕ
frame_header_size = 2

-- The wire length of a type, or 0 if it is not decoded.
unfoldable pub message_length : ℕ → ℕ
message_length type =
    if type == b'S'
    then system_event_length
    else if type == b'R'
    then stock_directory_length
    else if type == b'A'
    then add_order_length
    else if type == b'F'
    then add_order_mpid_length
    else if type == b'E'
    then order_executed_length
    else if type == b'C'
    then order_executed_price_length
    else if type == b'X'
    then order_cancel_length
    else if type == b'D'
    then order_delete_length
    else if type == b'U'
    then order_replace_length
    else if type == b'P'
    then trade_length
    else 0
