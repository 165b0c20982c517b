-- ===== src/Ouch/Messages.antt =====
-- include/optitrade/ouch/messages.hpp. A char is its byte; the fourteen bytes of a Token and the four
-- of a firm are a field for each byte.
use opti_trade_engine.Prelude.{ℕ, Bool, ◌==◌, if◌then◌else◌}
use opti_trade_engine.Core.Types.{Price, Side}
use opti_trade_engine.Itch.Messages.{Symbol}

pub record Token : Type 0 where
  pub t0 : ℕ
  pub t1 : ℕ
  pub t2 : ℕ
  pub t3 : ℕ
  pub t4 : ℕ
  pub t5 : ℕ
  pub t6 : ℕ
  pub t7 : ℕ
  pub t8 : ℕ
  pub t9 : ℕ
  pub t10 : ℕ
  pub t11 : ℕ
  pub t12 : ℕ
  pub t13 : ℕ

pub record Firm : Type 0 where
  pub f0 : ℕ
  pub f1 : ℕ
  pub f2 : ℕ
  pub f3 : ℕ

pub record EnterOrder : Type 0 where
  pub token : Token
  pub side : Side
  pub short_sell : Bool
  pub shares : ℕ
  pub stock : Symbol
  pub price : Price
  pub time_in_force : ℕ
  pub firm : Firm
  pub display : ℕ
  pub capacity : ℕ
  pub intermarket_sweep : ℕ
  pub min_qty : ℕ
  pub cross_type : ℕ
  pub customer_type : ℕ

pub record ReplaceOrder : Type 0 where
  pub existing : Token
  pub replacement : Token
  pub shares : ℕ
  pub price : Price
  pub time_in_force : ℕ
  pub display : ℕ
  pub intermarket_sweep : ℕ
  pub min_qty : ℕ

pub record CancelOrder : Type 0 where
  pub token : Token
  pub shares : ℕ

pub record Accepted : Type 0 where
  pub ts : ℕ
  pub token : Token
  pub side : Side
  pub shares : ℕ
  pub stock : Symbol
  pub price : Price
  pub time_in_force : ℕ
  pub firm : Firm
  pub display : ℕ
  pub ref : ℕ
  pub capacity : ℕ
  pub intermarket_sweep : ℕ
  pub min_qty : ℕ
  pub cross_type : ℕ
  pub order_state : ℕ
  pub bbo_weight : ℕ

pub record Replaced : Type 0 where
  pub a : Accepted
  pub previous : Token

pub record Canceled : Type 0 where
  pub ts : ℕ
  pub token : Token
  pub decrement : ℕ
  pub reason : ℕ

pub record Executed : Type 0 where
  pub ts : ℕ
  pub token : Token
  pub shares : ℕ
  pub price : Price
  pub liquidity : ℕ
  pub match : ℕ

pub record Rejected : Type 0 where
  pub ts : ℕ
  pub token : Token
  pub reason : ℕ

-- What a handler of either direction is called with.
pub data Inbound : Type 0 where
  enter_order : EnterOrder → Inbound
  replace_order : ReplaceOrder → Inbound
  cancel_order : CancelOrder → Inbound

pub data Outbound : Type 0 where
  accepted : Accepted → Outbound
  replaced : Replaced → Outbound
  canceled : Canceled → Outbound
  executed : Executed → Outbound
  rejected : Rejected → Outbound

abbrev pub enter_order_length : ℕ
enter_order_length = 49

abbrev pub replace_order_length : ℕ
replace_order_length = 47

abbrev pub cancel_order_length : ℕ
cancel_order_length = 19

abbrev pub accepted_length : ℕ
accepted_length = 66

abbrev pub replaced_length : ℕ
replaced_length = 80

abbrev pub canceled_length : ℕ
canceled_length = 28

abbrev pub executed_length : ℕ
executed_length = 40

abbrev pub rejected_length : ℕ
rejected_length = 24

-- The wire length of a type, or 0.
unfoldable pub inbound_length : ℕ → ℕ
inbound_length type =
    if type == b'O'
    then enter_order_length
    else if type == b'U'
    then replace_order_length
    else if type == b'X'
    then cancel_order_length
    else 0

unfoldable pub outbound_length : ℕ → ℕ
outbound_length type =
    if type == b'A'
    then accepted_length
    else if type == b'U'
    then replaced_length
    else if type == b'C'
    then canceled_length
    else if type == b'E'
    then executed_length
    else if type == b'J'
    then rejected_length
    else 0
