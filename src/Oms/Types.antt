-- ===== src/Oms/Types.antt =====
-- include/optitrade/oms/types.hpp and interfaces.hpp. What a gateway, a listener and the two sources
-- do is code outside of the manager: an answer for each message, what was told, and two functions.
use opti_trade_engine.Prelude.{ℕ, Bool, true, false}
use opti_trade_engine.Core.Types.{Price, Qty, OrderRef, Locate, Nanos, Side}
use opti_trade_engine.Itch.Messages.{Symbol}
use opti_trade_engine.Ouch.Messages.{Inbound}
use opti_trade_engine.Risk.Types.{Reject}

abbrev pub OrderId : Type 0
OrderId = ℕ

pub data Tif : Type 0 where
  day ioc : Tif

pub record OrderRequest : Type 0 where
  pub locate : Locate
  pub side : Side
  pub price : Price
  pub qty : Qty
  pub tif : Tif

pub data OrderStatus : Type 0 where
  pending_new live pending_cancel pending_replace filled canceled rejected : OrderStatus

abbrev pub is_terminal : OrderStatus → Bool
is_terminal filled = true
is_terminal canceled = true
is_terminal rejected = true
is_terminal pending_new = false
is_terminal live = false
is_terminal pending_cancel = false
is_terminal pending_replace = false

pub record OrderInfo : Type 0 where
  pub id : OrderId
  pub req : OrderRequest
  pub status : OrderStatus
  pub cum_qty : Qty
  pub leaves_qty : Qty
  pub avg_price : Price
  pub exchange_ref : OrderRef
  pub last_update : Nanos
  pub reason : ℕ

pub record Fill : Type 0 where
  pub id : OrderId
  pub locate : Locate
  pub side : Side
  pub qty : Qty
  pub price : Price
  pub ts : Nanos
  pub match : ℕ

pub data SubmitStatus : Type 0 where
  ok rejected_by_risk invalid_request unknown_order bad_state capacity gateway_busy : SubmitStatus

pub record SubmitResult : Type 0 where
  pub status : SubmitStatus
  pub id : OrderId
  pub risk_reason : Reject

-- Whether OrderGateway::send takes a message.
abbrev pub Gateway : Type 0
Gateway = Inbound → Bool

-- What an OrderListener is told.
pub data Notice : Type 0 where
  on_fill : Fill → Notice
  on_order_update : OrderInfo → Notice

-- SymbolSource and ReferenceSource.
pub record Sources : Type 0 where
  pub symbol : Locate → Symbol
  pub reference_price : Locate → Price
