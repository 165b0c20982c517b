-- ===== src/Oms/State.antt =====
-- include/optitrade/oms/order_manager.hpp, the class OrderManager: its state.
-- The links of an entry, `prev` and `next`, stand in a table of their own, with an entry's index.
-- What the gateway took and what the listener was told is kept in the state, the newest first.
use opti_trade_engine.Prelude.{ℕ, ◌-◌, Bool, false, List, [], ◌==◌, if◌then◌else◌, replicate, min}
use opti_trade_engine.Prelude.Int.{pos}
use opti_trade_engine.Core.Types.{Price, Qty, buy, u32_max}
use opti_trade_engine.Ouch.Messages.{Inbound}
use opti_trade_engine.Risk.Engine.{Engine}
use opti_trade_engine.Oms.Types.{OrderId, day, OrderRequest, pending_new, OrderInfo, Notice}

abbrev pub match_memory : ℕ
match_memory = 8

abbrev pub max_wire_price : Price
max_wire_price = pos 4294967295

abbrev pub none_slot : ℕ
none_slot = u32_max

pub record Stats : Type 0 where
  pub unknown_tokens : ℕ
  pub late_reports : ℕ
  pub invalid_reports : ℕ
  pub clamped_reports : ℕ

pub record Entry : Type 0 where
  pub info : OrderInfo
  pub token : ℕ
  pub next_token : ℕ
  pub replace_price : Price
  pub replace_qty : Qty
  pub reserved : Qty
  pub notional : ℕ
  pub matches : List ℕ
  pub match_count : ℕ
  pub accepted : Bool
  pub acked : Bool

pub record Link : Type 0 where
  pub prev : ℕ
  pub next : ℕ

pub record Manager : Type 0 where
  pub risk : Engine
  pub has_listener : Bool
  pub orders : List Entry
  pub links : List Link
  pub by_id : List (ℕ × ℕ)
  pub tokens : List (ℕ × ℕ)
  pub finished : List ℕ
  pub finished_head : ℕ
  pub finished_count : ℕ
  pub fresh : ℕ
  pub head : ℕ
  pub tail : ℕ
  pub next_id : OrderId
  pub open_count : ℕ
  pub next_token : ℕ
  pub stats : Stats
  pub sent : List Inbound
  pub heard : List Notice

abbrev pub no_request : OrderRequest
no_request = record { locate = 0; side = buy; price = pos 0; qty = 0; tif = day }

abbrev pub blank_info : OrderInfo
blank_info = record {
  id = 0;
  req = no_request;
  status = pending_new;
  cum_qty = 0;
  leaves_qty = 0;
  avg_price = pos 0;
  exchange_ref = 0;
  last_update = 0;
  reason = 0;
}

-- `Entry{}`
abbrev pub blank_entry : Entry
blank_entry = record {
  info = blank_info;
  token = 0;
  next_token = 0;
  replace_price = pos 0;
  replace_qty = 0;
  reserved = 0;
  notional = 0;
  matches = replicate match_memory 0;
  match_count = 0;
  accepted = false;
  acked = false;
}

abbrev pub no_link : Link
no_link = record { prev = none_slot; next = none_slot }

abbrev pub slot_count : ℕ → ℕ
slot_count n = min n (none_slot - 1)

unfoldable pub new : ℕ → ℕ → Bool → Engine → Manager
new max_orders first_token has_listener risk =
    let n = slot_count max_orders in
    record {
      risk = risk;
      has_listener = has_listener;
      orders = replicate n blank_entry;
      links = replicate n no_link;
      by_id = [];
      tokens = [];
      finished = replicate n 0;
      finished_head = 0;
      finished_count = 0;
      fresh = 0;
      head = none_slot;
      tail = none_slot;
      next_id = 1;
      open_count = 0;
      next_token = if first_token == 0 then 1 else first_token;
      stats = record {
        unknown_tokens = 0;
        late_reports = 0;
        invalid_reports = 0;
        clamped_reports = 0;
      };
      sent = [];
      heard = [];
    }
