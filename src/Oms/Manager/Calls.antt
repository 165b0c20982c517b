-- ===== src/Oms/Manager/Calls.antt =====
-- order_manager.hpp, the calls of a strategy: submit, cancel, replace, cancel_all and the queries. The
-- gateway's answers are an argument.
use opti_trade_engine.Prelude.{
  ℕ, zero, suc, ◌+◌, ◌-◌, ◌*◌, Bool, true, false, ◌||◌, not, ◌∷◌, Option, none, some, ltb, leb,
  ◌==◌, if◌then◌else◌, length,
}
use opti_trade_engine.Prelude.Int.{pos, ltb_ℤ, leb_ℤ}
use opti_trade_engine.Core.Types.{Price, Qty, Nanos, max_order_qty}
use opti_trade_engine.Core.Table.{find, insert, erase}
use opti_trade_engine.Book.MarketBooks.{symbol_empty}
use opti_trade_engine.Itch.Messages.{Symbol}
use opti_trade_engine.Ouch.Messages.{Firm, Inbound, enter_order, replace_order, cancel_order}
use opti_trade_engine.Ouch.Token.{from_id}
use opti_trade_engine.Risk.Types.{Reject}
use opti_trade_engine.Risk.Types as RiskTypes
use opti_trade_engine.Risk.Engine.{evaluate, evaluate_replace, admit, on_order_open, is_accepted}
use opti_trade_engine.Oms.Types.{
  OrderId, OrderRequest, OrderStatus, live, pending_cancel, pending_replace, is_terminal, OrderInfo,
  SubmitStatus, ok, rejected_by_risk, invalid_request, unknown_order, bad_state, capacity,
  gateway_busy, SubmitResult, Gateway, Sources,
}
use opti_trade_engine.Oms.State.{Entry, Manager, max_wire_price, none_slot, blank_entry, blank_info}
use opti_trade_engine.Oms.Manager.{
  valid, wire_tif, entry_at, put, token_available, slot_available, next_slot, take_slot, link,
  link_at, sync_ledger, notify,
}

abbrev pub blank_firm : Firm
blank_firm = record { f0 = b' '; f1 = b' '; f2 = b' '; f3 = b' ' }

abbrev pub enter_message : Manager → OrderRequest → Symbol → Inbound
enter_message m req stock = enter_order record {
  token = from_id m.next_token;
  side = req.side;
  short_sell = false;
  shares = req.qty;
  stock = stock;
  price = req.price;
  time_in_force = wire_tif req.tif;
  firm = blank_firm;
  display = b'Y';
  capacity = b'P';
  intermarket_sweep = b'N';
  min_qty = 0;
  cross_type = b'N';
  customer_type = b' ';
}

abbrev pub refused : SubmitStatus → SubmitResult
refused status = record { status = status; id = 0; risk_reason = RiskTypes.accepted }

-- The entry of an order that was sent.
abbrev pub entry_for : Manager → OrderRequest → Nanos → Entry
entry_for m req now = record blank_entry {
  info = record blank_info { id = m.next_id; req = req; leaves_qty = req.qty; last_update = now };
  token = m.next_token;
  reserved = req.qty;
}

-- An order that the gateway took, from `risk_.admit` on.
unfoldable pub book_order : ℕ → OrderRequest → Nanos → Inbound → Manager → Manager × SubmitResult
unfolding take_slot link
book_order slot req now message m =
    let taken = take_slot slot (record m { risk = admit m.risk now; sent = message ∷ m.sent }) in
    let placed = put slot (entry_for m req now) record taken {
      next_id = m.next_id + 1;
      by_id = (insert (length m.orders) m.next_id slot taken.by_id).0;
    } in
    let linked = link slot placed in
    let booked = record linked {
      next_token = m.next_token + 1;
      open_count = m.open_count + 1;
      risk = on_order_open linked.risk req.locate req.side req.qty;
    } in
    (notify slot booked, record { status = ok; id = m.next_id; risk_reason = RiskTypes.accepted })

-- From the slot that is to be taken on.
unfoldable pub send_order :
    Gateway → OrderRequest → Nanos → Inbound → Manager → Manager × SubmitResult
unfolding book_order next_slot
send_order gateway req now message m =
    let slot = next_slot m in
    let held = insert (2 * length m.orders) m.next_token slot m.tokens in
    if not held.1
    then (m, refused capacity)
    else if not (gateway message)
    then (record m { tokens = erase m.next_token held.0 }, refused gateway_busy)
    else book_order slot req now message (record m { tokens = held.0 })

unfoldable pub submit : Sources → Gateway → OrderRequest → Nanos → Manager → Manager × SubmitResult
unfolding send_order symbol_empty is_accepted
submit sources gateway req now m =
    let stock = sources.symbol req.locate in
    let verdict =
      evaluate m.risk req.locate req.side req.price req.qty (sources.reference_price req.locate)
        now in
    if not (valid req) || symbol_empty stock
    then (m, refused invalid_request)
    else if not (slot_available m) || not (token_available m)
    then (m, refused capacity)
    else if not (is_accepted verdict)
    then (m, record { status = rejected_by_risk; id = 0; risk_reason = verdict })
    else send_order gateway req now (enter_message m req stock) m

abbrev pub cancel_message : Entry → Inbound
cancel_message e =
    cancel_order
      record { token = from_id (if e.next_token == 0 then e.token else e.next_token); shares = 0 }

abbrev pub is_canceling : OrderStatus → Bool
is_canceling pending_cancel = true
is_canceling other = false

unfoldable pub cancel_entry : Gateway → ℕ → Nanos → Manager → Manager × SubmitStatus
cancel_entry gateway slot now m =
    let e = entry_at m slot in
    let canceling = record e {
      info = record e.info { status = pending_cancel; last_update = now };
    } in
    if is_terminal e.info.status || is_canceling e.info.status
    then (m, bad_state)
    else if not (gateway (cancel_message e))
    then (m, gateway_busy)
    else (notify slot (put slot canceling (record m { sent = cancel_message e ∷ m.sent })), ok)

-- What a call on an order does where the table of ids finds it, or does not.
abbrev pub on_found :
    (ℕ → Manager → Manager × SubmitStatus) → Option ℕ → Manager → Manager × SubmitStatus
on_found call none m = (m, unknown_order)
on_found call (some slot) m = call slot m

unfoldable pub cancel : Gateway → OrderId → Nanos → Manager → Manager × SubmitStatus
unfolding cancel_entry
cancel gateway id now m = on_found (λ slot m'. cancel_entry gateway slot now m') (find id m.by_id) m

abbrev pub replace_message : Manager → Entry → Price → Qty → Inbound
replace_message m e price qty = replace_order record {
  existing = from_id e.token;
  replacement = from_id m.next_token;
  shares = qty;
  price = price;
  time_in_force = wire_tif e.info.req.tif;
  display = b'Y';
  intermarket_sweep = b'N';
  min_qty = 0;
}

-- A replacement that the gateway took.
unfoldable pub book_replace :
    ℕ → Price → Qty → Qty → Nanos → Inbound → Manager → Manager × SubmitStatus
unfolding sync_ledger
book_replace slot price qty growth now message m =
    let e = entry_at m slot in
    let admitted = if growth == 0 then m.risk else admit m.risk now in
    let replacing = record e {
      next_token = m.next_token;
      replace_price = price;
      replace_qty = qty;
    } in
    let synced =
      sync_ledger slot replacing
        record m { risk = admitted; next_token = m.next_token + 1; sent = message ∷ m.sent } in
    let held = entry_at synced slot in
    let waiting = record held {
      info = record held.info { status = pending_replace; last_update = now };
    } in
    (notify slot (put slot waiting synced), ok)

abbrev pub is_live : OrderStatus → Bool
is_live live = true
is_live other = false

unfoldable pub replace_entry :
    Sources → Gateway → ℕ → Price → Qty → Nanos → Manager → Manager × SubmitStatus
unfolding book_replace is_accepted
replace_entry sources gateway slot price qty now m =
    let e = entry_at m slot in
    let req = e.info.req in
    let open_after = qty - e.info.cum_qty in
    let growth = if ltb e.info.leaves_qty open_after then open_after - e.info.leaves_qty else 0 in
    let verdict =
      evaluate_replace m.risk req.locate req.side price open_after growth
        (sources.reference_price req.locate) now in
    let message = replace_message m e price qty in
    let held = insert (2 * length m.orders) m.next_token slot m.tokens in
    if not (is_live e.info.status)
    then (m, bad_state)
    else if leb_ℤ price (pos 0)
        || ltb_ℤ max_wire_price price
        || (qty == 0)
        || ltb max_order_qty qty
        || leb qty e.info.cum_qty
    then (m, invalid_request)
    else if not (token_available m)
    then (m, capacity)
    else if not (is_accepted verdict)
    then (m, rejected_by_risk)
    else if not held.1
    then (m, capacity)
    else if not (gateway message)
    then (record m { tokens = erase m.next_token held.0 }, gateway_busy)
    else book_replace slot price qty growth now message (record m { tokens = held.0 })

unfoldable pub replace :
    Sources → Gateway → OrderId → Price → Qty → Nanos → Manager → Manager × SubmitStatus
unfolding replace_entry
replace sources gateway id price qty now m =
    on_found (λ slot m'. replace_entry sources gateway slot price qty now m') (find id m.by_id) m

abbrev pub find_order : OrderId → Manager → Option OrderInfo
find_order id m = elim (find id m.by_id) [ none ↦ none | some slot ↦ some (entry_at m slot).info ]

abbrev pub reserved_qty : OrderId → Manager → Qty
reserved_qty id m = elim (find id m.by_id) [ none ↦ 0 | some slot ↦ (entry_at m slot).reserved ]

abbrev pub is_ok : SubmitStatus → Bool
is_ok ok = true
is_ok other = false

-- The walk over the working orders from a slot on; `fuel` bounds the orders that it visits.
unfoldable pub sweep : Gateway → OrderId → Nanos → ℕ → ℕ → Manager → Manager × ℕ
unfolding cancel_entry
sweep gateway last now zero slot m = (m, 0)
sweep gateway last now (suc fuel) slot m =
    let (m', status) = cancel_entry gateway slot now m in
    let rest = sweep gateway last now fuel (link_at m.links slot).next m' in
    if slot == none_slot || ltb last (entry_at m slot).info.id
    then (m, 0)
    else (rest.0, (if is_ok status then 1 else 0) + rest.1)

-- An order whose cancel is in flight is refused by `cancel_entry` with no effect, as the test before
-- the call does.
unfoldable pub cancel_all : Gateway → Nanos → Manager → Manager × ℕ
unfolding sweep
cancel_all gateway now m = sweep gateway (m.next_id - 1) now (length m.orders) m.head m
