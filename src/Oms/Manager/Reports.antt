-- ===== src/Oms/Manager/Reports.antt =====
-- order_manager.hpp, the exchange's reports: on_accepted, on_executed, on_canceled, on_rejected and
-- on_replaced.
use opti_trade_engine.Prelude.{
  ℕ, ◌+◌, ◌-◌, ◌*◌, ◌/◌, Bool, true, ◌&&◌, ◌||◌, not, Option, none, some, ltb, ◌==◌, if◌then◌else◌,
  min, max,
}
use opti_trade_engine.Prelude.Int.{pos, pos_part, ltb_ℤ, leb_ℤ}
use opti_trade_engine.Core.Types.{Nanos, max_order_qty}
use opti_trade_engine.Core.Table.{find, erase}
use opti_trade_engine.Ouch.Messages
use opti_trade_engine.Ouch.Messages.{Token, Executed, Canceled, Rejected, Replaced, Outbound}
use opti_trade_engine.Ouch.Token.{from_id}
use opti_trade_engine.Risk.Engine.{on_fill}
use opti_trade_engine.Oms.Types
use opti_trade_engine.Oms.Types.{
  OrderStatus, pending_new, live, pending_cancel, pending_replace, filled, canceled, rejected,
  OrderInfo, Fill, Notice, on_order_update,
}
use opti_trade_engine.Oms.State.{Entry, Manager, max_wire_price}
use opti_trade_engine.Oms.Manager.{
  entry_at, put, Match, resolve, resolved, active, invalid, clamped_if, token_eq, seen_match,
  remember_match, sync_ledger, no_replacement, drop_replacement, outcome_of, end_of_life, tell,
  notify,
}

abbrev pub is_state : ℕ → Bool
is_state c = (c == b'L') || (c == b'D')

-- A new order that the exchange is seen to hold.
abbrev pub confirm : OrderStatus → OrderStatus
confirm pending_new = live
confirm other = other

abbrev pub accepted_entry : Entry → Messages.Accepted → Nanos → Entry
accepted_entry e a now = record e {
  info = record e.info { exchange_ref = a.ref; last_update = now };
  accepted = true;
  acked = true;
}

-- The entry of an order that the exchange is seen to hold.
abbrev pub confirmed : Entry → Entry
confirmed e = record e { info = record e.info { status = confirm e.info.status } }

unfoldable pub accept : ℕ → Messages.Accepted → Nanos → Manager → Manager
unfolding end_of_life
accept slot a now m =
    let e = entry_at m slot in
    let seen = accepted_entry e a now in
    if e.accepted || not (is_state a.order_state)
    then invalid m
    else notify slot (
        if a.order_state == b'D'
        then end_of_life slot seen (outcome_of seen) m
        else put slot (confirmed seen) m)

unfoldable pub on_accepted : Messages.Accepted → Nanos → Manager → Manager
unfolding active accept
on_accepted a now m = active a.token m (λ slot. accept slot a now m)

-- An execution that is booked: the whole of it counts, also past what was open.
unfoldable pub executed_entry : Entry → Executed → Nanos → Entry
executed_entry e x now =
    let notional = e.notional + pos_part x.price * x.shares in
    let cum = e.info.cum_qty + x.shares in
    let seen = remember_match e x.match in
    record seen {
      info = record e.info {
        req = record e.info.req { qty = max e.info.req.qty cum };
        cum_qty = cum;
        leaves_qty = e.info.leaves_qty - min x.shares e.info.leaves_qty;
        avg_price = pos (notional / cum);
        last_update = now;
      };
      notional = notional;
      acked = true;
    }

abbrev pub no_fact : Entry → Executed → Bool
no_fact e x =
    (x.shares == 0)
    || leb_ℤ x.price (pos 0)
    || ltb_ℤ max_wire_price x.price
    || ltb (max_order_qty - e.info.cum_qty) x.shares

-- The update after a fill: of the order in the slot that has its id now, or of the order as it was.
abbrev pub tell_update : OrderInfo → Option ℕ → Manager → Manager
tell_update before (some place) m = notify place m
tell_update before none m = tell (on_order_update before) m

abbrev pub fill_notice : Executed → Nanos → OrderInfo → Notice
fill_notice x now info = Types.on_fill record {
  id = info.id;
  locate = info.req.locate;
  side = info.req.side;
  qty = x.shares;
  price = x.price;
  ts = now;
  match = x.match;
}

-- What the listener is told of a fill, and then of the order that has its id now.
abbrev pub tell_fill : Executed → Nanos → ℕ → Manager → Manager
tell_fill x now slot m =
    let before = (entry_at m slot).info in
    let told = tell (fill_notice x now before) m in
    tell_update before (find before.id told.by_id) told

-- A working order whose quantities have changed: it is seen at the exchange.
abbrev pub keep_working : ℕ → Entry → Manager → Manager
keep_working slot e m = sync_ledger slot (confirmed e) m

unfoldable pub execute : ℕ → Executed → Nanos → Manager → Manager
unfolding executed_entry sync_ledger end_of_life
execute slot x now m =
    let e = entry_at m slot in
    let done = executed_entry e x now in
    let counted = clamped_if (ltb e.info.leaves_qty x.shares) m in
    let req = e.info.req in
    let filling = record counted { risk = on_fill m.risk req.locate req.side x.shares x.price } in
    if no_fact e x || seen_match e x.match
    then invalid m
    else tell_fill x now slot (
        if done.info.leaves_qty == 0
        then end_of_life slot done filled filling
        else keep_working slot done filling)

unfoldable pub on_executed : Executed → Nanos → Manager → Manager
unfolding active execute
on_executed x now m = active x.token m (λ slot. execute slot x now m)

abbrev pub canceled_entry : Entry → Canceled → Nanos → Entry
canceled_entry e c now = record e {
  info = record e.info {
    leaves_qty = e.info.leaves_qty - min c.decrement e.info.leaves_qty;
    reason = c.reason;
    last_update = now;
  };
  acked = true;
}

unfoldable pub cancel_shares : ℕ → Canceled → Nanos → Manager → Manager
unfolding sync_ledger end_of_life
cancel_shares slot c now m =
    let e = entry_at m slot in
    let qty = min c.decrement e.info.leaves_qty in
    let less = canceled_entry e c now in
    let counted = clamped_if (not (qty == c.decrement)) m in
    if c.decrement == 0
    then invalid m
    else notify slot (
        if less.info.leaves_qty == 0
        then end_of_life slot less (outcome_of less) counted
        else keep_working slot less counted)

unfoldable pub on_canceled : Canceled → Nanos → Manager → Manager
unfolding active cancel_shares
on_canceled c now m = active c.token m (λ slot. cancel_shares slot c now m)

-- The reason and the time, written after the order was dealt with.
abbrev pub give_reason : ℕ → ℕ → Nanos → Manager → Manager
give_reason slot reason now m =
    let e = entry_at m slot in
    put slot (record e { info = record e.info { reason = reason; last_update = now } }) m

-- The entry of an order whose replacement failed.
abbrev pub live_again : Entry → Entry
live_again e = record (no_replacement e) { info = record e.info { status = live } }

unfoldable pub reject : Match → Rejected → Nanos → Manager → Manager
unfolding sync_ledger end_of_life
reject found r now m =
    let slot = found.slot in
    let e = entry_at m slot in
    if found.replacement
    then notify slot
        (give_reason slot r.reason now (sync_ledger slot (live_again e) (drop_replacement e m)))
    else if e.acked
    then invalid m
    else notify slot (give_reason slot r.reason now (end_of_life slot e rejected m))

unfoldable pub on_rejected : Rejected → Nanos → Manager → Manager
unfolding resolve reject
on_rejected r now m = resolved (resolve r.token m) m (λ found. reject found r now m)

abbrev pub back_to_live : OrderStatus → OrderStatus
back_to_live pending_replace = live
back_to_live other = other

abbrev pub resumed : Entry → Entry
resumed e = record e { info = record e.info { status = back_to_live e.info.status } }

-- The entry after its replacement took effect, with what is open as reported.
unfoldable pub replaced_entry : Entry → Messages.Accepted → Nanos → Entry
replaced_entry e a now =
    let total = e.replace_qty in
    let asked = total - e.info.cum_qty in
    let wire_price = ltb_ℤ (pos 0) a.price && leb_ℤ a.price max_wire_price in
    record e {
      info = record e.info {
        req = record e.info.req {
          qty = max total e.info.cum_qty;
          price = if wire_price then a.price else e.replace_price;
        };
        exchange_ref = if a.ref == 0 then e.info.exchange_ref else a.ref;
        leaves_qty = if a.order_state == b'D' then 0 else min a.shares asked;
        last_update = now;
      };
      token = e.next_token;
      next_token = 0;
      replace_price = pos 0;
      replace_qty = 0;
    }

unfoldable pub swap_token : ℕ → Messages.Accepted → Nanos → Manager → Manager
unfolding replaced_entry sync_ledger end_of_life
swap_token slot a now m =
    let e = entry_at m slot in
    let swapped = replaced_entry e a now in
    let over = not (a.order_state == b'D') && ltb (e.replace_qty - e.info.cum_qty) a.shares in
    let counted = clamped_if over m in
    let erased = record counted { tokens = erase e.token m.tokens } in
    notify slot (
      if swapped.info.leaves_qty == 0
      then end_of_life slot swapped (outcome_of swapped) erased
      else sync_ledger slot (resumed swapped) erased)

-- Not of a replacement in flight, or not of this order, or with no state.
abbrev pub bad_replaced : Replaced → Match → Manager → Bool
bad_replaced rp found m =
    not found.replacement
    || not (token_eq rp.previous (from_id (entry_at m found.slot).token))
    || not (is_state rp.a.order_state)

unfoldable pub on_replaced : Replaced → Nanos → Manager → Manager
unfolding resolve swap_token
on_replaced rp now m =
    resolved (resolve rp.a.token m) m
      (λ found. if bad_replaced rp found m then invalid m else swap_token found.slot rp.a now m)

-- A report by the type of its message.
unfoldable pub on_report : Outbound → Nanos → Manager → Manager
unfolding on_accepted on_executed on_canceled on_rejected on_replaced
on_report (Messages.accepted a) now m = on_accepted a now m
on_report (Messages.replaced rp) now m = on_replaced rp now m
on_report (Messages.canceled c) now m = on_canceled c now m
on_report (Messages.executed x) now m = on_executed x now m
on_report (Messages.rejected r) now m = on_rejected r now m
