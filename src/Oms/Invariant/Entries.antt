-- ===== src/Oms/Invariant/Entries.antt =====
-- order_manager.hpp: what the reports make of the entry of an order.
use opti_trade_engine.Prelude.{
  ℕ, ◌+◌, ◌-◌, ◌/◌, ◌≤◌, ◌<◌, ◌≡◌, ◌≢◌, refl, Bool, true, false, ◌||◌, List, Option, none, some,
  if◌then◌else◌, arith, min, max, All,
}
use opti_trade_engine.Prelude.Int.{pos}
use opti_trade_engine.Core.Types.{Nanos, max_order_qty}
use opti_trade_engine.Core.Table.{find}
use opti_trade_engine.Ouch.Messages
use opti_trade_engine.Ouch.Messages.{Token, Executed, Canceled, Rejected, Replaced, Outbound}
use opti_trade_engine.Risk.Engine.Cells.{table_size}
use opti_trade_engine.Risk.Engine.Counts.{same-Moves}
use opti_trade_engine.Oms.Types.{OrderStatus, is_terminal, OrderInfo}
use opti_trade_engine.Oms.State.{Entry, Manager}
use opti_trade_engine.Oms.Manager.{entry_at, want, closed, tell, seen_match}
use opti_trade_engine.Oms.Manager.Reports.{
  confirmed, accepted_entry, no_fact, tell_fill, fill_notice, tell_update, give_reason,
}
use opti_trade_engine.Oms.Ledger.{one, Facts}
use opti_trade_engine.Oms.Slots.{Slots, Below}
use opti_trade_engine.Oms.Invariant.{IsValid, entry-Facts, store-IsValid}
use opti_trade_engine.Oms.Invariant.Notices.{tell-IsValid, notify-IsValid, is_terminal-confirm}

-- What a finished order needs of the entry.
pub closed-Facts :
    (n : ℕ) (e : Entry) (outcome : OrderStatus)
    → e.info.id ≢ 0
    → e.info.req.locate < n
    → e.info.cum_qty ≤ e.info.req.qty
    → e.info.req.qty ≤ max_order_qty
    → (0 < e.info.cum_qty → e.info.avg_price ≡ pos (e.notional / e.info.cum_qty))
    → is_terminal outcome ≡ true
    → Facts n (closed e outcome)
closed-Facts n e outcome used on_table within size priced ends = record {
  used = used;
  on_table = on_table;
  within = omega arith;
  size = size;
  replacing = omega arith;
  reserves = rw ends refl;
  ended = λ h. (refl, refl);
  priced = priced;
}

pub confirmed-Facts : (n : ℕ) (e : Entry) → Facts n e → Facts n (confirmed e)
unfolding want
confirmed-Facts n e f = record {
  used = f.used;
  on_table = f.on_table;
  within = f.within;
  size = f.size;
  replacing = f.replacing;
  reserves = rw (is_terminal-confirm e.info.status) f.reserves;
  ended = λ h. f.ended (rw (is_terminal-confirm e.info.status) at h);
  priced = f.priced;
}

pub accepted_entry-Facts :
    (n : ℕ) (e : Entry) (a : Messages.Accepted) (now : Nanos)
    → Facts n e
    → Facts n (accepted_entry e a now)
unfolding want
accepted_entry-Facts n e a now f = record {
  used = f.used;
  on_table = f.on_table;
  within = f.within;
  size = f.size;
  replacing = f.replacing;
  reserves = f.reserves;
  ended = f.ended;
  priced = f.priced;
}

-- What a working order needs of the entry.
pub synced-Facts :
    (n : ℕ) (e : Entry)
    → e.info.id ≢ 0
    → e.info.req.locate < n
    → e.info.leaves_qty + e.info.cum_qty ≤ e.info.req.qty
    → e.info.req.qty ≤ max_order_qty
    → e.replace_qty ≤ max_order_qty
    → (0 < e.info.cum_qty → e.info.avg_price ≡ pos (e.notional / e.info.cum_qty))
    → is_terminal e.info.status ≡ false
    → Facts n (record e { reserved = want e })
unfolding want
synced-Facts n e used on_table within size replacing priced working = record {
  used = used;
  on_table = on_table;
  within = within;
  size = size;
  replacing = replacing;
  reserves = rw working refl;
  ended = λ h. cc (rw working at h);
  priced = priced;
}

tell_update-IsValid :
    (before : OrderInfo) (o : Option ℕ) (m : Manager) → IsValid m → IsValid (tell_update before o m)
tell_update-IsValid before none m v = tell-IsValid _ m v
tell_update-IsValid before (some place) m v = notify-IsValid place m v

pub tell_fill-IsValid :
    (x : Executed) (now : Nanos) (slot : ℕ) (m : Manager)
    → IsValid m
    → IsValid (tell_fill x now slot m)
tell_fill-IsValid x now slot m v =
    tell_update-IsValid (entry_at m slot).info (find (entry_at m slot).info.id _)
      (tell (fill_notice x now (entry_at m slot).info) m)
      (tell-IsValid (fill_notice x now (entry_at m slot).info) m v)

pub give_reason-IsValid :
    (m : Manager) (slot reason : ℕ) (now : Nanos)
    → IsValid m
    → slot < m.fresh
    → IsValid (give_reason slot reason now m)
unfolding want
give_reason-IsValid m slot reason now v h =
    let e = entry_at m slot in
    let f = entry-Facts m slot v h in
    let told : Entry = record e { info = record e.info { reason = reason; last_update = now } } in
    let kept : Facts (table_size m.risk) told = record {
      used = f.used;
      on_table = f.on_table;
      within = f.within;
      size = f.size;
      replacing = f.replacing;
      reserves = f.reserves;
      ended = f.ended;
      priced = f.priced;
    } in
    store-IsValid m slot told m.risk v h refl refl refl refl
      (same-Moves m.risk _ _ e.reserved (one told) v.books.sound) kept

-- A fill whose quantities are a fact.
pub fact_bounds :
    (e : Entry) (x : Executed)
    → (no_fact e x || seen_match e x.match) ≡ false
    → e.info.cum_qty ≤ max_order_qty
    → (0 < x.shares) × (e.info.cum_qty + x.shares ≤ max_order_qty)
fact_bounds e x h small = (ground arith, ground arith)

-- The same table of slots with other tokens.
pub renamed-Slots :
    (m : Manager) {tokens : List (ℕ × ℕ)}
    → IsValid m
    → All (Below m.fresh) tokens
    → Slots m.orders m.finished m.finished_head m.finished_count m.fresh m.open_count m.by_id tokens
renamed-Slots m v names = record {
  ring = v.slots.ring;
  head_in = v.slots.head_in;
  once = v.slots.once;
  inside = v.slots.inside;
  total = v.slots.total;
  few = v.slots.few;
  used = v.slots.used;
  unused = v.slots.unused;
  ids = v.slots.ids;
  names = names;
}

pub replaced_within :
    (dead : Bool) (shares total cum : ℕ)
    → (if dead then 0 else min shares (total - cum)) + cum ≤ max total cum
replaced_within true shares total cum = omega arith
replaced_within false shares total cum = omega arith

pub executed_within :
    (leaves cum qty x : ℕ)
    → leaves + cum ≤ qty
    → leaves - min x leaves + (cum + x) ≤ max qty (cum + x)
executed_within leaves cum qty x h = omega arith

pub less_within : (leaves cum qty x : ℕ) → leaves + cum ≤ qty → leaves - x + cum ≤ qty
less_within leaves cum qty x h = omega arith
