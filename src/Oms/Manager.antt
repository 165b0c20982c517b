-- ===== src/Oms/Manager.antt =====
-- include/optitrade/oms/order_manager.hpp, the class OrderManager: its private helpers.
use opti_trade_engine.Prelude.{
  ℕ, zero, suc, ◌+◌, ◌-◌, ◌*◌, ◌%◌, Bool, true, false, ◌&&◌, ◌||◌, not, List, [], ◌∷◌, Option, none,
  some, ltb, leb, ◌==◌, if◌then◌else◌, length, get_or, set, replicate, min, max,
}
use opti_trade_engine.Prelude.Int.{ℤ, pos, ltb_ℤ, leb_ℤ}
use opti_trade_engine.Core.Types.{Price, Qty, Locate, Nanos, Side, buy, max_order_qty, u32_max}
use opti_trade_engine.Core.Table.{find, erase}
use opti_trade_engine.Itch.Messages.{Symbol}
use opti_trade_engine.Ouch.Messages.{Token, Inbound}
use opti_trade_engine.Ouch.Token.{from_id, to_id, max_id}
use opti_trade_engine.Risk.Engine.{Engine, on_order_grow, on_order_reduce, on_order_end}
use opti_trade_engine.Oms.Types.{
  OrderId, Tif, day, ioc, OrderRequest, OrderStatus, pending_new, live, pending_cancel,
  pending_replace, filled, canceled, rejected, is_terminal, OrderInfo, Notice, on_order_update,
}
use opti_trade_engine.Oms.State.{
  match_memory, max_wire_price, none_slot, Entry, Link, Manager, blank_entry, no_link,
}
pub mod Calls
pub mod Reports

-- A side and a time in force are always those of their types here.
abbrev pub valid : OrderRequest → Bool
valid r =
    leb 1 r.qty && leb r.qty max_order_qty && ltb_ℤ (pos 0) r.price && leb_ℤ r.price max_wire_price

abbrev pub wire_tif : Tif → ℕ
wire_tif ioc = 0
wire_tif day = 99999

abbrev pub entry_at : Manager → ℕ → Entry
entry_at m slot = get_or m.orders slot blank_entry

abbrev pub put : ℕ → Entry → Manager → Manager
put slot e m = record m { orders = set m.orders slot e }

abbrev pub token_available : Manager → Bool
token_available m = leb m.next_token max_id && ltb (length m.tokens) (2 * length m.orders)

abbrev pub slot_available : Manager → Bool
slot_available m = ltb m.fresh (length m.orders) || not (m.finished_count == 0)

unfoldable pub next_slot : Manager → ℕ
next_slot m = if ltb m.fresh (length m.orders) then m.fresh else get_or m.finished m.finished_head 0

unfoldable pub take_slot : ℕ → Manager → Manager
take_slot slot m =
    let unused = ltb m.fresh (length m.orders) in
    let old = entry_at m slot in
    record m {
      fresh = if unused then m.fresh + 1 else m.fresh;
      finished_head = if unused then m.finished_head else (m.finished_head + 1) % length m.finished;
      finished_count = if unused then m.finished_count else m.finished_count - 1;
      by_id = if unused then m.by_id else erase old.info.id m.by_id;
      tokens = if unused then m.tokens else erase old.token m.tokens;
    }

abbrev pub link_at : List Link → ℕ → Link
link_at ls slot = get_or ls slot no_link

abbrev pub set_next : List Link → ℕ → ℕ → List Link
set_next ls slot n = set ls slot (record (link_at ls slot) { next = n })

abbrev pub set_prev : List Link → ℕ → ℕ → List Link
set_prev ls slot p = set ls slot (record (link_at ls slot) { prev = p })

unfoldable pub link : ℕ → Manager → Manager
link slot m =
    let own = set m.links slot (record { prev = m.tail; next = none_slot }) in
    let alone = m.tail == none_slot in
    record m {
      links = if alone then own else set_next own m.tail slot;
      head = if alone then slot else m.head;
      tail = slot;
    }

unfoldable pub unlink : ℕ → Manager → Manager
unlink slot m =
    let own = link_at m.links slot in
    let first = own.prev == none_slot in
    let last = own.next == none_slot in
    let before = if first then m.links else set_next m.links own.prev own.next in
    let after = if last then before else set_prev before own.next own.prev in
    record m {
      links = set after slot no_link;
      head = if first then own.next else m.head;
      tail = if last then own.prev else m.tail;
    }

unfoldable pub token_eq : Token → Token → Bool
token_eq t u =
    (t.t0 == u.t0)
    && (t.t1 == u.t1)
    && (t.t2 == u.t2)
    && (t.t3 == u.t3)
    && (t.t4 == u.t4)
    && (t.t5 == u.t5)
    && (t.t6 == u.t6)
    && (t.t7 == u.t7)
    && (t.t8 == u.t8)
    && (t.t9 == u.t9)
    && (t.t10 == u.t10)
    && (t.t11 == u.t11)
    && (t.t12 == u.t12)
    && (t.t13 == u.t13)

pub record Match : Type 0 where
  pub slot : ℕ
  pub replacement : Bool

-- The order in a slot that the token table names for an id.
abbrev pub match_slot : Manager → ℕ → Option ℕ → Option Match
match_slot m id none = none
match_slot m id (some slot) =
    if (entry_at m slot).token == id
    then some record { slot = slot; replacement = false }
    else if (entry_at m slot).next_token == id
    then some record { slot = slot; replacement = true }
    else none

abbrev pub match_id : Manager → Token → Option ℕ → Option Match
match_id m t none = none
match_id m t (some id) =
    if token_eq (from_id id) t then match_slot m id (find id m.tokens) else none

-- `resolve` without its count of unknown tokens, which `resolved` makes.
unfoldable pub resolve : Token → Manager → Option Match
unfolding token_eq
resolve t m = match_id m t (to_id t)

abbrev pub unknown : Manager → Manager
unknown m = record m { stats = record m.stats { unknown_tokens = m.stats.unknown_tokens + 1 } }

abbrev pub late : Manager → Manager
late m = record m { stats = record m.stats { late_reports = m.stats.late_reports + 1 } }

abbrev pub invalid : Manager → Manager
invalid m = record m { stats = record m.stats { invalid_reports = m.stats.invalid_reports + 1 } }

abbrev pub clamped_if : Bool → Manager → Manager
clamped_if over m =
    let n = m.stats.clamped_reports in
    record m { stats = record m.stats { clamped_reports = if over then n + 1 else n } }

-- `resolve`, and then what a handler does with the order that it found, if it is not finished.
abbrev pub resolved : Option Match → Manager → (Match → Manager) → Manager
resolved none m handle = unknown m
resolved (some found) m handle =
    if is_terminal (entry_at m found.slot).info.status then late m else handle found

-- `active_order`: an order by its active token.
unfoldable pub active : Token → Manager → (ℕ → Manager) → Manager
active t m handle =
    resolved (resolve t m) m (λ found. if found.replacement then invalid m else handle found.slot)

abbrev pub recent : ℕ → ℕ → List ℕ → Bool
recent match zero ms = false
recent match (suc n) [] = false
recent match (suc n) (x ∷ ms) = (x == match) || recent match n ms

abbrev pub seen_match : Entry → ℕ → Bool
seen_match e match = recent match (min e.match_count match_memory) e.matches

abbrev pub remember_match : Entry → ℕ → Entry
remember_match e match = record e {
  matches = set e.matches (e.match_count % match_memory) match;
  match_count = e.match_count + 1;
}

-- The shares that the risk engine should hold for an order that works.
unfoldable pub want : Entry → Qty
want e =
    if not (e.next_token == 0) && ltb e.info.cum_qty e.replace_qty
    then max e.info.leaves_qty (e.replace_qty - e.info.cum_qty)
    else e.info.leaves_qty

-- The engine after the quantity that it holds for an order goes from one number to another.
unfoldable pub rebook : Engine → Locate → Side → Qty → Qty → Engine
rebook r locate side old qty =
    if ltb old qty
    then on_order_grow r locate side (qty - old)
    else if ltb qty old
    then on_order_reduce r locate side (old - qty)
    else r

-- The entry is stored in its slot, in step with the ledger.
unfoldable pub sync_ledger : ℕ → Entry → Manager → Manager
unfolding rebook want
sync_ledger slot e m =
    put slot (record e { reserved = want e })
      record m { risk = rebook m.risk e.info.req.locate e.info.req.side e.reserved (want e) }

abbrev pub drop_replacement : Entry → Manager → Manager
drop_replacement e m = record m {
  tokens = if e.next_token == 0 then m.tokens else erase e.next_token m.tokens;
}

-- An entry without the replacement in flight.
abbrev pub no_replacement : Entry → Entry
no_replacement e = record e { next_token = 0; replace_price = pos 0; replace_qty = 0 }

-- The outcome that `end_of_life` takes when none is given.
abbrev pub outcome_of : Entry → OrderStatus
outcome_of e = if leb e.info.req.qty e.info.cum_qty then filled else canceled

abbrev pub closed : Entry → OrderStatus → Entry
closed e outcome = record (no_replacement e) {
  info = record e.info { leaves_qty = 0; status = outcome };
  reserved = 0;
}

-- The entry is stored in its slot, finished.
unfoldable pub end_of_life : ℕ → Entry → OrderStatus → Manager → Manager
unfolding unlink
end_of_life slot e outcome m =
    let dropped = drop_replacement e m in
    let ended = unlink slot (put slot (closed e outcome) dropped) in
    record ended {
      risk = on_order_end m.risk e.info.req.locate e.info.req.side e.reserved;
      finished = set m.finished ((m.finished_head + m.finished_count) % length m.finished) slot;
      finished_count = m.finished_count + 1;
      open_count = m.open_count - 1;
    }

abbrev pub tell : Notice → Manager → Manager
tell n m = if m.has_listener then record m { heard = n ∷ m.heard } else m

abbrev pub notify : ℕ → Manager → Manager
notify slot m = tell (on_order_update (entry_at m slot).info) m
