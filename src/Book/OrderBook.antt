-- ===== src/Book/OrderBook.antt =====
-- include/optitrade/book/order_book.hpp, the class OrderBook.
pub mod Invariant
pub mod Contract
pub mod Touch
pub mod Ids
use opti_trade_engine.Prelude.{
  ℕ, zero, suc, ◌+◌, ◌-◌, Bool, true, false, ◌&&◌, not, List, [], Option, none, some, ltb, leb,
  ◌==◌, if◌then◌else◌, length, min,
}
use opti_trade_engine.Prelude.Int.{leb_ℤ}
use opti_trade_engine.Core.Types.{Price, Qty, Side, buy, sell, u32_max}
use opti_trade_engine.Book.Ladder.{
  Level, Entry, SideBook, Placed, refused, joined, created, evicted, Taken, kept, taken, no_level,
  empty_level, entry_at, place, take_order,
}
use opti_trade_engine.Book.Ladder

pub record OrderBook : Type 0 where
  pub bids : SideBook
  pub asks : SideBook
  pub next_id : ℕ
  pub updates : ℕ
  pub overflows : ℕ

unfoldable pub new : ℕ → OrderBook
new max_levels_per_side = record {
  bids = record { capacity = max_levels_per_side; levels = [] };
  asks = record { capacity = max_levels_per_side; levels = [] };
  next_id = 1;
  updates = 0;
  overflows = 0;
}

abbrev pub side_book : Side → OrderBook → SideBook
side_book buy b = b.bids
side_book sell b = b.asks

abbrev pub set_side : Side → SideBook → OrderBook → OrderBook
set_side buy sb b = record b { bids = sb }
set_side sell sb b = record b { asks = sb }

-- The counters that go with each outcome of an add, and the id that it returns.
unfoldable pub commit : Side → OrderBook → Placed → OrderBook × ℕ
commit s b refused = (record b { overflows = b.overflows + 1 }, no_level)
commit s b (joined sb id) = (record (set_side s sb b) { updates = b.updates + 1 }, id)
commit s b (created sb) =
    (record (set_side s sb b) { next_id = b.next_id + 1; updates = b.updates + 1 }, b.next_id)
commit s b (evicted sb) = (
  record (set_side s sb b) {
    next_id = b.next_id + 1;
    updates = b.updates + 1;
    overflows = b.overflows + 1;
  },
  b.next_id,
)

unfoldable pub add_order : Side → Price → Qty → OrderBook → OrderBook × ℕ
unfolding commit
add_order s price qty b =
    if qty == 0 then (b, no_level) else commit s b (place s price qty b.next_id (side_book s b))

pub add : Side → Price → Qty → OrderBook → OrderBook × Bool
add s price qty b = let (b', id) = add_order s price qty b in (b', not (id == no_level))

unfoldable pub settle : Side → OrderBook → Taken → OrderBook × Bool
settle s b kept = (b, false)
settle s b (taken sb) = (record (set_side s sb b) { updates = b.updates + 1 }, true)

unfoldable pub take : Side → Price → Qty → ℕ → Bool → OrderBook → OrderBook × Bool
unfolding settle
take s price qty id whole_order b =
    if qty == 0
    then (b, false)
    else settle s b (take_order s price qty id whole_order (side_book s b))

pub remove : Side → Price → Qty → OrderBook → OrderBook × Bool
remove s price qty b = take s price qty no_level true b

pub reduce : Side → Price → Qty → OrderBook → OrderBook × Bool
reduce s price qty b = take s price qty no_level false b

unfoldable pub remove_order : Side → Price → Qty → ℕ → OrderBook → OrderBook × Bool
remove_order s price qty id b =
    if not (id == no_level) then take s price qty id true b else (b, false)

unfoldable pub reduce_order : Side → Price → Qty → ℕ → OrderBook → OrderBook × Bool
reduce_order s price qty id b =
    if not (id == no_level) then take s price qty id false b else (b, false)

pub depth : Side → OrderBook → ℕ
depth s b = length (side_book s b).levels

-- `i = 0` is the best price.
pub level : Side → ℕ → OrderBook → Level
level s i b =
    let xs = (side_book s b).levels in
    if ltb i (length xs) then (entry_at xs (length xs - 1 - i)).lv else empty_level

pub best : Side → OrderBook → Option Level
best s b =
    let xs = (side_book s b).levels in
    if length xs == 0 then none else some (entry_at xs (length xs - 1)).lv

pub qty_at : Side → Price → OrderBook → Qty
qty_at s price b = Ladder.qty_at s price (side_book s b)

-- The loop of `total_qty` over the levels i, i + 1, ... of which `left` are still to come.
sum_levels : ℕ → ℕ → ℕ → List Entry → ℕ
sum_levels zero i sum xs = sum
sum_levels (suc left) i sum xs =
    let sum' = sum + (entry_at xs (length xs - 1 - i)).qty in
    let rest = sum_levels left (i + 1) sum' xs in if leb u32_max sum' then u32_max else rest

pub total_qty : Side → ℕ → OrderBook → Qty
unfolding sum_levels
total_qty s top_n b = let xs = (side_book s b).levels in sum_levels (min top_n (length xs)) 0 0 xs

pub crossed : OrderBook → Bool
crossed b =
    let bids = b.bids.levels in
    let asks = b.asks.levels in
    not (length bids == 0)
    && not (length asks == 0)
    && leb_ℤ (entry_at asks (length asks - 1)).price (entry_at bids (length bids - 1)).price
