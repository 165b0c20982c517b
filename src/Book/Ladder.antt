-- ===== src/Book/Ladder.antt =====
-- include/optitrade/book/order_book.hpp, one side of the book (SideBook and what works on it).
-- The used prefix [0, size) of the vector is the list `levels`, worst price first; the slots past
-- `size` are never read, so that list and the capacity are the whole of a SideBook.
pub mod Search
pub mod Invariant
pub mod View
pub mod Effects
pub mod Removal
use opti_trade_engine.Prelude.{
  ℕ, zero, suc, ◌+◌, ◌-◌, ◌/◌, Bool, ◌&&◌, ◌||◌, not, List, [], ◌∷◌, ◌++◌, ltb, ◌==◌, if◌then◌else◌,
  length, get_or, set, insert_at, remove_at,
}
use opti_trade_engine.Prelude.Int.{pos, ltb_ℤ, eqb_ℤ}
use opti_trade_engine.Core.Types.{Price, Qty, Side, buy, sell, u32_max}

pub record Level : Type 0 where
  pub price : Price
  pub qty : Qty
  pub orders : ℕ

-- A level and the id of its incarnation.
pub record Entry : Type 0 where
  pub lv : Level
  pub open lv use *
  pub id : ℕ

pub record SideBook : Type 0 where
  pub capacity : ℕ
  pub levels : List Entry

abbrev pub no_level : ℕ
no_level = 0

abbrev pub empty_level : Level
empty_level = record { price = pos 0; qty = 0; orders = 0 }

abbrev pub empty_entry : Entry
empty_entry = record { lv = empty_level; id = no_level }

unfoldable pub better : Side → Price → Price → Bool
better buy a b = ltb_ℤ b a
better sell a b = ltb_ℤ a b

abbrev pub entry_at : List Entry → ℕ → Entry
entry_at xs i = get_or xs i empty_entry

-- The loop over the window at the touch: `i` falls to `stop` while the level below it is equal or
-- better.
unfoldable pub scan_window : Side → Price → List Entry → ℕ → ℕ → ℕ
scan_window s price xs stop zero = zero
scan_window s price xs stop (suc i) =
    let rest = scan_window s price xs stop i in
    if ltb stop (suc i) && not (better s price (entry_at xs i).price) then rest else suc i

-- The binary search below the window. One unit of fuel for a round; hi - lo falls at each.
unfoldable pub bisect : ℕ → Side → Price → List Entry → ℕ → ℕ → ℕ
bisect zero s price xs lo hi = lo
bisect (suc fuel) s price xs lo hi =
    let mid = lo + (hi - lo) / 2 in
    let right = bisect fuel s price xs (mid + 1) hi in
    let left = bisect fuel s price xs lo mid in
    if ltb lo hi then (if better s price (entry_at xs mid).price then right else left) else lo

abbrev pub window : ℕ
window = 8

unfoldable pub find_pos : Side → Price → List Entry → ℕ
unfolding scan_window bisect better
find_pos s price xs =
    let hi = length xs in
    let stop = if ltb window hi then hi - window else 0 in
    let i = scan_window s price xs stop hi in
    let below = bisect stop s price xs 0 stop in if ltb stop i || stop == 0 then i else below

-- `pos < sb.size && sb.e[pos].lv.price == price`
abbrev pub level_there : List Entry → ℕ → Price → Bool
level_there xs i price = ltb i (length xs) && eqb_ℤ (entry_at xs i).price price

-- What an add does to one side.
pub data Placed : Type 0 where
  refused : Placed
  joined : SideBook → ℕ → Placed
  created : SideBook → Placed
  evicted : SideBook → Placed

-- The order joins the level `e`, unless a counter of 32 bits would overflow.
unfoldable pub join : ℕ → Entry → Qty → SideBook → Placed
join i e qty sb =
    let grown : Entry = record {
      lv = record { price = e.price; qty = e.qty + qty; orders = e.orders + 1 };
      id = e.id;
    } in
    if ltb (u32_max - qty) e.qty || e.orders == u32_max
    then refused
    else joined (record sb { levels = set sb.levels i grown }) e.id

-- A new level at position `i`. On a full side the worst level, cell 0, goes: the cells [1, i)
-- slide down over it and the new one stands at i - 1.
unfoldable pub create : ℕ → Entry → SideBook → Placed
create i fresh sb =
    if length sb.levels == sb.capacity
    then (if i == 0
        then refused
        else evicted (record sb { levels = insert_at (i - 1) fresh (remove_at 0 sb.levels) }))
    else created (record sb { levels = insert_at i fresh sb.levels })

unfoldable pub place : Side → Price → Qty → ℕ → SideBook → Placed
place s price qty next_id sb =
    let xs = sb.levels in
    let i = find_pos s price xs in
    let fresh : Entry = record {
      lv = record { price = price; qty = qty; orders = 1 };
      id = next_id;
    } in
    if level_there xs i price then join i (entry_at xs i) qty sb else create i fresh sb

pub data Taken : Type 0 where
  kept : Taken
  taken : SideBook → Taken

-- `lv.qty -= qty` and what follows: the level goes, or loses an order, or only shares.
unfoldable pub take_from : ℕ → Entry → Qty → Bool → SideBook → SideBook
take_from i e qty whole_order sb =
    let left : Entry = record {
      lv = record {
        price = e.price;
        qty = e.qty - qty;
        orders = if whole_order && ltb 1 e.orders then e.orders - 1 else e.orders;
      };
      id = e.id;
    } in
    record sb { levels = if e.qty - qty == 0 then remove_at i sb.levels else set sb.levels i left }

-- `id` is `no_level` for any incarnation.
unfoldable pub take_order : Side → Price → Qty → ℕ → Bool → SideBook → Taken
take_order s price qty id whole_order sb =
    let xs = sb.levels in
    let i = find_pos s price xs in
    let e = entry_at xs i in
    if not (level_there xs i price)
    then kept
    else if not (id == no_level) && not (e.id == id)
    then kept
    else if ltb e.qty qty
    then kept
    else taken (take_from i e qty whole_order sb)

pub qty_at : Side → Price → SideBook → Qty
qty_at s price sb =
    let i = find_pos s price sb.levels in
    if level_there sb.levels i price then (entry_at sb.levels i).qty else 0
