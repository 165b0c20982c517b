-- ===== src/Book/MarketBooks.antt =====
-- include/optitrade/book/market_books.hpp. The two FlatHashMaps are association lists; the pages are
-- a set of page numbers with the slots as a function of the locate, blank where no page was
-- allocated. Whether memory is to be had for a page or a book is an argument of every call that may
-- allocate. A Side has no third value, so the test for one in `add_order` is left out.
use opti_trade_engine.Prelude.{
  ℕ, ◌+◌, ◌-◌, ◌/◌, Bool, true, false, ◌&&◌, ◌||◌, not, List, [], ◌∷◌, Option, none, some, ltb, leb,
  ◌==◌, if◌then◌else◌, length, min,
}
use opti_trade_engine.Prelude.Int.{pos}
use opti_trade_engine.Core.Types.{Price, Qty, OrderRef, Locate, Side}
pub mod Tally
pub mod Handlers
pub mod Posting
pub mod Shares
pub mod Held
pub mod OneBook
pub mod Global
pub mod Soundness
use opti_trade_engine.Itch.Messages
use opti_trade_engine.Itch.Messages.{Symbol, Message}
use opti_trade_engine.Book.Ladder.{no_level}
use opti_trade_engine.Book.OrderBook.{OrderBook, add_order, remove_order, reduce_order}
use opti_trade_engine.Book.OrderBook

pub data Applied : Type 0 where
  ok ignored unknown_order duplicate_order unknown_symbol capacity invalid : Applied

pub record OrderInfo : Type 0 where
  pub locate : Locate
  pub side : Side
  pub price : Price
  pub qty : Qty

pub record OrderRecord : Type 0 where
  pub info : OrderInfo
  pub open info use *
  pub level : ℕ

pub record Slot : Type 0 where
  pub book : Option OrderBook
  pub symbol : Symbol
  pub last_trade : Price

pub record MarketBooks : Type 0 where
  pub max_orders : ℕ
  pub max_levels : ℕ
  pub max_symbols : ℕ
  pub orders : List (OrderRef × OrderRecord)
  pub by_symbol : List (Symbol × Locate)
  pub pages : ℕ → Bool
  pub slots : Locate → Slot
  pub applied : ℕ
  pub overflows : ℕ

-- Whether an allocation of a page or of a book would succeed during a call.
pub record Memory : Type 0 where
  pub page : Bool
  pub book : Bool

abbrev pub blank_symbol : Symbol
blank_symbol = record {
  c0 = b' ';
  c1 = b' ';
  c2 = b' ';
  c3 = b' ';
  c4 = b' ';
  c5 = b' ';
  c6 = b' ';
  c7 = b' ';
}

abbrev pub blank_slot : Slot
blank_slot = record { book = none; symbol = blank_symbol; last_trade = pos 0 }

abbrev pub locates : ℕ
locates = 65536

unfoldable pub new : ℕ → ℕ → ℕ → MarketBooks
new max_orders max_levels max_symbols = record {
  max_orders = max_orders;
  max_levels = max_levels;
  max_symbols = min max_symbols locates;
  orders = [];
  by_symbol = [];
  pages = λ k. false;
  slots = λ l. blank_slot;
  applied = 0;
  overflows = 0;
}

abbrev pub padding : ℕ → Bool
padding c = (c == b' ') || (c == 0)

unfoldable pub symbol_empty : Symbol → Bool
symbol_empty s =
    padding s.c0
    && padding s.c1
    && padding s.c2
    && padding s.c3
    && padding s.c4
    && padding s.c5
    && padding s.c6
    && padding s.c7

unfoldable pub symbol_eq : Symbol → Symbol → Bool
symbol_eq s t =
    (s.c0 == t.c0)
    && (s.c1 == t.c1)
    && (s.c2 == t.c2)
    && (s.c3 == t.c3)
    && (s.c4 == t.c4)
    && (s.c5 == t.c5)
    && (s.c6 == t.c6)
    && (s.c7 == t.c7)

-- The maps' find, erase and write in place.
unfoldable pub find_symbol : Symbol → List (Symbol × Locate) → Option Locate
unfolding symbol_eq
find_symbol s [] = none
find_symbol s ((t, l) ∷ xs) = if symbol_eq s t then some l else find_symbol s xs

unfoldable pub find_order : OrderRef → List (OrderRef × OrderRecord) → Option OrderRecord
find_order ref [] = none
find_order ref ((k, o) ∷ xs) = if k == ref then some o else find_order ref xs

unfoldable pub erase_order :
    OrderRef → List (OrderRef × OrderRecord) → List (OrderRef × OrderRecord)
erase_order ref [] = []
erase_order ref ((k, o) ∷ xs) = if k == ref then xs else (k, o) ∷ erase_order ref xs

-- `info.qty -= shares` of the record that is found.
unfoldable pub shrink_order :
    OrderRef → Qty → List (OrderRef × OrderRecord) → List (OrderRef × OrderRecord)
shrink_order ref shares [] = []
shrink_order ref shares ((k, o) ∷ xs) =
    if k == ref
    then (k, record o { info = record o.info { qty = o.qty - shares } }) ∷ xs
    else (k, o) ∷ shrink_order ref shares xs

unfoldable pub find_slot : Locate → MarketBooks → Option Slot
find_slot l m = if m.pages (l / 256) then some (m.slots l) else none

-- With a page for the locate, and whether there is one.
unfoldable pub slot_for : Memory → Locate → MarketBooks → MarketBooks × Bool
slot_for mem l m =
    if m.pages (l / 256)
    then (m, true)
    else if mem.page
    then (record m { pages = λ k. if k == l / 256 then true else m.pages k }, true)
    else (m, false)

unfoldable pub set_slot : Locate → Slot → MarketBooks → MarketBooks
set_slot l slot m = record m { slots = λ k. if k == l then slot else m.slots k }

unfoldable pub ensure_book : Memory → ℕ → Slot → Option OrderBook
unfolding OrderBook.new
ensure_book mem max_levels slot = elim slot.book [
  | some b ↦ some b
  | none ↦ if mem.book then some (OrderBook.new max_levels) else none
]

-- The order is added to the book of its slot and recorded.
unfoldable pub post :
    OrderRef → Locate → Side → Price → Qty → OrderBook → MarketBooks → MarketBooks × Bool
unfolding set_slot add_order
post ref loc side price qty b m =
    let r = add_order side price qty b in
    let info : OrderInfo = record { locate = loc; side = side; price = price; qty = qty } in
    (
      record (set_slot loc (record (m.slots loc) { book = some r.0 }) m) {
        overflows = m.overflows + (r.0.overflows - b.overflows);
        orders = (ref, record { info = info; level = r.1 }) ∷ m.orders;
      },
      not (r.1 == no_level),
    )

unfoldable pub insert_order :
    Memory → OrderRef → Locate → Side → Price → Qty → MarketBooks → MarketBooks × Bool
unfolding slot_for ensure_book post
insert_order mem ref loc side price qty m =
    let r = slot_for mem loc m in
    if not r.1 then (r.0, false) else elim (ensure_book mem m.max_levels (r.0.slots loc)) [
      | none ↦ (r.0, false)
      | some b ↦ post ref loc side price qty b r.0
    ]

-- A change of the book of a locate that has live orders.
unfoldable pub on_book : Locate → (OrderBook → OrderBook) → MarketBooks → MarketBooks
unfolding set_slot
on_book loc f m = elim (m.slots loc).book [
  | none ↦ m
  | some b ↦ set_slot loc (record (m.slots loc) { book = some (f b) }) m
]

unfoldable pub drop_record : OrderRef → OrderRecord → MarketBooks → MarketBooks
unfolding on_book erase_order remove_order
drop_record ref rec m =
    let off : MarketBooks =
      if not (rec.level == no_level)
      then on_book rec.locate (λ b. (remove_order rec.side rec.price rec.qty rec.level b).0) m
      else m in
    record off { orders = erase_order ref m.orders }

unfoldable pub shrink_record : OrderRef → OrderRecord → Qty → MarketBooks → MarketBooks
unfolding on_book shrink_order reduce_order
shrink_record ref rec shares m =
    let less : MarketBooks =
      if not (rec.level == no_level)
      then on_book rec.locate (λ b. (reduce_order rec.side rec.price shares rec.level b).0) m
      else m in
    record less { orders = shrink_order ref shares m.orders }

abbrev pub count_applied : MarketBooks → MarketBooks
count_applied m = record m { applied = m.applied + 1 }

unfoldable pub trade_at : Locate → Price → MarketBooks → MarketBooks
unfolding set_slot
trade_at loc price m = set_slot loc (record (m.slots loc) { last_trade = price }) m

-- `trade_price` is none for the order's own price; `execution` is false for a cancel.
unfoldable pub reduce_record :
    OrderRef → OrderRecord → Qty → Option Price → Bool → MarketBooks → MarketBooks × Applied
unfolding drop_record shrink_record trade_at
reduce_record ref rec shares trade_price execution m =
    let traded : Price = elim trade_price [ some px ↦ px | none ↦ rec.price ] in
    let left =
      if shares == rec.qty then drop_record ref rec m else shrink_record ref rec shares m in
    if ltb rec.qty shares
    then (drop_record ref rec m, invalid)
    else (count_applied (if execution then trade_at rec.locate traded left else left), ok)

unfoldable pub reduce : OrderRef → Qty → Option Price → Bool → MarketBooks → MarketBooks × Applied
unfolding reduce_record find_order
reduce ref shares trade_price execution m = elim (find_order ref m.orders) [
  | none ↦ (m, unknown_order)
  | some rec ↦
      if shares == 0 then (m, invalid) else reduce_record ref rec shares trade_price execution m
]

abbrev pub outcome : MarketBooks × Bool → MarketBooks × Applied
outcome r = if r.1 then (count_applied r.0, ok) else (r.0, capacity)

abbrev pub is_some {ℓ} : {A : Type ℓ} → Option A → Bool
is_some none = false
is_some (some a) = true

unfoldable pub on_add_order : Memory → Messages.AddOrder → MarketBooks → MarketBooks × Applied
unfolding insert_order find_order
on_add_order mem msg m =
    if msg.shares == 0
    then (m, invalid)
    else if is_some (find_order msg.ref m.orders)
    then (m, duplicate_order)
    else if leb m.max_orders (length m.orders)
    then (m, capacity)
    else outcome (insert_order mem msg.ref msg.h.locate msg.side msg.price msg.shares m)

unfoldable pub on_order_executed : Messages.OrderExecuted → MarketBooks → MarketBooks × Applied
unfolding reduce
on_order_executed msg m = reduce msg.ref msg.shares none true m

unfoldable pub on_order_executed_price :
    Messages.OrderExecutedPrice → MarketBooks → MarketBooks × Applied
unfolding reduce
on_order_executed_price msg m = reduce msg.ref msg.shares (some msg.price) true m

unfoldable pub on_order_cancel : Messages.OrderCancel → MarketBooks → MarketBooks × Applied
unfolding reduce
on_order_cancel msg m = reduce msg.ref msg.shares none false m

unfoldable pub on_order_delete : Messages.OrderDelete → MarketBooks → MarketBooks × Applied
unfolding drop_record find_order
on_order_delete msg m = elim (find_order msg.ref m.orders) [
  | none ↦ (m, unknown_order)
  | some rec ↦ (count_applied (drop_record msg.ref rec m), ok)
]

unfoldable pub on_order_replace :
    Memory → Messages.OrderReplace → MarketBooks → MarketBooks × Applied
unfolding drop_record insert_order find_order
on_order_replace mem msg m = elim (find_order msg.old_ref m.orders) [
  | none ↦ (m, unknown_order)
  | some old ↦
      if msg.shares == 0
      then (m, invalid)
      else if is_some (find_order msg.new_ref m.orders)
      then (m, duplicate_order)
      else outcome (
          insert_order mem msg.new_ref old.locate old.side msg.price msg.shares
            (drop_record msg.old_ref old m))
]

unfoldable pub on_trade : Memory → Messages.Trade → MarketBooks → MarketBooks × Applied
unfolding slot_for trade_at
on_trade mem msg m =
    let r = slot_for mem msg.h.locate m in
    ((if r.1 then trade_at msg.h.locate msg.price r.0 else r.0), ignored)

-- A symbol that is not bound yet.
unfoldable pub register : Memory → Messages.StockDirectory → MarketBooks → MarketBooks × Applied
unfolding slot_for ensure_book set_slot
register mem msg m =
    let loc = msg.h.locate in
    let r = slot_for mem loc m in
    let slot = r.0.slots loc in
    if leb m.max_symbols (length m.by_symbol)
    then (m, capacity)
    else if not r.1
    then (r.0, capacity)
    else elim (ensure_book mem m.max_levels slot) [
      | none ↦ (r.0, capacity)
      | some b ↦ (
        record (set_slot loc (record slot { book = some b; symbol = msg.symbol }) r.0) {
          by_symbol = (msg.symbol, loc) ∷ m.by_symbol;
        },
        ok,
      )
    ]

unfoldable pub named_slot : Locate → MarketBooks → Bool
unfolding find_slot symbol_empty
named_slot l m = elim (find_slot l m) [ none ↦ false | some slot ↦ not (symbol_empty slot.symbol) ]

unfoldable pub on_stock_directory :
    Memory → Messages.StockDirectory → MarketBooks → MarketBooks × Applied
unfolding register named_slot find_symbol symbol_empty
on_stock_directory mem msg m =
    if symbol_empty msg.symbol then (m, invalid) else elim (find_symbol msg.symbol m.by_symbol) [
      | some bound ↦ (m, if bound == msg.h.locate then ignored else invalid)
      | none ↦ if named_slot msg.h.locate m then (m, invalid) else register mem msg m
    ]

unfoldable pub on : Memory → Message → MarketBooks → MarketBooks × Applied
unfolding on_stock_directory on_add_order on_order_executed on_order_executed_price on_order_cancel
    on_order_delete on_order_replace on_trade
on mem (Messages.system_event msg) m = (m, ignored)
on mem (Messages.stock_directory msg) m = on_stock_directory mem msg m
on mem (Messages.add_order msg) m = on_add_order mem msg m
on mem (Messages.order_executed msg) m = on_order_executed msg m
on mem (Messages.order_executed_price msg) m = on_order_executed_price msg m
on mem (Messages.order_cancel msg) m = on_order_cancel msg m
on mem (Messages.order_delete msg) m = on_order_delete msg m
on mem (Messages.order_replace msg) m = on_order_replace mem msg m
on mem (Messages.trade msg) m = on_trade mem msg m

unfoldable pub book : Locate → MarketBooks → Option OrderBook
unfolding find_slot
book l m = elim (find_slot l m) [ none ↦ none | some slot ↦ slot.book ]

unfoldable pub last_trade : Locate → MarketBooks → Price
unfolding find_slot
last_trade l m = elim (find_slot l m) [ none ↦ pos 0 | some slot ↦ slot.last_trade ]

unfoldable pub live_orders : MarketBooks → ℕ
live_orders m = length m.orders
