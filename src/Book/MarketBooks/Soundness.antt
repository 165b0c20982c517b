-- ===== src/Book/MarketBooks/Soundness.antt =====
-- market_books.hpp: every message keeps the books exact.
use opti_trade_engine.Prelude.{
  ℕ, ◌/◌, ◌≤◌, ◌≡◌, true, false, List, [], ◌∷◌, none, some, arith, Bool-cases, inl, inr,
}
use opti_trade_engine.Core.Types.{Price, Locate, Side, u32_max}
use opti_trade_engine.Itch.Messages
use opti_trade_engine.Itch.Messages.{Symbol, Message}
use opti_trade_engine.Book.Ladder.{Entry}
use opti_trade_engine.Book.OrderBook.{OrderBook}
use opti_trade_engine.Book.OrderBook.Invariant.{IsValid}
use opti_trade_engine.Book.OrderBook.Contract.{level_at}
use opti_trade_engine.Book.MarketBooks.{
  MarketBooks, Memory, Slot, OrderInfo, OrderRecord, Applied, find_order, erase_order, shrink_order,
  slot_for, set_slot, ensure_book, post, insert_order, on_book, drop_record, shrink_record,
  trade_at, reduce_record, reduce, outcome, is_some, count_applied, on_add_order, on_order_executed,
  on_order_executed_price, on_order_cancel, on_order_delete, on_order_replace, on_trade, register,
  on_stock_directory, on, book, find_slot, invalid, named_slot, find_symbol, symbol_empty,
}
use opti_trade_engine.Book.MarketBooks
use opti_trade_engine.Book.MarketBooks.Held.{held}
use opti_trade_engine.Book.MarketBooks.Shares.{books_of, IsSound}
use opti_trade_engine.Book.MarketBooks.Handlers.{
  reduce-IsSound, add_order-IsSound, replace-IsSound, delete-IsSound, trade-IsSound,
  directory-IsSound,
}

-- The share counts of a message that may add an order fit 32 bits.
abbrev pub FitsQty : Message → Type 0
FitsQty (Messages.add_order msg) = msg.shares ≤ u32_max
FitsQty (Messages.order_replace msg) = msg.shares ≤ u32_max
FitsQty msg = Unit {0}

on-IsSound :
    (mem : Memory) (msg : Message) (m : MarketBooks)
    → IsSound m
    → FitsQty msg
    → IsSound (on mem msg m).0
unfolding on on_order_executed on_order_executed_price on_order_cancel
on-IsSound mem (Messages.system_event msg) m v f = v
on-IsSound mem (Messages.stock_directory msg) m v f = directory-IsSound mem msg m v
on-IsSound mem (Messages.add_order msg) m v f = add_order-IsSound mem msg m v f
on-IsSound mem (Messages.order_executed msg) m v f = reduce-IsSound msg.ref msg.shares none true m v
on-IsSound mem (Messages.order_executed_price msg) m v f =
    reduce-IsSound msg.ref msg.shares (some msg.price) true m v
on-IsSound mem (Messages.order_cancel msg) m v f = reduce-IsSound msg.ref msg.shares none false m v
on-IsSound mem (Messages.order_delete msg) m v f = delete-IsSound msg m v
on-IsSound mem (Messages.order_replace msg) m v f = replace-IsSound mem msg m v f
on-IsSound mem (Messages.trade msg) m v f = trade-IsSound mem msg m v

-- Messages applied one after the other, each with the memory that is to be had then.
unfoldable pub run : List (Memory × Message) → MarketBooks → MarketBooks
unfolding on
run [] m = m
run ((mem, msg) ∷ ms) m = run ms (on mem msg m).0

abbrev pub AllFit : List (Memory × Message) → Type 0
AllFit [] = Unit {0}
AllFit ((mem, msg) ∷ ms) = FitsQty msg × AllFit ms

run-IsSound :
    (ms : List (Memory × Message)) (m : MarketBooks) → IsSound m → AllFit ms → IsSound (run ms m)
unfolding run
run-IsSound [] m v a = v
run-IsSound ((mem, msg) ∷ ms) m v a =
    run-IsSound ms (on mem msg m).0 (on-IsSound mem msg m v a.0) a.1

new-IsSound : (orders levels symbols : ℕ) → IsSound (MarketBooks.new orders levels symbols)
unfolding MarketBooks.new
new-IsSound orders levels symbols = record {
  tallies = λ l b e. absurd (ground (arith, e));
  known = tt;
}

book_found :
    (l : Locate) (m : MarketBooks) (b : OrderBook) → book l m ≡ some b → books_of m l ≡ some b
unfolding book find_slot
book_found l m b h = elim (Bool-cases (m.pages (l / 256))) [
  | inl e ↦ rw (e, book, find_slot) at h
  | inr e ↦ absurd (ground arith)
]

-- For every sequence of messages whose share counts fit 32 bits, applied to new books of any size,
-- with memory failing or not at each call: every book satisfies the invariant of order books, and
-- the quantity of each of its levels is exactly what the live orders that were added to that
-- incarnation of the level still hold.
pub run-exact :
    (orders levels symbols : ℕ) (ms : List (Memory × Message)) (l : Locate) (b : OrderBook)
    (s : Side) (p : Price) (e : Entry)
    → AllFit ms
    → book l (run ms (MarketBooks.new orders levels symbols)) ≡ some b
    → level_at b s p ≡ some e
    → IsValid b × (held l s p e.id (run ms (MarketBooks.new orders levels symbols)).orders ≡ e.qty)
run-exact orders levels symbols ms l b s p e a h at =
    let m = run ms (MarketBooks.new orders levels symbols) in
    let v =
      run-IsSound ms (MarketBooks.new orders levels symbols) (new-IsSound orders levels symbols)
        a in
    let t = v.tallies l b (book_found l m b h) in (t.valid, t.exact s p e at)
