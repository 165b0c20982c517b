-- ===== src/Book/Tests.antt =====
-- Runs of include/optitrade/book on small books, and the theorems at those runs.
use opti_trade_engine.Prelude.{◌≡◌, refl, true, false, List, [], ◌∷◌, some, arith, min}
use opti_trade_engine.Prelude.Int.{pos}
use opti_trade_engine.Core.Types.{buy, u32_max}
use opti_trade_engine.Itch.Messages
use opti_trade_engine.Itch.Messages.{Message}
use opti_trade_engine.Itch.Decoder.{no_mpid}
use opti_trade_engine.Book.Ladder.{
  Level, Entry, better, scan_window, bisect, find_pos, join, create, place, take_from, take_order,
}
use opti_trade_engine.Book.Ladder.Search.{IsSorted, count_worse, find_pos-count_worse}
use opti_trade_engine.Book.Ladder.View.{find_level}
use opti_trade_engine.Book.OrderBook
use opti_trade_engine.Book.OrderBook.{
  OrderBook, side_book, add_order, take, commit, settle, remove_order, reduce_order, best,
  total_qty, depth,
}
use opti_trade_engine.Book.OrderBook.Invariant.{
  IsValid, Reachable, start, add_next, Reachable-IsValid,
}
use opti_trade_engine.Book.OrderBook.Contract.{
  Added, Taking, level_at, add_order-Added, take-Taking, take-add_order,
}
use opti_trade_engine.Book.OrderBook.Touch.{best-level_at, total_qty-plain_sum, plain_sum}
use opti_trade_engine.Book.MarketBooks
use opti_trade_engine.Book.MarketBooks.{
  MarketBooks, Memory, OrderInfo, OrderRecord, Slot, Applied, ok, book, find_slot, find_order,
  erase_order, shrink_order, slot_for, set_slot, ensure_book, post, insert_order, on_book,
  drop_record, shrink_record, trade_at, reduce_record, reduce, on_add_order, on_order_executed, on,
  unknown_order, last_trade,
}
use opti_trade_engine.Book.MarketBooks.Held.{held}
use opti_trade_engine.Book.MarketBooks.Soundness.{run, run-exact}

-- A bid book of two levels, 4 at 99 and 5 at 100.
abbrev one_level : OrderBook
one_level = (add_order buy (pos 99) 4 (OrderBook.new 2)).0

abbrev two_levels : OrderBook
two_levels = (add_order buy (pos 100) 5 one_level).0

abbrev level_99 : Entry
level_99 = record { lv = record { price = pos 99; qty = 4; orders = 1 }; id = 1 }

abbrev level_100 : Entry
level_100 = record { lv = record { price = pos 100; qty = 5; orders = 1 }; id = 2 }

two_levels_reached : Reachable 2 two_levels
two_levels_reached =
    add_next buy (pos 100) 5 (omega arith) (add_next buy (pos 99) 4 (omega arith) start)

two_levels-IsValid : IsValid two_levels
two_levels-IsValid = Reachable-IsValid 2 two_levels_reached

Reachable-IsValid_example : IsValid two_levels
Reachable-IsValid_example = Reachable-IsValid 2 two_levels_reached

two_levels_bids : two_levels.bids.levels ≡ level_99 ∷ level_100 ∷ []
unfolding OrderBook.new add_order commit place find_pos scan_window bisect better create join
two_levels_bids = refl

at_100 : level_at two_levels buy (pos 100) ≡ some level_100
unfolding OrderBook.new add_order commit place find_pos scan_window bisect better create join
    find_level
at_100 = refl

levels-IsSorted : IsSorted buy (level_99 ∷ level_100 ∷ [])
unfolding better
levels-IsSorted = ((refl, tt), (tt, tt))

find_pos-count_worse_example :
    find_pos buy (pos 100) (level_99 ∷ level_100 ∷ [])
    ≡ count_worse buy (pos 100) (level_99 ∷ level_100 ∷ [])
find_pos-count_worse_example =
    find_pos-count_worse buy (pos 100) (level_99 ∷ level_100 ∷ []) levels-IsSorted

-- A third level evicts the worst of a full side.
add_order-Added_example : Added buy (pos 101) 6 two_levels (add_order buy (pos 101) 6 two_levels)
add_order-Added_example =
    add_order-Added buy (pos 101) 6 two_levels two_levels-IsValid (omega arith) (omega arith)

take-Taking_example :
    Taking buy (pos 100) 2 2 false two_levels (take buy (pos 100) 2 2 false two_levels)
take-Taking_example =
    take-Taking buy (pos 100) 2 2 false two_levels two_levels-IsValid (omega arith)

no_overflow : (add_order buy (pos 100) 3 two_levels).0.overflows ≡ two_levels.overflows
unfolding OrderBook.new add_order commit place find_pos scan_window bisect better create join
no_overflow = refl

take-add_order_example :
    let (b', id) = add_order buy (pos 100) 3 two_levels in
    ((take buy (pos 100) 3 id true b').1 ≡ true)
    × (OrderBook.qty_at buy (pos 99) (take buy (pos 100) 3 id true b').0
        ≡ OrderBook.qty_at buy (pos 99) two_levels)
take-add_order_example =
    take-add_order buy (pos 100) (pos 99) 3 two_levels true two_levels-IsValid (omega arith)
      (omega arith) no_overflow

best-level_at_example :
    (l : Level) × (best buy two_levels ≡ some l) × (better buy (pos 100) l.price ≡ false)
best-level_at_example = best-level_at buy two_levels (pos 100) level_100 two_levels-IsValid at_100

total_qty-plain_sum_example :
    total_qty buy 2 two_levels
    ≡ min u32_max (plain_sum (min 2 (depth buy two_levels)) 0 (side_book buy two_levels).levels)
total_qty-plain_sum_example = total_qty-plain_sum buy 2 two_levels

-- An order of 5 shares of which 2 are executed.
abbrev all_memory : Memory
all_memory = record { page = true; book = true }

abbrev head_1 : Messages.Header
head_1 = record { locate = 1; tracking = 0; timestamp = 0 }

abbrev order_7 : Messages.AddOrder
order_7 = record {
  h = head_1;
  ref = 7;
  side = buy;
  shares = 5;
  symbol = MarketBooks.blank_symbol;
  price = pos 100;
  has_attribution = false;
  mpid = no_mpid;
}

abbrev executed_7 : Messages.OrderExecuted
executed_7 = record { h = head_1; ref = 7; shares = 2; match = 1 }

abbrev feed : List (Memory × Message)
feed =
    (all_memory, Messages.add_order order_7) ∷ (all_memory, Messages.order_executed executed_7) ∷ []

abbrev left_100 : Entry
left_100 = record { lv = record { price = pos 100; qty = 3; orders = 1 }; id = 1 }

abbrev fed_book : OrderBook
fed_book = record {
  bids = record { capacity = 4; levels = left_100 ∷ [] };
  asks = record { capacity = 4; levels = [] };
  next_id = 2;
  updates = 2;
  overflows = 0;
}

fed : book 1 (run feed (MarketBooks.new 8 4 8)) ≡ some fed_book
unfolding OrderBook.new add_order commit place find_pos scan_window bisect better create join take
    settle take_order take_from reduce_order MarketBooks.new run on on_add_order on_order_executed
    reduce reduce_record shrink_record shrink_order find_order insert_order slot_for ensure_book
    post set_slot on_book trade_at drop_record book find_slot
fed = refl

fed_100 : level_at fed_book buy (pos 100) ≡ some left_100
unfolding find_level
fed_100 = refl

run-exact_example :
    IsValid fed_book × (held 1 buy (pos 100) 1 (run feed (MarketBooks.new 8 4 8)).orders ≡ 3)
run-exact_example =
    run-exact 8 4 8 feed 1 fed_book buy (pos 100) left_100 (omega arith, (tt, tt)) fed fed_100
