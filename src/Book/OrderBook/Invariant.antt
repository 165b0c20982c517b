-- ===== src/Book/OrderBook/Invariant.antt =====
-- The invariant of OrderBook (order_book.hpp): both sides in order, levels alive, ids issued once.
use opti_trade_engine.Prelude.{ℕ, ◌+◌, ◌≤◌, ◌<◌, Bool, arith, ◌==◌, Bool-cases, inl, inr, All-imp}
use opti_trade_engine.Core.Types.{Price, Qty, Side, buy, sell, u32_max}
use opti_trade_engine.Book.Ladder.{
  SideBook, Placed, refused, joined, created, evicted, Taken, kept, taken,
}
use opti_trade_engine.Book.Ladder.Invariant
use opti_trade_engine.Book.Ladder.Invariant.{IsLive-mono}
use opti_trade_engine.Book.Ladder.Effects.{Places, place-Places}
use opti_trade_engine.Book.Ladder.Removal.{Takes, take_order-Takes}
use opti_trade_engine.Book.OrderBook.{OrderBook, side_book, commit, settle, new, add_order, take}

pub record IsValid (b : OrderBook) : Type 0 where
  pub bids_ok : Invariant.IsValid buy b.next_id b.bids
  pub asks_ok : Invariant.IsValid sell b.next_id b.asks
  pub named : 0 < b.next_id

pub side_ok : (s : Side) (b : OrderBook) → IsValid b → Invariant.IsValid s b.next_id (side_book s b)
side_ok buy b v = v.bids_ok
side_ok sell b v = v.asks_ok

-- A later id bound is as good.
later :
    (s : Side) (n : ℕ) (sb : SideBook) → Invariant.IsValid s n sb → Invariant.IsValid s (n + 1) sb
later s n sb v = record {
  sorted = v.sorted;
  within = v.within;
  live = All-imp _ _ (IsLive-mono n (n + 1) (omega arith)) sb.levels v.live;
}

commit-IsValid :
    (s : Side) (p : Price) (qty : Qty) (b : OrderBook) (o : Placed)
    → IsValid b
    → Places s p qty b.next_id (side_book s b) o
    → IsValid (commit s b o).0
unfolding commit
commit-IsValid buy p qty b refused v h = record {
  bids_ok = v.bids_ok;
  asks_ok = v.asks_ok;
  named = v.named;
}
commit-IsValid sell p qty b refused v h = record {
  bids_ok = v.bids_ok;
  asks_ok = v.asks_ok;
  named = v.named;
}
commit-IsValid buy p qty b (joined sb id) v h = record {
  bids_ok = h.0;
  asks_ok = v.asks_ok;
  named = v.named;
}
commit-IsValid sell p qty b (joined sb id) v h = record {
  bids_ok = v.bids_ok;
  asks_ok = h.0;
  named = v.named;
}
commit-IsValid buy p qty b (created sb) v h = record {
  bids_ok = h.0;
  asks_ok = later sell _ _ v.asks_ok;
  named = omega arith;
}
commit-IsValid sell p qty b (created sb) v h = record {
  bids_ok = later buy _ _ v.bids_ok;
  asks_ok = h.0;
  named = omega arith;
}
commit-IsValid buy p qty b (evicted sb) v h = record {
  bids_ok = h.0;
  asks_ok = later sell _ _ v.asks_ok;
  named = omega arith;
}
commit-IsValid sell p qty b (evicted sb) v h = record {
  bids_ok = later buy _ _ v.bids_ok;
  asks_ok = h.0;
  named = omega arith;
}

-- Adding an order of any size a Qty can hold keeps the invariant.
pub add_order-IsValid :
    (s : Side) (p : Price) (qty : Qty) (b : OrderBook)
    → IsValid b
    → qty ≤ u32_max
    → IsValid (add_order s p qty b).0
unfolding add_order
add_order-IsValid s p qty b v h = elim (Bool-cases (qty == 0)) [
  | inl none_added ↦ rw none_added v
  | inr some_added ↦ rw some_added (
      commit-IsValid s p qty b _ v
        (place-Places s p qty b.next_id (side_book s b) (side_ok s b v) v.named (ground arith) h))
]

settle-IsValid :
    (s : Side) (p : Price) (qty : Qty) (id : ℕ) (whole : Bool) (b : OrderBook) (o : Taken)
    → IsValid b
    → Takes s p qty id whole b.next_id (side_book s b) o
    → IsValid (settle s b o).0
unfolding settle
settle-IsValid buy p qty id whole b kept v h = v
settle-IsValid sell p qty id whole b kept v h = v
settle-IsValid buy p qty id whole b (taken sb) v h = record {
  bids_ok = h.0;
  asks_ok = v.asks_ok;
  named = v.named;
}
settle-IsValid sell p qty id whole b (taken sb) v h = record {
  bids_ok = v.bids_ok;
  asks_ok = h.0;
  named = v.named;
}

-- So does every removal and every reduction, checked by id or not.
pub take-IsValid :
    (s : Side) (p : Price) (qty : Qty) (id : ℕ) (whole : Bool) (b : OrderBook)
    → IsValid b
    → IsValid (take s p qty id whole b).0
unfolding take
take-IsValid s p qty id whole b v = elim (Bool-cases (qty == 0)) [
  | inl nothing ↦ rw nothing v
  | inr something ↦ rw something (
      settle-IsValid s p qty id whole b _ v (
        take_order-Takes s p qty id whole b.next_id (side_book s b) (side_ok s b v) (ground arith)))
]

new-IsValid : (max_levels : ℕ) → IsValid (new max_levels)
unfolding new
new-IsValid max_levels = record {
  bids_ok = record { sorted = tt; within = omega arith; live = tt };
  asks_ok = record { sorted = tt; within = omega arith; live = tt };
  named = omega arith;
}

-- The books that calls lead to from a new one.
pub data Reachable (max_levels : ℕ) : OrderBook → Type 0 where
  start : Reachable max_levels (new max_levels)
  add_next :
      {b : OrderBook} (s : Side) (p : Price) (qty : Qty)
      → qty ≤ u32_max
      → Reachable max_levels b
      → Reachable max_levels (add_order s p qty b).0
  take_next :
      {b : OrderBook} (s : Side) (p : Price) (qty : Qty) (id : ℕ) (whole : Bool)
      → Reachable max_levels b
      → Reachable max_levels (take s p qty id whole b).0

-- Every book that calls lead to from a new one satisfies the invariant.
pub Reachable-IsValid : (max_levels : ℕ) {b : OrderBook} → Reachable max_levels b → IsValid b
Reachable-IsValid m start = new-IsValid m
Reachable-IsValid m (add_next s p qty h r) = add_order-IsValid s p qty _ (Reachable-IsValid m r) h
Reachable-IsValid m (take_next s p qty id whole r) =
    take-IsValid s p qty id whole _ (Reachable-IsValid m r)
