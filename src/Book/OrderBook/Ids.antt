-- ===== src/Book/OrderBook/Ids.antt =====
-- OrderBook (order_book.hpp): the ids of levels.
use opti_trade_engine.Prelude.{ℕ, ◌≤◌, ◌<◌, ◌≡◌, refl, Bool, arith, ◌==◌, Bool-cases, inl, inr}
use opti_trade_engine.Core.Types.{Price, Qty, Side, buy, sell, u32_max}
use opti_trade_engine.Book.Ladder.{
  Placed, refused, joined, created, evicted, Taken, kept, taken, take_order,
}
use opti_trade_engine.Book.Ladder.View.{find_level-All}
use opti_trade_engine.Book.Ladder.Effects.{Places, place-Places}
use opti_trade_engine.Book.OrderBook.{OrderBook, side_book, commit, settle, add_order, take}
use opti_trade_engine.Book.OrderBook.Invariant.{IsValid, side_ok}

settle-next_id : (s : Side) (b : OrderBook) (o : Taken) → (settle s b o).0.next_id ≡ b.next_id
unfolding settle
settle-next_id s b kept = refl
settle-next_id buy b (taken sb) = refl
settle-next_id sell b (taken sb) = refl

pub take-next_id :
    (s : Side) (p : Price) (qty id : ℕ) (whole : Bool) (b : OrderBook)
    → (take s p qty id whole b).0.next_id ≡ b.next_id
unfolding take
take-next_id s p qty id whole b = elim (Bool-cases (qty == 0)) [
  | inl e ↦ rw e refl
  | inr e ↦ rw e (settle-next_id s b (take_order s p qty id whole (side_book s b)))
]

-- The id that an add returns is issued afterwards, and issued ids stay issued.
Issues : OrderBook → OrderBook × ℕ → Type 0
Issues b r = (b.next_id ≤ r.0.next_id) × (r.1 < r.0.next_id)

commit-Issues :
    (s : Side) (p : Price) (qty : Qty) (b : OrderBook) (o : Placed)
    → IsValid b
    → Places s p qty b.next_id (side_book s b) o
    → Issues b (commit s b o)
unfolding commit Issues
commit-Issues s p qty b refused v h = (omega arith, v.named)
commit-Issues buy p qty b (joined sb id) v (ok, cap, (e, at, same, upd)) = (
  omega arith,
  (let l = find_level-All _ p b.bids.levels v.bids_ok.live at in ground (arith, l.issued)),
)
commit-Issues sell p qty b (joined sb id) v (ok, cap, (e, at, same, upd)) = (
  omega arith,
  (let l = find_level-All _ p b.asks.levels v.asks_ok.live at in ground (arith, l.issued)),
)
commit-Issues buy p qty b (created sb) v h = (omega arith, omega arith)
commit-Issues sell p qty b (created sb) v h = (omega arith, omega arith)
commit-Issues buy p qty b (evicted sb) v h = (omega arith, omega arith)
commit-Issues sell p qty b (evicted sb) v h = (omega arith, omega arith)

pub add_order-issues :
    (s : Side) (p : Price) (qty : Qty) (b : OrderBook)
    → IsValid b
    → qty ≤ u32_max
    → (b.next_id ≤ (add_order s p qty b).0.next_id)
      × ((add_order s p qty b).1 < (add_order s p qty b).0.next_id)
unfolding add_order Issues
add_order-issues s p qty b v h = elim (Bool-cases (qty == 0)) [
  | inl e ↦ rw e (omega arith, v.named)
  | inr e ↦ rw e (
      commit-Issues s p qty b _ v
        (place-Places s p qty b.next_id (side_book s b) (side_ok s b v) v.named (ground arith) h))
]
