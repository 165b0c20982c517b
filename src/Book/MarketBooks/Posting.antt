-- ===== src/Book/MarketBooks/Posting.antt =====
-- market_books.hpp: a slot and its book are found or made, and an order is posted to it.
use mathlib.Core.Path.{subst}
use opti_trade_engine.Prelude.{
  ℕ, ◌/◌, ◌≤◌, ◌<◌, ◌≡◌, ◌⊎◌, refl, sym, ap, ◌∙◌, List, Option, none, some, ◌==◌, arith, Bool-cases,
  Option-cases, inl, inr,
}
use opti_trade_engine.Core.Types.{Price, Qty, OrderRef, Locate, Side, buy, sell, u32_max}
use opti_trade_engine.Book.Ladder.{Entry}
use opti_trade_engine.Book.OrderBook
use opti_trade_engine.Book.OrderBook.{OrderBook, add_order, take, remove_order, reduce_order}
use opti_trade_engine.Book.OrderBook.Invariant.{Reachable-IsValid, start}
use opti_trade_engine.Book.OrderBook.Contract.{level_at}
use opti_trade_engine.Book.Ladder.View.{find_level}
use opti_trade_engine.Book.MarketBooks.{
  MarketBooks, Memory, Slot, OrderRecord, slot_for, set_slot, ensure_book, post, insert_order,
  trade_at,
}
use opti_trade_engine.Book.MarketBooks.Held.{held, just_same}
use opti_trade_engine.Book.MarketBooks.Tally.{Tally}
use opti_trade_engine.Book.MarketBooks.Global.{Sound, add-Sound}
use opti_trade_engine.Book.MarketBooks.Shares.{books_of, IsSound, set_there, set_elsewhere}

same-Sound :
    (books books' : Locate → Option OrderBook) (os : List (OrderRef × OrderRecord))
    → ((k : Locate) → books' k ≡ books k)
    → Sound books os
    → Sound books' os
same-Sound books books' os h v =
    subst (λ (x : Locate → Option OrderBook). Sound x os) (λ i k. sym (h k) i) v

pub trade_at-IsSound :
    (l : Locate) (p : Price) (m : MarketBooks) → IsSound m → IsSound (trade_at l p m)
unfolding trade_at
trade_at-IsSound l p m v = same-Sound (books_of m) (books_of (trade_at l p m)) m.orders still v
  where
    still : (k : Locate) → books_of (trade_at l p m) k ≡ books_of m k
    still k = elim (Bool-cases (k == l)) [
      | inl here ↦
          let kl : k ≡ l = ground arith in
          ap (books_of (trade_at l p m)) kl
          ∙ ap (λ (x : Slot). x.book) (set_there l (record (m.slots l) { last_trade = p }) m)
          ∙ ap (books_of m) (sym kl)
      | inr other ↦
          ap (λ (x : Slot). x.book)
            (set_elsewhere l (record (m.slots l) { last_trade = p }) m k (ground arith))
    ]

slot_for-same :
    (mem : Memory) (l : Locate) (m : MarketBooks)
    → ((slot_for mem l m).0.slots ≡ m.slots) × ((slot_for mem l m).0.orders ≡ m.orders)
unfolding slot_for
slot_for-same mem l m = elim (Bool-cases (m.pages (l / 256))) [
  | inl e ↦ rw e (refl, refl)
  | inr e ↦
      rw e (elim (Bool-cases mem.page) [ inl p ↦ rw p (refl, refl) | inr p ↦ rw p (refl, refl) ])
]

pub slot_for-IsSound :
    (mem : Memory) (l : Locate) (m : MarketBooks) → IsSound m → IsSound (slot_for mem l m).0
slot_for-IsSound mem l m v =
    let (s, o) = slot_for-same mem l m in
    subst (λ (os : List (OrderRef × OrderRecord)). Sound (books_of (slot_for mem l m).0) os) (sym o)
      (same-Sound (books_of m) (books_of (slot_for mem l m).0) m.orders (λ k i. (s i k).book) v)

-- The book that a slot has, or a new one.
ensures :
    (mem : Memory) (n : ℕ) (slot : Slot) (b : OrderBook)
    → ensure_book mem n slot ≡ some b
    → (slot.book ≡ some b) ⊎ ((slot.book ≡ none) × (b ≡ OrderBook.new n))
unfolding ensure_book
ensures mem n slot b h = ground arith

new-Tally : (l : Locate) (n : ℕ) (os : List (OrderRef × OrderRecord)) → Tally l (OrderBook.new n) os
unfolding OrderBook.new find_level
new-Tally l n os = record { valid = Reachable-IsValid n start; exact = no_level_there }
  where
    no_level_there :
        (s : Side) (p : Price) (e : Entry)
        → level_at (OrderBook.new n) s p ≡ some e
        → held l s p e.id os ≡ e.qty
    no_level_there buy p e h = absurd (ground arith)
    no_level_there sell p e h = absurd (ground arith)

-- What `post` and `register` need of the book that `ensure_book` gives.
pub ensured :
    (mem : Memory) (n : ℕ) (l : Locate) (m : MarketBooks) (b : OrderBook)
    → IsSound m
    → ensure_book mem n (m.slots l) ≡ some b
    → Tally l b m.orders × ((b0 : OrderBook) → books_of m l ≡ some b0 → b0.next_id ≤ b.next_id)
ensured mem n l m b v h = elim (ensures mem n (m.slots l) b h) [
  | inl e ↦ (
    v.tallies l b e,
    λ b0 e0. omega (arith, ap (λ (x : OrderBook). x.next_id) (just_same (sym e0 ∙ e))),
  )
  | inr (none_yet, e) ↦ (
    subst (λ (x : OrderBook). Tally l x m.orders) (sym e) (new-Tally l n m.orders),
    λ b0 e0. absurd (ground (arith, none_yet, e0)),
  )
]

post-IsSound :
    (ref : OrderRef) (l : Locate) (s : Side) (p : Price) (qty : Qty) (b : OrderBook)
    (m : MarketBooks)
    → IsSound m
    → 0 < qty
    → qty ≤ u32_max
    → Tally l b m.orders
    → ((b0 : OrderBook) → books_of m l ≡ some b0 → b0.next_id ≤ b.next_id)
    → IsSound (post ref l s p qty b m).0
unfolding post
post-IsSound ref l s p qty b m v h f t grow =
    let slot : Slot = record (m.slots l) { book = some (add_order s p qty b).0 } in
    add-Sound (books_of m) (books_of (set_slot l slot m)) m.orders l b s p qty ref v t h f grow
      (ap (λ (x : Slot). x.book) (set_there l slot m))
      (λ k kl. ap (λ (x : Slot). x.book) (set_elsewhere l slot m k kl))

pub insert_order-IsSound :
    (mem : Memory) (ref : OrderRef) (l : Locate) (s : Side) (p : Price) (qty : Qty)
    (m : MarketBooks)
    → IsSound m
    → 0 < qty
    → qty ≤ u32_max
    → IsSound (insert_order mem ref l s p qty m).0
unfolding insert_order
insert_order-IsSound mem ref l s p qty m v h f =
    let r = slot_for mem l m in
    let w = slot_for-IsSound mem l m v in
    elim (Bool-cases (slot_for mem l m).1) [
      | inr failed ↦ rw failed w
      | inl granted ↦ rw granted (elim (Option-cases (ensure_book mem m.max_levels (r.0.slots l))) [
        | inl no_book ↦ rw no_book w
        | inr (b, e) ↦
            let (t, grow) = ensured mem m.max_levels l r.0 b w e in
            rw e (post-IsSound ref l s p qty b r.0 w h f t grow)
      ])
    ]
