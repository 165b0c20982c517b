-- ===== src/Book/MarketBooks/Handlers.antt =====
-- market_books.hpp: each handler keeps the books exact.
use opti_trade_engine.Prelude.{
  ℕ, ◌≤◌, ◌<◌, ◌≡◌, ◌≢◌, ◌⊎◌, refl, ap, Bool, true, false, Option, none, some, ◌==◌, if◌then◌else◌,
  arith, All, All-imp, Bool-cases, Option-cases, inl, inr, ltb, leb, length,
}
use opti_trade_engine.Core.Types.{Price, OrderRef, Locate, u32_max}
use opti_trade_engine.Itch.Messages
use opti_trade_engine.Itch.Messages.{Symbol, Message}
use opti_trade_engine.Book.OrderBook.{OrderBook}
use opti_trade_engine.Book.MarketBooks.{
  MarketBooks, Memory, Slot, OrderRecord, find_order, slot_for, set_slot, ensure_book, drop_record,
  shrink_record, trade_at, reduce_record, reduce, outcome, is_some, count_applied, on_add_order,
  on_order_delete, on_order_replace, on_trade, register, on_stock_directory, named_slot,
  find_symbol, symbol_empty,
}
use opti_trade_engine.Book.MarketBooks.Tally.{Tally}
use opti_trade_engine.Book.MarketBooks.Global.{Known, Known-mono, replace-Sound, Sound}
use opti_trade_engine.Book.MarketBooks.Shares.{
  books_of, IsSound, set_there, set_elsewhere, drop-IsSound, shrink-IsSound,
}
use opti_trade_engine.Book.MarketBooks.Posting.{
  trade_at-IsSound, slot_for-IsSound, ensured, insert_order-IsSound,
}

outcome-IsSound : (r : MarketBooks × Bool) → IsSound r.0 → IsSound (outcome r).0
outcome-IsSound (m, true) v = v
outcome-IsSound (m, false) v = v

counted : (m : MarketBooks) → IsSound m → IsSound (count_applied m)
counted m v = v

traded :
    (l : Locate) (px : Price) (m : MarketBooks) (b : Bool)
    → IsSound m
    → IsSound (if b then trade_at l px m else m)
traded l px m true v = trade_at-IsSound l px m v
traded l px m false v = v

fewer : (n q : ℕ) → (n == q) ≡ false → ltb q n ≡ false → n < q
fewer n q h k = ground arith

reduce_record-IsSound :
    (ref : OrderRef) (o : OrderRecord) (n : ℕ) (px : Option Price) (execution : Bool)
    (m : MarketBooks)
    → IsSound m
    → find_order ref m.orders ≡ some o
    → 0 < n
    → IsSound (reduce_record ref o n px execution m).0
unfolding reduce_record
reduce_record-IsSound ref o n px execution m v found h = elim (Bool-cases (ltb o.qty n)) [
  | inl more ↦ rw more (drop-IsSound ref o m v found)
  | inr enough ↦ rw enough (
      traded o.locate (elim px [ some p ↦ p | none ↦ o.price ])
        (if n == o.qty then drop_record ref o m else shrink_record ref o n m) execution
        (left enough (Bool-cases (n == o.qty))))
]
  where
    left :
        ltb o.qty n ≡ false
        → ((n == o.qty) ≡ true) ⊎ ((n == o.qty) ≡ false)
        → IsSound (if n == o.qty then drop_record ref o m else shrink_record ref o n m)
    left enough (inl all) = rw all (drop-IsSound ref o m v found)
    left enough (inr some_left) =
        rw some_left (shrink-IsSound ref o m v found n h (fewer n o.qty some_left enough))

pub reduce-IsSound :
    (ref : OrderRef) (n : ℕ) (px : Option Price) (execution : Bool) (m : MarketBooks)
    → IsSound m
    → IsSound (reduce ref n px execution m).0
unfolding reduce
reduce-IsSound ref n px execution m v = elim (Option-cases (find_order ref m.orders)) [
  | inl e ↦ rw (e, reduce) v
  | inr (o, e) ↦
      rw (e, reduce)
        (elim (Bool-cases (n == 0)) [
          | inl z ↦ rw z v
          | inr some_n ↦ rw some_n (reduce_record-IsSound ref o n px execution m v e (ground arith))
        ])
]

pub add_order-IsSound :
    (mem : Memory) (msg : Messages.AddOrder) (m : MarketBooks)
    → IsSound m
    → msg.shares ≤ u32_max
    → IsSound (on_add_order mem msg m).0
unfolding on_add_order
add_order-IsSound mem msg m v f = elim (Bool-cases (msg.shares == 0)) [
  | inl z ↦ rw z v
  | inr some_shares ↦ rw some_shares (elim (Bool-cases (is_some (find_order msg.ref m.orders))) [
    | inl live ↦ rw live v
    | inr fresh ↦ rw fresh (elim (Bool-cases (leb m.max_orders (length m.orders))) [
      | inl full ↦ rw full v
      | inr room ↦ rw room (
          outcome-IsSound _ (
            insert_order-IsSound mem msg.ref msg.h.locate msg.side msg.price msg.shares m v
              (ground arith) f))
    ])
  ])
]

pub replace-IsSound :
    (mem : Memory) (msg : Messages.OrderReplace) (m : MarketBooks)
    → IsSound m
    → msg.shares ≤ u32_max
    → IsSound (on_order_replace mem msg m).0
unfolding on_order_replace
replace-IsSound mem msg m v f = elim (Option-cases (find_order msg.old_ref m.orders)) [
  | inl e ↦ rw (e, on_order_replace) v
  | inr (o, e) ↦
      rw (e, on_order_replace)
        (elim (Bool-cases (msg.shares == 0)) [
          | inl z ↦ rw z v
          | inr some_shares ↦
              rw some_shares (elim (Bool-cases (is_some (find_order msg.new_ref m.orders))) [
                | inl live ↦ rw live v
                | inr fresh ↦ rw fresh (
                    outcome-IsSound _ (
                      insert_order-IsSound mem msg.new_ref o.locate o.side msg.price msg.shares
                        (drop_record msg.old_ref o m) (drop-IsSound msg.old_ref o m v e)
                        (ground arith) f))
              ])
        ])
]

pub delete-IsSound :
    (msg : Messages.OrderDelete) (m : MarketBooks) → IsSound m → IsSound (on_order_delete msg m).0
unfolding on_order_delete
delete-IsSound msg m v = elim (Option-cases (find_order msg.ref m.orders)) [
  | inl e ↦ rw (e, on_order_delete) v
  | inr (o, e) ↦ rw (e, on_order_delete) (drop-IsSound msg.ref o m v e)
]

pub trade-IsSound :
    (mem : Memory) (msg : Messages.Trade) (m : MarketBooks)
    → IsSound m
    → IsSound (on_trade mem msg m).0
unfolding on_trade
trade-IsSound mem msg m v =
    let w = slot_for-IsSound mem msg.h.locate m v in
    elim (Bool-cases (slot_for mem msg.h.locate m).1) [
      | inl e ↦ rw e (trade_at-IsSound msg.h.locate msg.price (slot_for mem msg.h.locate m).0 w)
      | inr e ↦ rw e w
    ]

named_book :
    (l : Locate) (b : OrderBook) (sym' : Symbol) (m : MarketBooks)
    → IsSound m
    → Tally l b m.orders × ((b0 : OrderBook) → books_of m l ≡ some b0 → b0.next_id ≤ b.next_id)
    → IsSound (set_slot l (record (m.slots l) { book = some b; symbol = sym' }) m)
unfolding set_slot
named_book l b sym' m v (t, grow) =
    let slot : Slot = record (m.slots l) { book = some b; symbol = sym' } in
    let books' = books_of (set_slot l slot m) in
    let at : books' l ≡ some b = ap (λ (x : Slot). x.book) (set_there l slot m) in
    let others : (k : Locate) → k ≢ l → books' k ≡ books_of m k =
      λ k kl. ap (λ (x : Slot). x.book) (set_elsewhere l slot m k kl) in
    let kn : All (Known books') m.orders =
      All-imp (Known (books_of m)) (Known books')
        (Known-mono (books_of m) books' l b at others grow) m.orders v.known in
    let w : Sound books' m.orders =
      replace-Sound (books_of m) books' m.orders m.orders l b v at others t (λ k s p id kl. refl)
        kn in
    w

register-IsSound :
    (mem : Memory) (msg : Messages.StockDirectory) (m : MarketBooks)
    → IsSound m
    → IsSound (register mem msg m).0
unfolding register
register-IsSound mem msg m v = elim (Bool-cases (leb m.max_symbols (length m.by_symbol))) [
  | inl full ↦ rw full v
  | inr room ↦
      let l = msg.h.locate in
      let r = slot_for mem l m in
      let w = slot_for-IsSound mem l m v in
      rw room (elim (Bool-cases (slot_for mem l m).1) [
        | inr failed ↦ rw failed w
        | inl granted ↦
            rw granted (elim (Option-cases (ensure_book mem m.max_levels (r.0.slots l))) [
              | inl no_book ↦ rw no_book w
              | inr (b, e) ↦
                  rw e (named_book l b msg.symbol r.0 w (ensured mem m.max_levels l r.0 b w e))
            ])
      ])
]

pub directory-IsSound :
    (mem : Memory) (msg : Messages.StockDirectory) (m : MarketBooks)
    → IsSound m
    → IsSound (on_stock_directory mem msg m).0
unfolding on_stock_directory
directory-IsSound mem msg m v = elim (Bool-cases (symbol_empty msg.symbol)) [
  | inl e ↦ rw e v
  | inr e ↦ rw e (elim (Option-cases (find_symbol msg.symbol m.by_symbol)) [
    | inr (l, bound) ↦ rw bound v
    | inl unbound ↦ rw unbound (elim (Bool-cases (named_slot msg.h.locate m)) [
      | inl named ↦ rw named v
      | inr free ↦ rw free (register-IsSound mem msg m v)
    ])
  ])
]
