-- ===== src/Book/MarketBooks/Shares.antt =====
-- market_books.hpp: shares of a live order go from its level and from the table.
use mathlib.Core.Path.{subst}
use opti_trade_engine.Prelude.{
  ℕ, ◌≤◌, ◌<◌, ◌≡◌, ◌≢◌, refl, ap, ◌∙◌, Bool, true, false, not, List, [], ◌∷◌, Option, some, ◌==◌,
  if◌then◌else◌, arith, All, Bool-cases, inl, inr,
}
use opti_trade_engine.Core.Types.{Price, OrderRef, Locate, Side}
use opti_trade_engine.Book.Ladder.{no_level}
use opti_trade_engine.Book.OrderBook.{OrderBook, take, remove_order, reduce_order}
use opti_trade_engine.Book.MarketBooks.{
  MarketBooks, Slot, OrderRecord, find_order, erase_order, shrink_order, set_slot, on_book,
  drop_record, shrink_record,
}
use opti_trade_engine.Book.MarketBooks.Held.{just_same, held-erase_order, held-shrink_order, part}
use opti_trade_engine.Book.MarketBooks.Global.{
  Known, Sound, take-Sound, off-Sound, All-erase_order, Known-shrink_order, Less,
}

abbrev pub books_of : MarketBooks → Locate → Option OrderBook
books_of m l = (m.slots l).book

abbrev pub IsSound : MarketBooks → Type 0
IsSound m = Sound (books_of m) m.orders

self_eq : (l : ℕ) → (l == l) ≡ true
self_eq l = ground arith

other_eq : (k l : ℕ) → k ≢ l → (k == l) ≡ false
other_eq k l h = ground arith

-- A slot that is set, and the others.
pub set_there : (l : Locate) (slot : Slot) (m : MarketBooks) → (set_slot l slot m).slots l ≡ slot
unfolding set_slot
set_there l slot m = rw (self_eq l) refl

pub set_elsewhere :
    (l : Locate) (slot : Slot) (m : MarketBooks) (k : Locate)
    → k ≢ l
    → (set_slot l slot m).slots k ≡ m.slots k
unfolding set_slot
set_elsewhere l slot m k h = rw (other_eq k l h) refl

on_book_lem :
    (l : Locate) (f : OrderBook → OrderBook) (m : MarketBooks) (b : OrderBook)
    → (m.slots l).book ≡ some b
    → on_book l f m ≡ set_slot l (record (m.slots l) { book = some (f b) }) m
unfolding on_book
on_book_lem l f m b e = rw (e, on_book) refl

on_book-slots :
    (l : Locate) (f : OrderBook → OrderBook) (m : MarketBooks) (b : OrderBook)
    → books_of m l ≡ some b
    → (books_of (on_book l f m) l ≡ some (f b))
      × ((k : Locate) → k ≢ l → books_of (on_book l f m) k ≡ books_of m k)
on_book-slots l f m b e =
    let slot : Slot = record (m.slots l) { book = some (f b) } in
    let same = on_book_lem l f m b e in
    (
      ap (λ (x : MarketBooks). books_of x l) same ∙ ap (λ (x : Slot). x.book) (set_there l slot m),
      λ k h.
          ap (λ (x : MarketBooks). books_of x k) same
          ∙ ap (λ (x : Slot). x.book) (set_elsewhere l slot m k h),
    )

Known-found :
    (books : Locate → Option OrderBook) (ref : OrderRef) (o : OrderRecord)
    (os : List (OrderRef × OrderRecord))
    → find_order ref os ≡ some o
    → All (Known books) os
    → Known books (ref, o)
unfolding find_order
Known-found books ref o [] h a = absurd (ground arith)
Known-found books ref o ((k, x) ∷ os) h a = elim (Bool-cases (k == ref)) [
  | inl e ↦
      let same : x ≡ o = just_same (rw e at h) in
      subst (λ (y : OrderRecord). Known books (ref, y)) same a.0
  | inr e ↦ Known-found books ref o os (rw e at h) a.1
]

removes :
    (s : Side) (p : Price) (q id : ℕ) (b : OrderBook)
    → (id == no_level) ≡ false
    → (remove_order s p q id b).0 ≡ (take s p q id true b).0
unfolding remove_order
removes s p q id b h = rw h refl

reduces :
    (s : Side) (p : Price) (q id : ℕ) (b : OrderBook)
    → (id == no_level) ≡ false
    → (reduce_order s p q id b).0 ≡ (take s p q id false b).0
unfolding reduce_order
reduces s p q id b h = rw h refl

module _ (ref : OrderRef) (o : OrderRecord) (m : MarketBooks) (v : IsSound m)
    (found : find_order ref m.orders ≡ some o) where
  -- Shares of a live order go, from its book, if it is on one, and from the table.
  changes :
      (n : ℕ) (whole : Bool) (f : OrderBook → OrderBook) (os' : List (OrderRef × OrderRecord))
      → 0 < n
      → n ≤ o.qty
      → ((b : OrderBook)
          → (o.level == no_level) ≡ false
          → f b ≡ (take o.side o.price n o.level whole b).0)
      → Less o n os' m.orders
      → All (Known (books_of m)) os'
      → Sound (books_of (if not (o.level == no_level) then on_book o.locate f m else m)) os'
  changes n whole f os' h k same d kn = elim (Bool-cases (o.level == no_level)) [
    | inl off ↦ rw off (off-Sound (books_of m) m.orders os' o n v (ground arith) d kn)
    | inr there ↦ rw there (
        let (q, fit, level) = Known-found (books_of m) ref o m.orders found v.known in
        elim level [
          | inl z ↦ absurd (ground arith)
          | inr (b, e, i) ↦
              let (set, others) = on_book-slots o.locate f m b e in
              take-Sound (books_of m) (books_of (on_book o.locate f m)) m.orders os' b o n whole ref
                v found h k (ground arith) e d (set ∙ ap (λ (x : OrderBook). some x) (same b there))
                others kn
        ])
  ]

  pub drop-IsSound : IsSound (drop_record ref o m)
  unfolding drop_record part
  drop-IsSound =
      let (q, fit, at) = Known-found (books_of m) ref o m.orders found v.known in
      changes o.qty true _ (erase_order ref m.orders) q (omega arith)
        (λ b there. removes o.side o.price o.qty o.level b there)
        (λ l s p id. held-erase_order l s p id ref m.orders o found)
        (All-erase_order (Known (books_of m)) ref m.orders v.known)

  pub shrink-IsSound : (n : ℕ) → 0 < n → n < o.qty → IsSound (shrink_record ref o n m)
  unfolding shrink_record
  shrink-IsSound n h k =
      changes n false _ (shrink_order ref n m.orders) h (omega arith)
        (λ b there. reduces o.side o.price n o.level b there)
        (λ l s p id. held-shrink_order l s p id ref n m.orders o found (omega arith))
        (Known-shrink_order (books_of m) ref n o m.orders found k v.known)
