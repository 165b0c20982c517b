-- ===== src/Book/MarketBooks/Tally.antt =====
-- market_books.hpp: which live orders a level answers for.
use opti_trade_engine.Prelude.{
  ℕ, ◌-◌, ◌≡◌, ◌≢◌, refl, sym, ◌∙◌, Bool, true, false, ◌&&◌, List, Option, some, ◌==◌,
  if◌then◌else◌, arith,
}
use opti_trade_engine.Prelude.Int.{eqb_ℤ, eqb_ℤ_refl}
use opti_trade_engine.Core.Types.{Price, OrderRef, Locate, Side, buy, sell, side_eq, opposite}
use opti_trade_engine.Book.Ladder.{Entry}
use opti_trade_engine.Book.Ladder.Removal.{remainder}
use opti_trade_engine.Book.OrderBook.{OrderBook}
use opti_trade_engine.Book.OrderBook.Invariant.{IsValid}
use opti_trade_engine.Book.OrderBook.Contract.{level_at}
use opti_trade_engine.Book.MarketBooks.{OrderRecord}
use opti_trade_engine.Book.MarketBooks.Held.{mine, part, held}

-- The book is valid and every level's quantity is what the live orders that were added to it hold.
pub record Tally (l : Locate) (b : OrderBook) (os : List (OrderRef × OrderRecord)) : Type 0 where
  pub valid : IsValid b
  pub exact :
      (s : Side) (p : Price) (e : Entry) → level_at b s p ≡ some e → held l s p e.id os ≡ e.qty

pub other_side : (s t : Side) → side_eq s t ≡ false → opposite s ≡ t
unfolding opposite
other_side buy buy h = absurd (ground arith)
other_side buy sell h = refl
other_side sell buy h = refl
other_side sell sell h = absurd (ground arith)

pub same_side : (s t : Side) → side_eq s t ≡ true → s ≡ t
same_side buy buy h = refl
same_side buy sell h = absurd (ground arith)
same_side sell buy h = absurd (ground arith)
same_side sell sell h = refl

pub mine_here : (o : OrderRecord) → mine o.locate o.side o.price o.level o ≡ true
unfolding mine
mine_here o = here o.side
  where
    here :
        (s : Side)
        → ((o.locate == o.locate) && side_eq s s && eqb_ℤ o.price o.price && (o.level == o.level))
          ≡ true
    here buy = ground (arith, eqb_ℤ_refl o.price)
    here sell = ground (arith, eqb_ℤ_refl o.price)

pub not_mine_side :
    (l : Locate) (s : Side) (p : Price) (id : ℕ) (o : OrderRecord)
    → side_eq o.side s ≡ false
    → mine l s p id o ≡ false
unfolding mine
not_mine_side l s p id o h = ground arith

pub not_mine_price :
    (l : Locate) (s : Side) (p : Price) (id : ℕ) (o : OrderRecord)
    → eqb_ℤ o.price p ≡ false
    → mine l s p id o ≡ false
unfolding mine
not_mine_price l s p id o h = ground arith

pub not_mine_level :
    (l : Locate) (s : Side) (p : Price) (id : ℕ) (o : OrderRecord)
    → o.level ≢ id
    → mine l s p id o ≡ false
unfolding mine
not_mine_level l s p id o h = ground arith

pub not_mine_locate :
    (l : Locate) (s : Side) (p : Price) (id : ℕ) (o : OrderRecord)
    → o.locate ≢ l
    → mine l s p id o ≡ false
unfolding mine
not_mine_locate l s p id o h = ground arith

pub part-mine :
    (l : Locate) (s : Side) (p : Price) (id : ℕ) (o : OrderRecord)
    → mine l s p id o ≡ true
    → part l s p id o ≡ o.qty
unfolding part
part-mine l s p id o h = rw h refl

pub left_over :
    (e : Entry) (n : ℕ) (whole : Bool) (e' : Entry)
    → remainder e n whole ≡ some e'
    → (e'.qty ≡ e.qty - n) × (e'.id ≡ e.id)
left_over e n whole e' h = ground arith

pub if_here :
    (p q : Price) (x y : Option Entry) (e : Entry)
    → eqb_ℤ p q ≡ true
    → (if eqb_ℤ p q then x else y) ≡ some e
    → x ≡ some e
if_here p q x y e h k = sym (rw h refl) ∙ k
