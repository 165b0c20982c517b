-- ===== src/Book/OrderBook/Touch.antt =====
-- What OrderBook (order_book.hpp) reads at the touch: the best level, and the quantity near it.
use opti_trade_engine.Prelude.{
  ℕ, zero, suc, ◌+◌, ◌-◌, ◌<◌, ◌≡◌, ◌∙◌, true, false, List, [], ◌∷◌, none, some, arith, ◌==◌,
  if◌then◌else◌, length, All, All-get_or, min,
}
use opti_trade_engine.Core.Types.{Price, Side, u32_max}
use opti_trade_engine.Book.Ladder.{Level, Entry, empty_entry, entry_at, better}
use opti_trade_engine.Book.Ladder.Search.{IsSorted, better_asymm, better_irrefl}
use opti_trade_engine.Book.Ladder.View.{find_level, find_level-All}
use opti_trade_engine.Book.OrderBook.{OrderBook, side_book, best, sum_levels, total_qty, depth}
use opti_trade_engine.Book.OrderBook.Invariant.{IsValid, side_ok}
use opti_trade_engine.Book.OrderBook.Contract.{level_at}

-- No level of a sorted side is better than the last one.
last_best :
    (s : Side) (x : Entry) (xs : List Entry)
    → IsSorted s (x ∷ xs)
    → All (λ e. better s e.price (entry_at (x ∷ xs) (length xs)).price ≡ false) (x ∷ xs)
last_best s x [] o = (better_irrefl s x.price, tt)
last_best s x (y ∷ ys) o =
    let last = entry_at (y ∷ ys) (length ys) in
    let above : better s last.price x.price ≡ true =
      All-get_or _ (y ∷ ys) empty_entry (length ys) o.0 (omega arith) in
    (better_asymm s last.price x.price above, last_best s y ys o.1)

best_found :
    (s : Side) (q : Price) (e : Entry) (xs : List Entry)
    → IsSorted s xs
    → find_level q xs ≡ some e
    → (l : Level) × ((if length xs == 0 then none else some (entry_at xs (length xs - 1)).lv)
        ≡ some l)
      × (better s e.price l.price ≡ false)
unfolding find_level
best_found s q e [] o h = absurd (ground arith)
best_found s q e (x ∷ xs) o h = (
  (entry_at (x ∷ xs) (length xs)).lv,
  ground arith,
  find_level-All _ q (x ∷ xs) (last_best s x xs o) h,
)

-- A side with a level at some price has a best level, and no price with a level is better.
pub best-level_at :
    (s : Side) (b : OrderBook) (q : Price) (e : Entry)
    → IsValid b
    → level_at b s q ≡ some e
    → (l : Level) × (best s b ≡ some l) × (better s e.price l.price ≡ false)
unfolding best
best-level_at s b q e v at = best_found s q e (side_book s b).levels (side_ok s b v).sorted at

-- The plain sum of the quantities of `left` levels from the `i`-th best on.
pub plain_sum : ℕ → ℕ → List Entry → ℕ
plain_sum zero i xs = 0
plain_sum (suc left) i xs = (entry_at xs (length xs - 1 - i)).qty + plain_sum left (i + 1) xs

sum_levels_lem :
    (left i sum : ℕ) (xs : List Entry)
    → sum < u32_max
    → sum_levels left i sum xs ≡ min u32_max (sum + plain_sum left i xs)
unfolding sum_levels plain_sum
sum_levels_lem zero i sum xs h = omega arith
sum_levels_lem (suc left) i sum xs h =
    let next = sum + (entry_at xs (length xs - 1 - i)).qty in
    ground (arith, sum_levels_lem left (i + 1) next xs)

-- The total over the best levels is their plain sum, cut at the largest quantity.
pub total_qty-plain_sum :
    (s : Side) (top_n : ℕ) (b : OrderBook)
    → total_qty s top_n b ≡ min u32_max (plain_sum (min top_n (depth s b)) 0 (side_book s b).levels)
unfolding total_qty depth
total_qty-plain_sum s top_n b =
    let xs = (side_book s b).levels in
    sum_levels_lem (min top_n (length xs)) 0 0 xs (omega arith) ∙ ground arith
