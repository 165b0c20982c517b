-- ===== src/Book/Ladder/Search.antt =====
-- The search of order_book.hpp (`find_pos`) against a linear reference.
use opti_trade_engine.Prelude.{
  ℕ, zero, suc, ◌+◌, ◌-◌, ◌/◌, ◌≤◌, ◌<◌, ◌≡◌, true, false, List, [], ◌∷◌, arith, ltb, if◌then◌else◌,
  length, All, All-get_or, All-imp, max,
}
use opti_trade_engine.Core.Types.{Price, Side, buy, sell}
use opti_trade_engine.Book.Ladder.{
  Entry, empty_entry, better, entry_at, scan_window, bisect, window, find_pos,
}

pub better_trans :
    (s : Side) (a b c : Price) → better s a b ≡ true → better s b c ≡ true → better s a c ≡ true
unfolding better
better_trans buy a b c h k = ground arith
better_trans sell a b c h k = ground arith

pub better_asymm : (s : Side) (a b : Price) → better s a b ≡ true → better s b a ≡ false
unfolding better
better_asymm buy a b h = ground arith
better_asymm sell a b h = ground arith

pub better_irrefl : (s : Side) (a : Price) → better s a a ≡ false
unfolding better
better_irrefl buy a = ground arith
better_irrefl sell a = ground arith

-- Two prices of which neither is better are the same.
pub better_tight : (s : Side) (a b : Price) → better s a b ≡ false → better s b a ≡ false → a ≡ b
unfolding better
better_tight buy a b h k = ground arith
better_tight sell a b h k = ground arith

-- Every level of the list is strictly better than `p`.
abbrev pub AllBetter : Side → Price → List Entry → Type 0
AllBetter s p = All λ e. better s e.price p ≡ true

pub AllBetter-trans :
    (s : Side) (q p : Price) (xs : List Entry)
    → better s q p ≡ true
    → AllBetter s q xs
    → AllBetter s p xs
AllBetter-trans s q p xs h = All-imp _ _ (λ e k. better_trans s e.price q p k h) xs

-- Worst price first, strictly.
abbrev pub IsSorted : Side → List Entry → Type 0
IsSorted s [] = Unit {0}
IsSorted s (x ∷ xs) = AllBetter s x.price xs × IsSorted s xs

-- The reference: how many levels from the worst on are strictly worse than `price`.
unfoldable pub count_worse : Side → Price → List Entry → ℕ
count_worse s price [] = 0
count_worse s price (x ∷ xs) = if better s price x.price then suc (count_worse s price xs) else 0

pub count_worse-le : (s : Side) (p : Price) (xs : List Entry) → count_worse s p xs ≤ length xs
unfolding count_worse
count_worse-le s p [] = omega arith
count_worse-le s p (x ∷ xs) = ground (arith, count_worse-le s p xs)

-- In a sorted list the test of the search is a comparison of positions.
pub better_at :
    (s : Side) (p : Price) (xs : List Entry) (j : ℕ)
    → IsSorted s xs
    → j < length xs
    → better s p (entry_at xs j).price ≡ ltb j (count_worse s p xs)
unfolding count_worse
better_at s p [] j o h = absurd (omega arith)
better_at s p (x ∷ xs) zero o h = ground arith
better_at s p (x ∷ xs) (suc j) o h = ground (
  arith,
  better_at s p xs j o.1,
  All-get_or (λ e. better s e.price x.price ≡ true) xs empty_entry j o.0,
  better_trans s p (entry_at xs j).price x.price,
)

module _ (s : Side) (p : Price) (xs : List Entry) (sorted : IsSorted s xs) where
  scan_window_lem :
      (stop i : ℕ)
      → i ≤ length xs
      → count_worse s p xs ≤ i
      → stop ≤ i
      → scan_window s p xs stop i ≡ max stop (count_worse s p xs)
  unfolding scan_window
  scan_window_lem stop zero h k l = omega arith
  scan_window_lem stop (suc i) h k l =
      ground (arith, better_at s p xs i sorted, scan_window_lem stop i)

  bisect_lem :
      (fuel lo hi : ℕ)
      → hi ≤ length xs
      → hi - lo ≤ fuel
      → lo ≤ count_worse s p xs
      → count_worse s p xs ≤ hi
      → bisect fuel s p xs lo hi ≡ count_worse s p xs
  unfolding bisect
  bisect_lem zero lo hi h f a b = omega arith
  bisect_lem (suc fuel) lo hi h f a b =
      let mid = lo + (hi - lo) / 2 in
      ground
        (arith, better_at s p xs mid sorted, bisect_lem fuel (mid + 1) hi, bisect_lem fuel lo mid)

  -- On a sorted side the windowed search finds the position that the linear count gives.
  pub find_pos-count_worse : find_pos s p xs ≡ count_worse s p xs
  unfolding find_pos
  find_pos-count_worse = ground (
    arith,
    count_worse-le s p xs,
    scan_window_lem (length xs - window) (length xs),
    scan_window_lem 0 (length xs),
    bisect_lem (length xs - window) 0 (length xs - window),
  )
