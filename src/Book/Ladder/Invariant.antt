-- ===== src/Book/Ladder/Invariant.antt =====
-- What every side of a book keeps: strict order, room, and live levels with known ids.
use opti_trade_engine.Prelude.{
  ℕ, zero, suc, ◌≤◌, ◌<◌, ◌≡◌, true, false, List, [], ◌∷◌, arith, length, set, insert_at, remove_at,
  All, All-get_or, All-insert_at, All-set, All-remove_at, Bool-cases, inl, inr,
}
use opti_trade_engine.Core.Types.{Side, u32_max}
use opti_trade_engine.Book.Ladder.{Entry, SideBook, empty_entry, entry_at, better, level_there}
use opti_trade_engine.Book.Ladder.Search.{AllBetter-trans, IsSorted, count_worse, better_tight}

-- A stored level has shares and orders within 32 bits, and an id that was handed out.
pub record IsLive (next_id : ℕ) (e : Entry) : Type 0 where
  pub some_qty : 0 < e.qty
  pub fits_qty : e.qty ≤ u32_max
  pub some_orders : 0 < e.orders
  pub fits_orders : e.orders ≤ u32_max
  pub named : 0 < e.id
  pub issued : e.id < next_id

pub record IsValid (s : Side) (next_id : ℕ) (sb : SideBook) : Type 0 where
  pub sorted : IsSorted s sb.levels
  pub within : length sb.levels ≤ sb.capacity
  pub live : All (IsLive next_id) sb.levels

pub IsLive-mono : (m n : ℕ) → m ≤ n → (e : Entry) → IsLive m e → IsLive n e
IsLive-mono m n h e l = ground arith

module _ (s : Side) where
  -- A new level at the reference position keeps the order, if no level has its price.
  pub IsSorted-insert_at :
      (e : Entry) (xs : List Entry)
      → IsSorted s xs
      → level_there xs (count_worse s e.price xs) e.price ≡ false
      → IsSorted s (insert_at (count_worse s e.price xs) e xs)
  unfolding count_worse
  IsSorted-insert_at e [] o h = (tt, tt)
  IsSorted-insert_at e (x ∷ xs) o h = elim (Bool-cases (better s e.price x.price)) [
    | inl worse ↦ rw worse (
      All-insert_at _ (count_worse s e.price xs) e xs worse o.0,
      IsSorted-insert_at e xs o.1 (ground arith),
    )
    | inr other ↦
        let above : better s x.price e.price ≡ true =
          ground (arith, better_tight s e.price x.price) in
        rw other ((above, AllBetter-trans s x.price e.price xs above o.0), o)
  ]

  -- So does a write that leaves the price.
  pub IsSorted-set :
      (i : ℕ) (e : Entry) (xs : List Entry)
      → IsSorted s xs
      → i < length xs
      → e.price ≡ (entry_at xs i).price
      → IsSorted s (set xs i e)
  IsSorted-set i e [] o h k = tt
  IsSorted-set zero e (x ∷ xs) o h k = (rw k o.0, o.1)
  IsSorted-set (suc i) e (x ∷ xs) o h k =
      let there : better s e.price x.price ≡ true =
        rw k (All-get_or _ xs empty_entry i o.0 (omega arith)) in
      (All-set _ i e xs there o.0, IsSorted-set i e xs o.1 (omega arith) k)

  pub IsSorted-remove_at : (i : ℕ) (xs : List Entry) → IsSorted s xs → IsSorted s (remove_at i xs)
  IsSorted-remove_at zero [] o = tt
  IsSorted-remove_at (suc i) [] o = tt
  IsSorted-remove_at zero (x ∷ xs) o = o.1
  IsSorted-remove_at (suc i) (x ∷ xs) o = (All-remove_at _ i xs o.0, IsSorted-remove_at i xs o.1)
