-- ===== src/Book/Ladder/View.antt =====
-- A side of order_book.hpp as a finite map from prices to levels: what the list operations do to it.
use mathlib.Core.Path.{subst}
use opti_trade_engine.Prelude.{
  ℕ, zero, suc, ◌<◌, ◌≡◌, refl, true, false, List, [], ◌∷◌, Option, none, some, arith, length, set,
  insert_at, remove_at, if◌then◌else◌, All, All-get_or, inl, inr, Bool-cases,
}
use opti_trade_engine.Prelude.Int.{eqb_ℤ, eqb_ℤ_eq}
use opti_trade_engine.Core.Types.{Price, Side}
use opti_trade_engine.Book.Ladder.{Entry, empty_entry, entry_at, better, level_there}
use opti_trade_engine.Book.Ladder.Search.{
  AllBetter, AllBetter-trans, IsSorted, count_worse, better_tight,
}

-- The level at a price.
unfoldable pub find_level : Price → List Entry → Option Entry
find_level p [] = none
find_level p (x ∷ xs) = if eqb_ℤ x.price p then some x else find_level p xs

-- A price that is better is another price.
better-ne : (s : Side) (a b : Price) → better s a b ≡ true → eqb_ℤ a b ≡ false
unfolding better
better-ne Side.buy a b h = ground arith
better-ne Side.sell a b h = ground arith

eqb_sym : (a b : Price) → eqb_ℤ a b ≡ eqb_ℤ b a
eqb_sym a b = ground arith

eqb_trans : (a b c : Price) → eqb_ℤ a b ≡ true → eqb_ℤ a c ≡ eqb_ℤ b c
eqb_trans a b c h = ground arith

find_level-AllBetter :
    (s : Side) (p : Price) (xs : List Entry) → AllBetter s p xs → find_level p xs ≡ none
unfolding find_level
find_level-AllBetter s p [] a = refl
find_level-AllBetter s p (x ∷ xs) a =
    ground (arith, better-ne s x.price p, find_level-AllBetter s p xs)

-- On a sorted side the cell at the reference position is the level at the price.
pub find_level-at :
    (s : Side) (p : Price) (xs : List Entry)
    → IsSorted s xs
    → find_level p xs ≡ (
        if level_there xs (count_worse s p xs) p
        then some (entry_at xs (count_worse s p xs))
        else none)
unfolding find_level count_worse
find_level-at s p [] o = refl
find_level-at s p (x ∷ xs) o = elim (Bool-cases (better s p x.price)) [
  | inl worse ↦
      rw worse (ground (arith, better-ne s p x.price, eqb_sym p x.price, find_level-at s p xs o.1))
  | inr other ↦ rw other (elim (Bool-cases (eqb_ℤ x.price p)) [
    | inl same ↦ rw same (ground arith)
    | inr differs ↦
        let above : better s x.price p ≡ true = ground (arith, better_tight s p x.price) in
        rw differs
          (ground (arith, find_level-AllBetter s p xs (AllBetter-trans s x.price p xs above o.0)))
  ])
]

-- What holds of every level holds of the one that is found.
pub find_level-All :
    (P : Entry → Type 0) (p : Price) (xs : List Entry) {e : Entry}
    → All P xs
    → find_level p xs ≡ some e
    → P e
unfolding find_level
find_level-All P p [] a h = absurd (ground arith)
find_level-All P p (x ∷ xs) {e} a h = elim (Bool-cases (eqb_ℤ x.price p)) [
  | inl here ↦ let same : x ≡ e = ground arith in subst P same a.0
  | inr further ↦ find_level-All P p xs a.1 (ground arith)
]

pub find_level-insert_at :
    (q : Price) (i : ℕ) (e : Entry) (xs : List Entry)
    → find_level e.price xs ≡ none
    → find_level q (insert_at i e xs) ≡ (if eqb_ℤ e.price q then some e else find_level q xs)
unfolding find_level
find_level-insert_at q zero e xs h = refl
find_level-insert_at q (suc i) e [] h = refl
find_level-insert_at q (suc i) e (x ∷ xs) h =
    ground (arith, find_level-insert_at q i e xs, eqb_trans x.price q e.price, eqb_sym q e.price)

module _ (s : Side) (q : Price) where
  pub find_level-set :
      (i : ℕ) (e : Entry) (xs : List Entry)
      → IsSorted s xs
      → i < length xs
      → e.price ≡ (entry_at xs i).price
      → find_level q (set xs i e) ≡ (if eqb_ℤ e.price q then some e else find_level q xs)
  unfolding find_level
  find_level-set i e [] o h k = absurd (omega arith)
  find_level-set zero e (x ∷ xs) o h k = ground arith
  find_level-set (suc i) e (x ∷ xs) o h k =
      let there : better s e.price x.price ≡ true =
        rw k (All-get_or _ xs empty_entry i o.0 (omega arith)) in
      ground (
        arith,
        find_level-set i e xs o.1 (omega arith) k,
        better-ne s e.price x.price,
        eqb_trans x.price q e.price,
        eqb_sym q e.price,
        eqb_sym x.price e.price,
      )

  pub find_level-remove_at :
      (i : ℕ) (xs : List Entry)
      → IsSorted s xs
      → i < length xs
      → find_level q (remove_at i xs)
        ≡ (if eqb_ℤ (entry_at xs i).price q then none else find_level q xs)
  unfolding find_level
  find_level-remove_at i [] o h = absurd (omega arith)
  find_level-remove_at zero (x ∷ xs) o h = elim (Bool-cases (eqb_ℤ x.price q)) [
    | inl same ↦ rw same (find_level-AllBetter s q xs (rw (← eqb_ℤ_eq x.price q same) o.0))
    | inr differs ↦ rw differs
  ]
  find_level-remove_at (suc i) (x ∷ xs) o h =
      let there : better s (entry_at xs i).price x.price ≡ true =
        All-get_or _ xs empty_entry i o.0 (omega arith) in
      ground (
        arith,
        find_level-remove_at i xs o.1 (omega arith),
        better-ne s (entry_at xs i).price x.price,
        eqb_trans x.price q (entry_at xs i).price,
        eqb_sym q (entry_at xs i).price,
        eqb_sym x.price (entry_at xs i).price,
      )
