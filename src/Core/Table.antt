-- ===== src/Core/Table.antt =====
-- What the program uses of include/optitrade/core/flat_hash_map.hpp: a map of at most `max` keys, as
-- an association list.
use opti_trade_engine.Prelude.{
  ℕ, Bool, true, false, List, [], ◌∷◌, Option, none, some, leb, ◌==◌, ◌||◌, if◌then◌else◌, length,
}

module _ {ℓ} {A : Type ℓ} where
  abbrev pub find : ℕ → List (ℕ × A) → Option A
  find k [] = none
  find k ((j, v) ∷ m) = if j == k then some v else find k m

  abbrev pub erase : ℕ → List (ℕ × A) → List (ℕ × A)
  erase k [] = []
  erase k ((j, v) ∷ m) = let rest = erase k m in if j == k then rest else (j, v) ∷ rest

  abbrev pub has : ℕ → List (ℕ × A) → Bool
  has k [] = false
  has k ((j, v) ∷ m) = (j == k) || has k m

  -- A key that is there, or a full map, refuses.
  abbrev pub insert : ℕ → ℕ → A → List (ℕ × A) → List (ℕ × A) × Bool
  insert max k v m = if has k m || leb max (length m) then (m, false) else ((k, v) ∷ m, true)
