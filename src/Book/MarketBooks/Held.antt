-- ===== src/Book/MarketBooks/Held.antt =====
-- The order table of market_books.hpp: what the live orders of a level hold.
use opti_trade_engine.Prelude.{
  ℕ, ◌+◌, ◌-◌, ◌≤◌, ◌≡◌, refl, ap, Bool, true, ◌&&◌, List, [], ◌∷◌, Option, none, some, ◌==◌,
  if◌then◌else◌, arith, Bool-cases, inl, inr,
}
use opti_trade_engine.Prelude.Int.{eqb_ℤ, eqb_ℤ_eq}
use opti_trade_engine.Core.Types.{Price, Qty, OrderRef, Locate, Side, buy, sell, side_eq}
use opti_trade_engine.Book.MarketBooks.{OrderRecord, find_order, erase_order, shrink_order}

-- Whether an order was added to the level with this id, at this price of this side of this book.
unfoldable pub mine : Locate → Side → Price → ℕ → OrderRecord → Bool
mine l s p id o = (o.locate == l) && side_eq o.side s && eqb_ℤ o.price p && (o.level == id)

-- The remaining quantity of the orders that were.
unfoldable pub part : Locate → Side → Price → ℕ → OrderRecord → ℕ
unfolding mine
part l s p id o = if mine l s p id o then o.qty else 0

unfoldable pub held : Locate → Side → Price → ℕ → List (OrderRef × OrderRecord) → ℕ
unfolding part
held l s p id [] = 0
held l s p id ((k, o) ∷ xs) = part l s p id o + held l s p id xs

side_eq_lem : (s t : Side) → side_eq s t ≡ true → s ≡ t
side_eq_lem buy buy h = refl
side_eq_lem buy sell h = absurd (ground arith)
side_eq_lem sell buy h = absurd (ground arith)
side_eq_lem sell sell h = refl

pub mine_lem :
    (l : Locate) (s : Side) (p : Price) (id : ℕ) (o : OrderRecord)
    → mine l s p id o ≡ true
    → (o.locate ≡ l) × (o.side ≡ s) × (o.price ≡ p) × (o.level ≡ id)
unfolding mine
mine_lem l s p id o h = (
  ground arith,
  side_eq_lem o.side s (ground arith),
  eqb_ℤ_eq o.price p (ground arith),
  ground arith,
)

pub just_same : {A : Type 0} {a b : A} → ◌≡◌ {A = Option A} (some a) (some b) → a ≡ b
just_same {A} {a} {b} h = ap (λ (o : Option A). elim o [ none ↦ a | some x ↦ x ]) h

module _ (l : Locate) (s : Side) (p : Price) (id : ℕ) where
  -- Without an order, its part is gone.
  pub held-erase_order :
      (ref : OrderRef) (xs : List (OrderRef × OrderRecord)) (o : OrderRecord)
      → find_order ref xs ≡ some o
      → held l s p id (erase_order ref xs) + part l s p id o ≡ held l s p id xs
  unfolding held find_order erase_order
  held-erase_order ref [] o h = absurd (ground arith)
  held-erase_order ref ((k, x) ∷ xs) o h = elim (Bool-cases (k == ref)) [
    | inl same ↦
        let e : x ≡ o = just_same (rw same at h) in rw same (omega (arith, ap (part l s p id) e))
    | inr other ↦
        let rest : find_order ref xs ≡ some o = rw other at h in
        rw other (omega (arith, held-erase_order ref xs o rest))
  ]

  shrinks :
      (o : OrderRecord) (n rest : ℕ)
      → n ≤ o.qty
      → part l s p id (record o { info = record o.info { qty = o.qty - n } })
          + rest
          + (if mine l s p id o then n else 0)
        ≡ part l s p id o + rest
  unfolding part mine
  shrinks o n rest f = ground arith

  -- With an order of fewer shares, the part of those shares is gone.
  pub held-shrink_order :
      (ref : OrderRef) (shares : Qty) (xs : List (OrderRef × OrderRecord)) (o : OrderRecord)
      → find_order ref xs ≡ some o
      → shares ≤ o.qty
      → held l s p id (shrink_order ref shares xs) + (if mine l s p id o then shares else 0)
        ≡ held l s p id xs
  unfolding held find_order shrink_order
  held-shrink_order ref n [] o h f = absurd (ground arith)
  held-shrink_order ref n ((k, x) ∷ xs) o h f = elim (Bool-cases (k == ref)) [
    | inl same ↦
        let e : x ≡ o = just_same (rw same at h) in
        rw same (rw e (shrinks o n (held l s p id xs) f))
    | inr other ↦
        let rest : find_order ref xs ≡ some o = rw other at h in
        rw other (omega (arith, held-shrink_order ref n xs o rest f))
  ]

  -- An order is among those that its level holds.
  pub part-held :
      (ref : OrderRef) (xs : List (OrderRef × OrderRecord)) (o : OrderRecord)
      → find_order ref xs ≡ some o
      → part l s p id o ≤ held l s p id xs
  part-held ref xs o h = omega (arith, held-erase_order ref xs o h)
