-- ===== src/Risk/Engine/Exact/Cells.antt =====
-- risk_engine.hpp: a slot of the table is stored again with what one side of it holds now.
use opti_trade_engine.Prelude.{
  ℕ, ◌+◌, ◌≤◌, ◌<◌, ◌≡◌, refl, ◌∙◌, ap, Bool, true, false, ◌&&◌, ◌==◌, if◌then◌else◌, min, arith,
}
use opti_trade_engine.Prelude.Int.{ℤ, pos, ◌+ℤ◌}
use opti_trade_engine.Core.Types.{Locate, Side, side_eq, u32_max}
use opti_trade_engine.Risk.Types.{open_of, count_of, set_open, clamp64, i64_max}
use opti_trade_engine.Risk.Engine.{Engine, slot_at, refresh}
use opti_trade_engine.Risk.Engine.Cells.{table_size}
use opti_trade_engine.Risk.Engine.Counts.{
  recounted, open_of-resized, count_of-resized, open_of-recounted, count_of-recounted,
}
use opti_trade_engine.Risk.Engine.Exact.{Held, Holds}

pub clamp-min : (a b : ℕ) → clamp64 (pos a +ℤ pos b) ≡ pos (min (a + b) i64_max)
unfolding clamp64 ◌+ℤ◌
clamp-min a b = ground arith

both_same : (b : Bool) (n : ℕ) → n ≡ (if b then n else n)
both_same true n = refl
both_same false n = refl

-- A value that only the cell of the call gets.
chosen :
    (b : Bool) (r : Engine) (k : Locate) (t : Side) (h next : Held) (v : ℤ) (n : ℕ)
    → open_of t (slot_at r k) ≡ (if b then v else pos h.shares)
    → count_of t (slot_at r k) ≡ (if b then n else h.orders)
    → h.shares ≤ i64_max
    → h.orders ≤ u32_max
    → (b ≡ true
        → (v ≡ pos next.shares)
          × (n ≡ next.orders)
          × (next.shares ≤ i64_max)
          × (next.orders ≤ u32_max))
    → Holds r k t (if b then next else h)
chosen true r k t h next v n e f a c is =
    let (x, y, z, w) = is refl in
    record { shares = e ∙ x; orders = f ∙ y; few_shares = z; few_orders = w }
chosen false r k t h next v n e f a c is = record {
  shares = e;
  orders = f;
  few_shares = a;
  few_orders = c;
}

module _ (r : Engine) (l k : Locate) (s t : Side) (h : Held) (is : Holds r k t h)
    (on : l < table_size r) where
  pub resized-Holds :
      (v : ℤ) (next : Held)
      → (((l == k) && side_eq s t) ≡ true
          → (v ≡ pos next.shares)
            × (h.orders ≡ next.orders)
            × (next.shares ≤ i64_max)
            × (next.orders ≤ u32_max))
      → Holds
          (refresh r l (set_open s v (slot_at r l)))
          k
          t
          (if (l == k) && side_eq s t then next else h)
  resized-Holds v next there =
      chosen ((l == k) && side_eq s t) _ k t h next v h.orders
        (open_of-resized r l k s t v on
          ∙ ap (λ (x : ℤ). if (l == k) && side_eq s t then v else x) is.shares)
        (count_of-resized r l k s t v on ∙ is.orders ∙ both_same ((l == k) && side_eq s t) h.orders)
        is.few_shares is.few_orders there

  pub recounted-Holds :
      (v : ℤ) (n total : ℕ) (next : Held)
      → (((l == k) && side_eq s t) ≡ true
          → (v ≡ pos next.shares)
            × (n ≡ next.orders)
            × (next.shares ≤ i64_max)
            × (next.orders ≤ u32_max))
      → Holds (recounted r l s v n total) k t (if (l == k) && side_eq s t then next else h)
  recounted-Holds v n total next there =
      chosen ((l == k) && side_eq s t) _ k t h next v n
        (open_of-recounted r l k s t v n total on
          ∙ ap (λ (x : ℤ). if (l == k) && side_eq s t then v else x) is.shares)
        (count_of-recounted r l k s t v n total on
          ∙ ap (λ (x : ℕ). if (l == k) && side_eq s t then n else x) is.orders)
        is.few_shares is.few_orders there
