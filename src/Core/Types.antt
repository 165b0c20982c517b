-- ===== src/Core/Types.antt =====
-- include/optitrade/core/types.hpp. A price is an integer, a quantity or an order reference a
-- natural number below 2 ^ 32 or 2 ^ 64; the bounds are hypotheses where a statement needs them.
use opti_trade_engine.Prelude.{ℕ, ◌≡◌, refl, Bool, true, false}
use opti_trade_engine.Prelude.Int.{ℤ}

abbrev pub Price : Type 0
Price = ℤ

abbrev pub Qty : Type 0
Qty = ℕ

abbrev pub OrderRef : Type 0
OrderRef = ℕ

abbrev pub Locate : Type 0
Locate = ℕ

abbrev pub Nanos : Type 0
Nanos = ℕ

abbrev pub max_order_qty : ℕ
max_order_qty = 999999

abbrev pub u32_max : ℕ
u32_max = 4294967295

pub data Side : Type 0 where
  buy sell : Side

unfoldable pub opposite : Side → Side
opposite buy = sell
opposite sell = buy

abbrev pub side_eq : Side → Side → Bool
side_eq buy buy = true
side_eq buy sell = false
side_eq sell buy = false
side_eq sell sell = true

pub opposite-opposite : (s : Side) → opposite (opposite s) ≡ s
unfolding opposite
opposite-opposite buy = refl
opposite-opposite sell = refl
