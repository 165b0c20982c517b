-- ===== src/Risk/Types.antt =====
-- include/optitrade/risk/limits.hpp, reject.hpp and the record types of risk_engine.hpp.
-- A 128-bit or 64-bit signed value is an integer; `clamp64` is the narrowing that the code makes.
use opti_trade_engine.Prelude.{ℕ, ◌-◌, Bool, arith, if◌then◌else◌}
use opti_trade_engine.Prelude.Int.{ℤ, pos, negsuc, ltb_ℤ, ◌≤ℤ◌, neg_ℤ}
use opti_trade_engine.Core.Types.{Price, Qty, Side, buy, sell}

pub record Limits : Type 0 where
  pub max_order_qty : Qty
  pub max_order_notional : ℤ
  pub max_position : ℤ
  pub max_gross_position : ℤ
  pub price_band_bps : ℕ
  pub require_reference : Bool
  pub max_orders_per_second : ℕ
  pub max_open_orders : ℕ
  pub max_loss : ℤ

pub data Reject : Type 0 where
  accepted : Reject
  kill_switch invalid_order order_qty order_notional position gross_position : Reject
  price_band no_reference rate_limit open_orders : Reject

pub record Position : Type 0 where
  pub qty : ℤ
  pub avg_price : Price
  pub realized : ℤ

-- The arrays of two that are indexed by a side are a field for each side.
pub record Slot : Type 0 where
  pub held : Position
  pub mark : Price
  pub unrealized : ℤ
  pub exposure : ℤ
  pub open_buy : ℤ
  pub open_sell : ℤ
  pub count_buy : ℕ
  pub count_sell : ℕ

abbrev pub flat : Position
flat = record { qty = pos 0; avg_price = pos 0; realized = pos 0 }

abbrev pub empty_slot : Slot
empty_slot = record {
  held = flat;
  mark = pos 0;
  unrealized = pos 0;
  exposure = pos 0;
  open_buy = pos 0;
  open_sell = pos 0;
  count_buy = 0;
  count_sell = 0;
}

abbrev pub open_of : Side → Slot → ℤ
open_of buy s = s.open_buy
open_of sell s = s.open_sell

abbrev pub count_of : Side → Slot → ℕ
count_of buy s = s.count_buy
count_of sell s = s.count_sell

abbrev pub set_open : Side → ℤ → Slot → Slot
set_open buy v s = record s { open_buy = v }
set_open sell v s = record s { open_sell = v }

abbrev pub set_count : Side → ℕ → Slot → Slot
set_count buy n s = record s { count_buy = n }
set_count sell n s = record s { count_sell = n }

abbrev pub i64_max : ℕ
i64_max = 9223372036854775807

unfoldable pub clamp64 : ℤ → ℤ
clamp64 v =
    if ltb_ℤ (pos i64_max) v
    then pos i64_max
    else if ltb_ℤ v (negsuc (i64_max - 1))
    then negsuc (i64_max - 1)
    else v

unfoldable pub magnitude : ℤ → ℤ
unfolding neg_ℤ
magnitude v = if ltb_ℤ v (pos 0) then neg_ℤ v else v

pub clamp64_le : (v : ℤ) → pos 0 ≤ℤ v → clamp64 v ≤ℤ v
unfolding clamp64
clamp64_le v h = ground arith

pub clamp64_nonneg : (v : ℤ) → pos 0 ≤ℤ v → pos 0 ≤ℤ clamp64 v
unfolding clamp64
clamp64_nonneg v h = ground arith

pub clamp64_bounds : (v : ℤ) → (negsuc (i64_max - 1) ≤ℤ clamp64 v) × (clamp64 v ≤ℤ pos i64_max)
unfolding clamp64
clamp64_bounds v = (ground arith, ground arith)

pub magnitude_nonneg : (v : ℤ) → pos 0 ≤ℤ magnitude v
unfolding magnitude
magnitude_nonneg v = ground arith
