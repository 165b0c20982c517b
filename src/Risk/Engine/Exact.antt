-- ===== src/Risk/Engine/Exact.antt =====
-- risk_engine.hpp: the working shares and orders of each instrument and side against the calls that
-- book and release them.
pub mod Cells
pub mod Calls
pub mod Runs
use opti_trade_engine.Prelude.{
  ℕ, ◌+◌, ◌-◌, ◌≤◌, ◌<◌, ◌≡◌, refl, sym, ◌∙◌, ap, Bool, true, false, ◌&&◌, ◌||◌, not, ◌==◌, List,
  [], ◌∷◌, if◌then◌else◌, ltb, leb, min, arith, length, Bool-cases, inl, inr, at_if,
  length-replicate,
}
use opti_trade_engine.Prelude.Int.{ℤ, pos, pos_part, leb_ℤ, ◌+ℤ◌, ◌-ℤ◌, min_ℤ}
use opti_trade_engine.Core.Types.{Price, Qty, Locate, Nanos, Side, buy, sell, side_eq, u32_max}
use opti_trade_engine.Risk.Types.{
  Limits, open_of, count_of, Slot, set_open, set_count, clamp64, i64_max, empty_slot,
}
use opti_trade_engine.Risk.Engine.{
  Engine, new, slot_at, off_table, max_locates, refresh, inc64, sub64, release, count_open,
  on_order_open, on_order_grow, on_order_reduce, on_order_end, on_order_closed, check, admit,
  is_accepted, evaluate,
}
use opti_trade_engine.Risk.Engine.Ledger.{IsSound}
use opti_trade_engine.Risk.Engine.Soundness.{
  Call, opens, grows, reduces, ends, closes, fills, marks, checks, admits, halts, step, run,
  step-IsSound, run-new-IsSound,
}
use opti_trade_engine.Risk.Engine.Cells.{
  table_size, count_of-set_open, open_of-set_open, less-pos, eq_of, size-refresh,
}
use opti_trade_engine.Risk.Engine.Counts.{
  recounted, open_of-resized, count_of-resized, open_of-recounted, count_of-recounted, open_here,
  count_here,
}
use opti_trade_engine.Risk.Engine.Handlers.{new-IsSound}
use opti_trade_engine.Risk.Engine.Working.{
  Keeps, same-Keeps, admit-Keeps, on_fill-Keeps, mark-Keeps, set_kill_switch-Keeps, new-IsIdle,
}

-- The shares and the number of the working orders of one instrument and side.
pub record Held : Type 0 where
  pub shares : ℕ
  pub orders : ℕ

-- What a call on that instrument and side makes of them: shares are booked up to the largest 64-bit
-- number and orders up to the largest 32-bit one, none is released that is not held, and a close leaves
-- no more orders than shares.
unfoldable pub booked : Call → Held → Held
booked (opens l s qty) h =
    if qty == 0
    then h
    else record { shares = min (h.shares + qty) i64_max; orders = min (h.orders + 1) u32_max }
booked (grows l s qty) h = record h { shares = min (h.shares + qty) i64_max }
booked (reduces l s qty) h = record h { shares = h.shares - qty }
booked (ends l s qty) h = record { shares = h.shares - qty; orders = h.orders - 1 }
booked (closes l s qty) h = record {
  shares = h.shares - qty;
  orders = min h.orders (h.shares - qty);
}
booked _ h = h

-- The call is on instrument `k`, which the table has, and side `t`.
unfoldable pub concerns : ℕ → Locate → Side → Call → Bool
concerns size k t (opens l s qty) = ltb l size && ((l == k) && side_eq s t)
concerns size k t (grows l s qty) = ltb l size && ((l == k) && side_eq s t)
concerns size k t (reduces l s qty) = ltb l size && ((l == k) && side_eq s t)
concerns size k t (ends l s qty) = ltb l size && ((l == k) && side_eq s t)
concerns size k t (closes l s qty) = ltb l size && ((l == k) && side_eq s t)
concerns _ k t _ = false

-- What instrument `k` and side `t` hold after the calls, in a table of the given size.
unfoldable pub held : ℕ → Locate → Side → List Call → Held → Held
unfolding booked concerns
held size k t [] h = h
held size k t (c ∷ cs) h = held size k t cs (if concerns size k t c then booked c h else h)

-- The engine has those shares and orders.
pub record Holds (r : Engine) (k : Locate) (t : Side) (h : Held) : Type 0 where
  pub shares : open_of t (slot_at r k) ≡ pos h.shares
  pub orders : count_of t (slot_at r k) ≡ h.orders
  pub few_shares : h.shares ≤ i64_max
  pub few_orders : h.orders ≤ u32_max
