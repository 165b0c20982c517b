-- ===== src/Risk/Engine/Soundness.antt =====
-- Every operation of risk_engine.hpp keeps the bookkeeping of `Ledger`, from construction on.
use opti_trade_engine.Prelude.{ℕ, Bool, List, [], ◌∷◌, Bool-cases, inl, inr}
use opti_trade_engine.Core.Types.{Price, Qty, Locate, Nanos, Side}
use opti_trade_engine.Risk.Types.{Limits}
use opti_trade_engine.Risk.Engine.{
  Engine, new, admit, check, on_order_open, on_order_grow, on_order_reduce, on_order_end,
  on_order_closed, on_fill, mark, set_kill_switch, evaluate, is_accepted,
}
use opti_trade_engine.Risk.Engine.Ledger.{IsSound}
use opti_trade_engine.Risk.Engine.Handlers.{
  on_order_grow-IsSound, on_order_reduce-IsSound, on_order_open-IsSound, on_order_end-IsSound,
  on_order_closed-IsSound, on_fill-IsSound, mark-IsSound, new-IsSound,
}

-- The calls that change the engine.
pub data Call : Type 0 where
  opens grows reduces ends closes : Locate → Side → Qty → Call
  fills : Locate → Side → Qty → Price → Call
  marks : Locate → Price → Call
  checks : Locate → Side → Price → Qty → Price → Nanos → Call
  admits : Nanos → Call
  halts : Bool → Call

unfoldable pub step : Engine → Call → Engine
step r (opens l side qty) = on_order_open r l side qty
step r (grows l side qty) = on_order_grow r l side qty
step r (reduces l side qty) = on_order_reduce r l side qty
step r (ends l side qty) = on_order_end r l side qty
step r (closes l side qty) = on_order_closed r l side qty
step r (fills l side qty price) = on_fill r l side qty price
step r (marks l price) = mark r l price
step r (checks l side price qty reference now) = (check r l side price qty reference now).0
step r (admits now) = admit r now
step r (halts on) = set_kill_switch r on

unfoldable pub run : Engine → List Call → Engine
run r [] = r
run r (c ∷ cs) = run (step r c) cs

pub admit-IsSound : (r : Engine) (now : Nanos) → IsSound r → IsSound (admit r now)
unfolding admit
admit-IsSound r now v = record {
  gross_sum = v.gross_sum;
  unrealized_sum = v.unrealized_sum;
  realized_sum = v.realized_sum;
  count_sum = v.count_sum;
  table = v.table;
  fresh = v.fresh;
}

check-IsSound :
    (r : Engine) (l : Locate) (side : Side) (price : Price) (qty : Qty) (reference : Price)
    (now : Nanos)
    → IsSound r
    → IsSound (check r l side price qty reference now).0
unfolding check
check-IsSound r l side price qty reference now v =
    elim (Bool-cases (is_accepted (evaluate r l side price qty reference now))) [
      | inl yes_sent ↦ rw yes_sent (admit-IsSound r now v)
      | inr refused ↦ rw refused v
    ]

set_kill_switch-IsSound : (r : Engine) (on : Bool) → IsSound r → IsSound (set_kill_switch r on)
unfolding set_kill_switch
set_kill_switch-IsSound r on v = record {
  gross_sum = v.gross_sum;
  unrealized_sum = v.unrealized_sum;
  realized_sum = v.realized_sum;
  count_sum = v.count_sum;
  table = v.table;
  fresh = v.fresh;
}

pub step-IsSound : (r : Engine) (c : Call) → IsSound r → IsSound (step r c)
unfolding step
step-IsSound r (opens l side qty) v = on_order_open-IsSound r l side qty v
step-IsSound r (grows l side qty) v = on_order_grow-IsSound r l side qty v
step-IsSound r (reduces l side qty) v = on_order_reduce-IsSound r l side qty v
step-IsSound r (ends l side qty) v = on_order_end-IsSound r l side qty v
step-IsSound r (closes l side qty) v = on_order_closed-IsSound r l side qty v
step-IsSound r (fills l side qty price) v = on_fill-IsSound r l side qty price v
step-IsSound r (marks l price) v = mark-IsSound r l price v
step-IsSound r (checks l side price qty reference now) v =
    check-IsSound r l side price qty reference now v
step-IsSound r (admits now) v = admit-IsSound r now v
step-IsSound r (halts on) v = set_kill_switch-IsSound r on v

run-IsSound : (r : Engine) (cs : List Call) → IsSound r → IsSound (run r cs)
unfolding run
run-IsSound r [] v = v
run-IsSound r (c ∷ cs) v = run-IsSound (step r c) cs (step-IsSound r c v)

-- After any sequence of calls on a new engine the totals are the sums over the instruments, the
-- cached values are current, the working quantities are not negative and the count is exact.
pub run-new-IsSound :
    (limits : Limits) (locates : ℕ) (cs : List Call) → IsSound (run (new limits locates) cs)
run-new-IsSound limits locates cs = run-IsSound _ cs (new-IsSound limits locates)
