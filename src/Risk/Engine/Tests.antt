-- ===== src/Risk/Engine/Tests.antt =====
-- Runs of include/optitrade/risk on a small engine, and the theorems at those runs.
use opti_trade_engine.Prelude.{ℕ, ◌≤◌, ◌≡◌, ◌⊎◌, refl, false, List, [], ◌∷◌, arith}
use opti_trade_engine.Prelude.Int.{pos, ◌≤ℤ◌, neg_ℤ, ◌+ℤ◌, ◌-ℤ◌, ◌*ℤ◌, max_ℤ}
use opti_trade_engine.Core.Types.{Locate, Side, buy, sell, opposite}
use opti_trade_engine.Risk.Types.{Limits, accepted, position, clamp64, magnitude, open_of, count_of}
use opti_trade_engine.Risk.Engine.{
  Engine, new, new_rate, slot_at, leg, unrealized_of, exposure_of, refresh, settle, rate_has_room,
  rate_record, over_position, gross_after, over_gross, outside_band, assess, evaluate, count_open,
  on_order_open, release, fill_position, on_fill,
}
use opti_trade_engine.Risk.Engine.Ledger.{IsSound}
use opti_trade_engine.Risk.Engine.Soundness.{
  Call, opens, grows, reduces, ends, closes, fills, run, step, run-new-IsSound,
}
use opti_trade_engine.Risk.Engine.Exact.{held, booked, concerns}
use opti_trade_engine.Risk.Engine.Exact.Runs.{run-new-exact}
use opti_trade_engine.Risk.Engine.Verdict.{Passes, assess-Passes}
use opti_trade_engine.Risk.Engine.Admission.{evaluate-position, evaluate-gross}
use opti_trade_engine.Risk.Engine.Window.{recent, serve_all, serve, recent-serve_all}

abbrev limits : Limits
limits = record {
  max_order_qty = 100;
  max_order_notional = pos 0;
  max_position = pos 150;
  max_gross_position = pos 500;
  price_band_bps = 0;
  require_reference = false;
  max_orders_per_second = 2;
  max_open_orders = 3;
  max_loss = pos 0;
}

-- A buy of 60 shares is opened; 40 of them are filled.
abbrev calls : List Call
calls = opens 1 buy 60 ∷ fills 1 buy 40 (pos 1000) ∷ []

abbrev engine : Engine
engine = run (new limits 4) calls

-- Orders that open, shrink, grow and end on two instruments.
abbrev order_calls : List Call
order_calls =
    opens 1 buy 60
    ∷ opens 1 buy 20
    ∷ reduces 1 buy 5
    ∷ fills 1 buy 5 (pos 1000)
    ∷ opens 2 sell 7
    ∷ grows 2 sell 3
    ∷ ends 1 buy 15
    ∷ closes 2 sell 10
    ∷ opens 9 buy 4
    ∷ []

-- One order of 60 shares is left of those on instrument 1, none of those on instrument 2, and
-- instrument 9 is not in the table.
left_of_one :
    held 4 1 buy order_calls (record { shares = 0; orders = 0 })
    ≡ record { shares = 60; orders = 1 }
unfolding held booked concerns
left_of_one = refl

left_of_two :
    held 4 2 sell order_calls (record { shares = 0; orders = 0 })
    ≡ record { shares = 0; orders = 0 }
unfolding held booked concerns
left_of_two = refl

run-new-exact_example :
    let r = run (new limits 4) order_calls in
    IsSound r
    × ((k : Locate) (t : Side)
        → let h = held 4 k t order_calls (record { shares = 0; orders = 0 }) in
          (open_of t (slot_at r k) ≡ pos h.shares) × (count_of t (slot_at r k) ≡ h.orders))
run-new-exact_example = run-new-exact limits 4 order_calls

engine-IsSound : IsSound engine
engine-IsSound = run-new-IsSound limits 4 calls

-- 100 is what the working and the held shares come to; 50 more are the most that is let through.
let_through : evaluate engine 1 buy (pos 1000) 50 (pos 1000) 0 ≡ accepted
unfolding evaluate run step new new_rate on_order_open count_open refresh settle unrealized_of
    exposure_of leg on_fill fill_position assess over_position over_gross gross_after outside_band
    rate_has_room release magnitude clamp64 opposite neg_ℤ ◌+ℤ◌ ◌-ℤ◌ ◌*ℤ◌ max_ℤ
let_through = refl

too_far : evaluate engine 1 buy (pos 1000) 51 (pos 1000) 0 ≡ position
unfolding evaluate run step new new_rate on_order_open count_open refresh settle unrealized_of
    exposure_of leg on_fill fill_position assess over_position over_gross gross_after outside_band
    rate_has_room release magnitude clamp64 opposite neg_ℤ ◌+ℤ◌ ◌-ℤ◌ ◌*ℤ◌ max_ℤ
too_far = refl

let_through_assess : assess engine 1 buy (pos 1000) 50 50 false (pos 1000) 0 ≡ accepted
unfolding evaluate
let_through_assess = let_through

assess-Passes_example : Passes engine 1 buy (pos 1000) 50 50 false (pos 1000) 0
assess-Passes_example =
    assess-Passes engine 1 buy (pos 1000) 50 50 false (pos 1000) 0 let_through_assess

evaluate-position_example :
    let after = magnitude (leg (slot_at (on_order_open engine 1 buy 50) 1) buy (pos 0)) in
    (after ≤ℤ engine.limits.max_position) ⊎ (after ≤ℤ magnitude (slot_at engine 1).held.qty)
evaluate-position_example =
    evaluate-position engine 1 buy (pos 1000) 50 (pos 1000) 0 engine-IsSound let_through

evaluate-gross_example :
    let after = (on_order_open engine 1 buy 50).gross in
    (engine.limits.max_gross_position ≤ℤ pos 0)
    ⊎ (after ≤ℤ engine.limits.max_gross_position)
    ⊎ (after ≤ℤ engine.gross)
evaluate-gross_example =
    evaluate-gross engine 1 buy (pos 1000) 50 (pos 1000) 0 engine-IsSound let_through

-- Three requests in a window for two: the third is refused.
abbrev requests : List ℕ
requests = 10 ∷ 20 ∷ 30 ∷ []

latest_served : (serve_all (new_rate 2, []) requests).0.latest ≤ 30
unfolding serve_all serve rate_has_room rate_record new_rate
latest_served = omega arith

recent-serve_all_example : recent 30 (serve_all (new_rate 2, []) requests).1 ≤ 2
recent-serve_all_example = recent-serve_all 2 requests 30 (omega arith) latest_served
