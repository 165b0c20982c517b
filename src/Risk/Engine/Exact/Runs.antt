-- ===== src/Risk/Engine/Exact/Runs.antt =====
-- risk_engine.hpp: the working shares and orders after any sequence of calls.
use mathlib.Core.Path.{subst}
use opti_trade_engine.Prelude.{
  ℕ, ◌≡◌, refl, ◌∙◌, Bool, true, false, ◌||◌, ◌==◌, List, [], ◌∷◌, if◌then◌else◌, min, arith, at_if,
  length-replicate,
}
use opti_trade_engine.Prelude.Int.{pos}
use opti_trade_engine.Core.Types.{Price, Qty, Locate, Nanos, Side}
use opti_trade_engine.Risk.Types.{Limits, open_of, count_of, empty_slot}
use opti_trade_engine.Risk.Engine.{
  Engine, new, slot_at, off_table, max_locates, count_open, on_order_open, on_order_grow,
  on_order_reduce, on_order_end, on_order_closed, check, admit, is_accepted, evaluate,
}
use opti_trade_engine.Risk.Engine.Ledger.{IsSound}
use opti_trade_engine.Risk.Engine.Soundness.{
  Call, opens, grows, reduces, ends, closes, fills, marks, checks, admits, halts, step, run,
  step-IsSound, run-new-IsSound,
}
use opti_trade_engine.Risk.Engine.Cells.{table_size, size-refresh}
use opti_trade_engine.Risk.Engine.Handlers.{new-IsSound}
use opti_trade_engine.Risk.Engine.Working.{
  Keeps, same-Keeps, admit-Keeps, on_fill-Keeps, mark-Keeps, set_kill_switch-Keeps, new-IsIdle,
}
use opti_trade_engine.Risk.Engine.Exact.{Held, Holds, booked, concerns, held}
use opti_trade_engine.Risk.Engine.Exact.Calls.{
  open-Holds, grow-Holds, reduce-Holds, end-Holds, close-Holds,
}

size-new :
    (limits : Limits) (locates : ℕ) → table_size (new limits locates) ≡ min locates max_locates
unfolding new
size-new limits locates = length-replicate (min locates max_locates) empty_slot

kept-Holds :
    (r r' : Engine) (k : Locate) (t : Side) (h : Held) → Keeps r r' → Holds r k t h → Holds r' k t h
kept-Holds r r' k t h keeps is = record {
  shares = keeps.open_kept k t ∙ is.shares;
  orders = keeps.count_kept k t ∙ is.orders;
  few_shares = is.few_shares;
  few_orders = is.few_orders;
}

check-Keeps :
    (r : Engine) (l : Locate) (side : Side) (price : Price) (qty : Qty) (reference : Price)
    (now : Nanos)
    → IsSound r
    → Keeps r (check r l side price qty reference now).0
unfolding check
check-Keeps r l side price qty reference now v =
    at_if (Keeps r) (is_accepted (evaluate r l side price qty reference now)) (admit r now) r
      (λ h. admit-Keeps r now v) (λ h. same-Keeps r v)

step-Holds :
    (r : Engine) (c : Call) (k : Locate) (t : Side) (h : Held)
    → IsSound r
    → Holds r k t h
    → Holds (step r c) k t (if concerns (table_size r) k t c then booked c h else h)
unfolding step concerns booked
step-Holds r (opens l s qty) k t h v is = open-Holds r l k s t qty h is
step-Holds r (grows l s qty) k t h v is = grow-Holds r l k s t qty h is
step-Holds r (reduces l s qty) k t h v is = reduce-Holds r l k s t qty h is
step-Holds r (ends l s qty) k t h v is = end-Holds r l k s t qty h is
step-Holds r (closes l s qty) k t h v is = close-Holds r l k s t qty h is
step-Holds r (fills l s qty price) k t h v is =
    kept-Holds r _ k t h (on_fill-Keeps r l s qty price v) is
step-Holds r (marks l price) k t h v is = kept-Holds r _ k t h (mark-Keeps r l price v) is
step-Holds r (checks l s price qty reference now) k t h v is =
    kept-Holds r _ k t h (check-Keeps r l s price qty reference now v) is
step-Holds r (admits now) k t h v is = kept-Holds r _ k t h (admit-Keeps r now v) is
step-Holds r (halts on) k t h v is = kept-Holds r _ k t h (set_kill_switch-Keeps r on v) is

if-size :
    (b : Bool) (n : ℕ) (x y : Engine)
    → table_size x ≡ n
    → table_size y ≡ n
    → table_size (if b then x else y) ≡ n
if-size true n x y e f = e
if-size false n x y e f = f

size-step : (r : Engine) (c : Call) → IsSound r → table_size (step r c) ≡ table_size r
unfolding step on_order_open on_order_grow on_order_reduce on_order_end on_order_closed count_open
size-step r (opens l s qty) v =
    if-size (off_table r l || qty == 0) _ r _ refl
      (if-size _ _ _ _ (size-refresh r l _) (size-refresh _ l _))
size-step r (grows l s qty) v = if-size (off_table r l || qty == 0) _ r _ refl (size-refresh r l _)
size-step r (reduces l s qty) v = if-size (off_table r l) _ r _ refl (size-refresh r l _)
size-step r (ends l s qty) v =
    if-size (off_table r l) _ r _ refl (if-size _ _ _ _ (size-refresh r l _) (size-refresh _ l _))
size-step r (closes l s qty) v = if-size (off_table r l) _ r _ refl (size-refresh _ l _)
size-step r (fills l s qty price) v = (on_fill-Keeps r l s qty price v).size
size-step r (marks l price) v = (mark-Keeps r l price v).size
size-step r (checks l s price qty reference now) v =
    (check-Keeps r l s price qty reference now v).size
size-step r (admits now) v = (admit-Keeps r now v).size
size-step r (halts on) v = (set_kill_switch-Keeps r on v).size

run-Holds :
    (size : ℕ) (r : Engine) (cs : List Call) (k : Locate) (t : Side) (h : Held)
    → table_size r ≡ size
    → IsSound r
    → Holds r k t h
    → Holds (run r cs) k t (held size k t cs h)
unfolding run held
run-Holds size r [] k t h e v is = is
run-Holds size r (c ∷ cs) k t h e v is =
    run-Holds size (step r c) cs k t (if concerns size k t c then booked c h else h)
      (size-step r c v ∙ e) (step-IsSound r c v)
      (subst (λ (n : ℕ). Holds (step r c) k t (if concerns n k t c then booked c h else h)) e
        (step-Holds r c k t h v is))

-- After any calls on a new engine, each instrument and side has exactly the working shares and orders
-- that the calls on it booked and released, the totals are the sums over the instruments, and the
-- cached values are current.
pub run-new-exact :
    (limits : Limits) (locates : ℕ) (cs : List Call)
    → let r = run (new limits locates) cs in
      IsSound r
      × ((k : Locate) (t : Side)
          → let h = held (min locates max_locates) k t cs (record { shares = 0; orders = 0 }) in
            (open_of t (slot_at r k) ≡ pos h.shares) × (count_of t (slot_at r k) ≡ h.orders))
run-new-exact limits locates cs = (
  run-new-IsSound limits locates cs,
  λ k t.
      let idle = new-IsIdle limits locates k t in
      let done =
        run-Holds (min locates max_locates) (new limits locates) cs k t
          (record { shares = 0; orders = 0 }) (size-new limits locates) (new-IsSound limits locates)
          (record {
            shares = idle.0;
            orders = idle.1;
            few_shares = omega arith;
            few_orders = omega arith;
          }) in
      (done.shares, done.orders),
)
