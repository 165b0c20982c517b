-- ===== src/Oms/Runs.antt =====
-- order_manager.hpp: any sequence of calls, reports and risk updates on a new order manager.
use opti_trade_engine.Prelude.{
  ℕ, zero, suc, ◌≡◌, refl, sym, ◌∙◌, ap, Bool, List, [], ◌∷◌, arith, replicate, length-replicate,
  get_or-replicate, All-replicate, inl,
}
use opti_trade_engine.Prelude.Int.{pos}
use opti_trade_engine.Core.Types.{Price, Qty, Locate, Side, Nanos, buy}
use opti_trade_engine.Ouch.Messages.{Outbound}
use opti_trade_engine.Risk.Types.{Limits}
use opti_trade_engine.Risk.Engine as RiskEngine
use opti_trade_engine.Risk.Engine.{Engine, slot_at, mark, set_kill_switch}
use opti_trade_engine.Risk.Engine.Ledger.{IsSound}
use opti_trade_engine.Risk.Engine.Handlers.{new-IsSound}
use opti_trade_engine.Risk.Engine.Cells.{table_size}
use opti_trade_engine.Risk.Engine.Working.{
  Keeps, mark-Keeps, set_kill_switch-Keeps, IsIdle, new-IsIdle,
}
use opti_trade_engine.Oms.Types.{OrderId, OrderRequest, Gateway, Sources}
use opti_trade_engine.Oms.State.{Manager, blank_entry, new, slot_count, no_link}
use opti_trade_engine.Oms.Manager.Calls.{submit, cancel, replace, cancel_all}
use opti_trade_engine.Oms.Manager.Reports.{on_report}
use opti_trade_engine.Oms.Ledger.{IsEntry, booked, working_on, working_all, keep-Books}
use opti_trade_engine.Oms.Slots.Ring.{window, occurs}
use opti_trade_engine.Oms.Invariant.{IsValid}
use opti_trade_engine.Oms.Invariant.Reports.{on_report-IsValid}
use opti_trade_engine.Oms.Invariant.Opening.{nothing_at}
use opti_trade_engine.Oms.Invariant.Calls.{submit-IsValid}
use opti_trade_engine.Oms.Invariant.Changes.{cancel-IsValid, replace-IsValid}
use opti_trade_engine.Oms.CancelAll.{cancel_all-IsValid}

-- The calls of a strategy, the reports of a venue, and the updates of the shared risk engine. The
-- gateway and the sources may answer each call in their own way.
pub data Call : Type 0 where
  submits : Sources → Gateway → OrderRequest → Nanos → Call
  cancels : Gateway → OrderId → Nanos → Call
  replaces : Sources → Gateway → OrderId → Price → Qty → Nanos → Call
  cancels_all : Gateway → Nanos → Call
  reports : Outbound → Nanos → Call
  marks : Locate → Price → Call
  halts : Bool → Call

unfoldable pub step : Manager → Call → Manager
step m (submits sources gateway req now) = (submit sources gateway req now m).0
step m (cancels gateway id now) = (cancel gateway id now m).0
step m (replaces sources gateway id price qty now) = (replace sources gateway id price qty now m).0
step m (cancels_all gateway now) = (cancel_all gateway now m).0
step m (reports x now) = on_report x now m
step m (marks locate price) = record m { risk = mark m.risk locate price }
step m (halts on) = record m { risk = set_kill_switch m.risk on }

unfoldable pub run : Manager → List Call → Manager
run m [] = m
run m (c ∷ cs) = run (step m c) cs

-- Another call of the risk engine.
kept-IsValid :
    (m : Manager) (r : Engine) → IsValid m → Keeps m.risk r → IsValid (record m { risk = r })
kept-IsValid m r v k = record {
  books = keep-Books m.risk r m.orders m.open_count v.books k;
  slots = v.slots;
  list = v.list;
  start = v.start;
}

step-IsValid : (m : Manager) (c : Call) → IsValid m → IsValid (step m c)
unfolding step
step-IsValid m (submits sources gateway req now) v = submit-IsValid sources gateway req now m v
step-IsValid m (cancels gateway id now) v = cancel-IsValid gateway id now m v
step-IsValid m (replaces sources gateway id price qty now) v =
    replace-IsValid sources gateway id price qty now m v
step-IsValid m (cancels_all gateway now) v = cancel_all-IsValid gateway now m v
step-IsValid m (reports x now) v = on_report-IsValid x now m v
step-IsValid m (marks locate price) v =
    kept-IsValid m _ v (mark-Keeps m.risk locate price v.books.sound)
step-IsValid m (halts on) v = kept-IsValid m _ v (set_kill_switch-Keeps m.risk on v.books.sound)

pub run-IsValid : (m : Manager) (cs : List Call) → IsValid m → IsValid (run m cs)
unfolding run
run-IsValid m [] v = v
run-IsValid m (c ∷ cs) v = run-IsValid (step m c) cs (step-IsValid m c v)

booked-replicate : (l : Locate) (s : Side) (n : ℕ) → booked l s (replicate n blank_entry) ≡ 0
unfolding booked
booked-replicate l s zero = refl
booked-replicate l s (suc n) = omega (arith, nothing_at 0 l buy s 0 refl, booked-replicate l s n)

working_on-replicate :
    (l : Locate) (s : Side) (n : ℕ) → working_on l s (replicate n blank_entry) ≡ 0
unfolding working_on
working_on-replicate l s zero = refl
working_on-replicate l s (suc n) =
    omega (arith, nothing_at 0 l buy s 0 refl, working_on-replicate l s n)

working_all-replicate : (n : ℕ) → working_all (replicate n blank_entry) ≡ 0
unfolding working_all
working_all-replicate zero = refl
working_all-replicate (suc n) = omega (arith, working_all-replicate n)

pub new-IsValid :
    (max_orders first_token : ℕ) (has_listener : Bool) (r : Engine)
    → IsSound r
    → IsIdle r
    → IsValid (new max_orders first_token has_listener r)
unfolding new window occurs
new-IsValid max_orders first_token has_listener r v idle =
    let n = slot_count max_orders in
    let size = length-replicate n blank_entry in
    let cell = λ (i : ℕ). get_or-replicate n i blank_entry in
    record {
      books = record {
        sound = v;
        ledger = λ l s. (idle l s).0 ∙ ap pos (sym (booked-replicate l s n));
        counts = λ l s. (idle l s).1 ∙ sym (working_on-replicate l s n);
        total = sym (working_all-replicate n);
        entries = All-replicate (IsEntry (table_size r)) n blank_entry (inl refl);
        few = omega (arith, size);
      };
      slots = record {
        ring = length-replicate n 0 ∙ sym size;
        head_in = λ h. h;
        once = λ i h. rw (cell i) refl;
        inside = tt;
        total = refl;
        few = omega arith;
        used = λ i h. absurd (omega (arith, h));
        unused = λ i h. rw (cell i) refl;
        ids = tt;
        names = tt;
      };
      list = record {
        working = [];
        fits = length-replicate n no_link ∙ sym size;
        few = omega (arith, size);
        inside = tt;
        once = λ i h. rw (cell i) refl;
        forwards = refl;
        backwards = refl;
        rising = omega arith;
      };
      start = omega arith;
    }

-- After any calls, reports and risk updates on a new order manager over a new risk engine, the engine
-- holds exactly the reserved quantities and counts of the working orders, the slots, the ring of
-- finished orders and the list of working orders are in order, and each order is within its bounds.
pub run-new-IsValid :
    (limits : Limits) (locates max_orders first_token : ℕ) (has_listener : Bool) (cs : List Call)
    → IsValid (run (new max_orders first_token has_listener (RiskEngine.new limits locates)) cs)
run-new-IsValid limits locates max_orders first_token has_listener cs = run-IsValid _ cs (
    new-IsValid max_orders first_token has_listener (RiskEngine.new limits locates)
      (new-IsSound limits locates) (new-IsIdle limits locates))
