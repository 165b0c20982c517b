-- ===== src/Oms/Tests.antt =====
-- Runs of include/optitrade/oms on a small order manager, and the theorems at those runs.
use opti_trade_engine.Prelude.{◌+◌, ◌≡◌, refl, true, false, List, [], ◌∷◌, length, ◌||◌, not, ℕ}
use opti_trade_engine.Prelude.Int.{pos}
use opti_trade_engine.Core.Types.{buy, sell}
use opti_trade_engine.Ouch.Messages as Messages
use opti_trade_engine.Ouch.Messages.{Outbound, Canceled}
use opti_trade_engine.Ouch.Token.{from_id}
use opti_trade_engine.Risk.Types.{Limits}
use opti_trade_engine.Risk.Engine as RiskEngine
use opti_trade_engine.Oms.Types.{OrderRequest, Gateway, Sources, day, live, canceled}
use opti_trade_engine.Oms.State.{Entry, Manager, new, blank_entry, blank_info}
use opti_trade_engine.Oms.Manager.{entry_at}
use opti_trade_engine.Oms.Manager.Calls.{
  cancel_all, submit, cancel, replace, cancel_entry, replace_entry, is_canceling,
}
use opti_trade_engine.Oms.Manager.Reports.{on_report}
use opti_trade_engine.Oms.Ledger.{works}
use opti_trade_engine.Oms.Invariant.{IsValid}
use opti_trade_engine.Oms.Sweep.{swept, cancel_each}
use opti_trade_engine.Oms.CancelAll.{
  cancel_all-each, cancel_all-entry, cancel_all_complete, cancel_all-count,
}
use opti_trade_engine.Oms.Finality.{on_report-final}
use opti_trade_engine.Oms.Dropped.{report_token, Filed, on_report-dropped}
use opti_trade_engine.Oms.Outcomes.{submit-IsOutcome, cancel-refused, replace-refused, IsOutcome}
use opti_trade_engine.Oms.Runs.{Call, submits, reports, run, run-new-IsValid}

abbrev limits : Limits
limits = record {
  max_order_qty = 100;
  max_order_notional = pos 0;
  max_position = pos 1000;
  max_gross_position = pos 1000;
  price_band_bps = 0;
  require_reference = false;
  max_orders_per_second = 0;
  max_open_orders = 0;
  max_loss = pos 0;
}

abbrev sources : Sources
sources = record {
  symbol = λ l. record {
    c0 = b'A';
    c1 = b'B';
    c2 = b' ';
    c3 = b' ';
    c4 = b' ';
    c5 = b' ';
    c6 = b' ';
    c7 = b' ';
  };
  reference_price = λ l. pos 0;
}

abbrev takes : Gateway
takes message = true

abbrev refuses : Gateway
refuses message = false

abbrev a_buy : OrderRequest
a_buy = record { locate = 1; side = buy; price = pos 1000; qty = 60; tif = day }

abbrev a_sell : OrderRequest
a_sell = record { locate = 2; side = sell; price = pos 2000; qty = 40; tif = day }

abbrev gone : Outbound
gone = Messages.canceled record { ts = 5; token = from_id 1; decrement = 60; reason = b'U' }

abbrev calls : List Call
calls = submits sources takes a_buy 1 ∷ submits sources takes a_sell 2 ∷ reports gone 3 ∷ []

-- One order is canceled, and one works.
abbrev manager : Manager
manager = run (new 3 1 true (RiskEngine.new limits 4)) calls

manager-IsValid : IsValid manager
manager-IsValid = run-new-IsValid limits 4 3 1 true calls

run-new-IsValid_example : IsValid (run (new 3 1 true (RiskEngine.new limits 4)) calls)
run-new-IsValid_example = run-new-IsValid limits 4 3 1 true calls

cancel_all-each_example :
    cancel_all takes 9 manager ≡ cancel_each takes 9 manager-IsValid.list.working manager
cancel_all-each_example = cancel_all-each takes 9 manager manager-IsValid

cancel_all-count_example :
    let r = cancel_all takes 9 manager in r.1 + length manager.sent ≡ length r.0.sent
cancel_all-count_example = cancel_all-count takes 9 manager manager-IsValid

cancel_all-entry_example :
    entry_at (cancel_all takes 9 manager).0 1 ≡ swept takes 9 (entry_at manager 1)
cancel_all-entry_example = cancel_all-entry takes 9 manager 1 manager-IsValid

cancel_all_complete_example :
    let m' = (cancel_all takes 9 manager).0 in
    ((i : ℕ) → (not (works (entry_at m' i)) || is_canceling (entry_at m' i).info.status) ≡ true)
    × (cancel_all refuses 11 m' ≡ (m', 0))
cancel_all_complete_example =
    cancel_all_complete takes refuses 9 11 manager manager-IsValid (λ message. refl)

submit-IsOutcome_example :
    IsOutcome sources refuses a_buy 4 manager (submit sources refuses a_buy 4 manager)
submit-IsOutcome_example = submit-IsOutcome sources refuses a_buy 4 manager

-- A table of two slots: a finished order, and one that works.
abbrev finished_order : Entry
finished_order = record blank_entry {
  info = record blank_info { id = 1; req = a_buy; status = canceled };
  token = 1;
}

abbrev working_order : Entry
working_order = record blank_entry {
  info = record blank_info { id = 2; req = a_sell; leaves_qty = 40; status = live };
  token = 2;
  reserved = 40;
}

abbrev small : Manager
small = record (new 2 3 true (RiskEngine.new limits 4)) {
  orders = finished_order ∷ working_order ∷ [];
  by_id = (1, 0) ∷ (2, 1) ∷ [];
  tokens = (1, 0) ∷ (2, 1) ∷ [];
  next_id = 3;
  fresh = 2;
}

on_report-final_example : entry_at (on_report gone 5 small) 0 ≡ entry_at small 0
unfolding new
on_report-final_example = on_report-final gone 5 small 0 refl

on_report-dropped_example : Filed (report_token gone) small (on_report gone 5 small)
on_report-dropped_example = on_report-dropped gone 5 small

cancel-refused_example : (cancel refuses 2 5 small).0 ≡ small
unfolding cancel cancel_entry new
cancel-refused_example = cancel-refused refuses 2 5 small (λ e. cc e)

replace-refused_example : (replace sources refuses 1 (pos 500) 10 5 small).0 ≡ small
unfolding replace replace_entry new
replace-refused_example = replace-refused sources refuses 1 (pos 500) 10 5 small (λ e. cc e)
