-- ===== src/Oms/Outcomes.antt =====
-- order_manager.hpp: what submit(), cancel() and replace() leave when they refuse, and what an order
-- that submit() sends has passed.
use opti_trade_engine.Prelude.{
  ℕ, ◌+◌, ◌-◌, ◌*◌, ◌≡◌, ◌≢◌, ◌⊎◌, refl, Bool, true, false, ◌||◌, not, Option, none, some, List,
  ◌∷◌, ◌==◌, if◌then◌else◌, ltb, leb, length, at_if, inl, inr, arith,
}
use opti_trade_engine.Prelude.Int.{pos, leb_ℤ, ltb_ℤ}
use opti_trade_engine.Core.Types.{Price, Qty, Nanos, max_order_qty}
use opti_trade_engine.Core.Table.{find, insert, erase}
use opti_trade_engine.Book.MarketBooks.{symbol_empty}
use opti_trade_engine.Risk.Types.{accepted}
use opti_trade_engine.Risk.Engine.{evaluate, evaluate_replace, is_accepted, admit, on_order_open}
use opti_trade_engine.Oms.Types.{
  OrderId, OrderRequest, SubmitStatus, SubmitResult, ok, rejected_by_risk, invalid_request,
  bad_state, capacity, gateway_busy, Gateway, Sources, is_terminal, on_order_update,
}
use opti_trade_engine.Oms.State.{Manager, max_wire_price}
use opti_trade_engine.Oms.Manager.{
  entry_at, valid, slot_available, next_slot, token_available, put, take_slot, link,
}
use opti_trade_engine.Oms.Manager.Calls.{
  submit, send_order, book_order, enter_message, refused, cancel_entry, cancel_message, cancel,
  on_found, replace_entry, replace, replace_message, book_replace, is_live, is_canceling, entry_for,
}
use opti_trade_engine.Oms.Invariant.Calls.{taken_back, not-true, accepted_verdict, submit_tests}

-- The state is as before, unless the status is ok.
abbrev Refusal : Manager → Manager × SubmitStatus → Type 0
Refusal m r = (r.1 ≢ ok) → r.0 ≡ m

if-Refusal :
    (m : Manager) (b : Bool) (x y : Manager × SubmitStatus)
    → (b ≡ true → Refusal m x)
    → (b ≡ false → Refusal m y)
    → Refusal m (if b then x else y)
if-Refusal m b x y there else_there = at_if (Refusal m) b x y there else_there

on_found-Refusal :
    (m : Manager) (call : ℕ → Manager → Manager × SubmitStatus) (o : Option ℕ)
    → ((slot : ℕ) → Refusal m (call slot m))
    → Refusal m (on_found call o m)
on_found-Refusal m call none no_trace bad = refl
on_found-Refusal m call (some slot) no_trace bad = no_trace slot bad

cancel_entry-Refusal :
    (gateway : Gateway) (slot : ℕ) (now : Nanos) (m : Manager)
    → Refusal m (cancel_entry gateway slot now m)
unfolding cancel_entry
cancel_entry-Refusal gateway slot now m =
    let e = entry_at m slot in
    if-Refusal m (is_terminal e.info.status || is_canceling e.info.status) (m, bad_state) _
      (λ over bad. refl)
      (λ clear.
        if-Refusal m (not (gateway (cancel_message e))) (m, gateway_busy) _ (λ busy bad. refl)
          (λ sent bad. absurd (bad refl)))

-- A cancel that is not sent leaves the order manager as it was.
pub cancel-refused :
    (gateway : Gateway) (id : OrderId) (now : Nanos) (m : Manager)
    → (cancel gateway id now m).1 ≢ ok
    → (cancel gateway id now m).0 ≡ m
unfolding cancel
cancel-refused gateway id now m =
    on_found-Refusal m _ (find id m.by_id) (λ slot. cancel_entry-Refusal gateway slot now m)

replace_entry-Refusal :
    (sources : Sources) (gateway : Gateway) (slot : ℕ) (price : Price) (qty : Qty) (now : Nanos)
    (m : Manager)
    → Refusal m (replace_entry sources gateway slot price qty now m)
unfolding replace_entry book_replace
replace_entry-Refusal sources gateway slot price qty now m =
    let e = entry_at m slot in
    let req = e.info.req in
    let open_after = qty - e.info.cum_qty in
    let growth = if ltb e.info.leaves_qty open_after then open_after - e.info.leaves_qty else 0 in
    let verdict =
      evaluate_replace m.risk req.locate req.side price open_after growth
        (sources.reference_price req.locate) now in
    let message = replace_message m e price qty in
    let named = insert (2 * length m.orders) m.next_token slot m.tokens in
    let undone : Manager = record m { tokens = erase m.next_token named.0 } in
    let bad_size =
      leb_ℤ price (pos 0)
      || ltb_ℤ max_wire_price price
      || (qty == 0)
      || ltb max_order_qty qty
      || leb qty e.info.cum_qty in
    let booked = book_replace slot price qty growth now message (record m { tokens = named.0 }) in
    let sent = if not (gateway message) then (undone, gateway_busy) else booked in
    let noted = if not named.1 then (m, capacity) else sent in
    let judged = if not (is_accepted verdict) then (m, rejected_by_risk) else noted in
    let checked = if not (token_available m) then (m, capacity) else judged in
    if-Refusal m (not (is_live e.info.status)) (m, bad_state)
      (if bad_size then (m, invalid_request) else checked) (λ t bad. refl)
      (λ lives.
        if-Refusal m bad_size (m, invalid_request) checked (λ t bad. refl)
          (λ sized.
            if-Refusal m (not (token_available m)) (m, capacity) judged (λ t bad. refl)
              (λ some_token.
                if-Refusal m (not (is_accepted verdict)) (m, rejected_by_risk) noted (λ t bad. refl)
                  (λ yes.
                    if-Refusal m (not named.1) (m, capacity) sent (λ t bad. refl)
                      (λ room.
                        if-Refusal m (not (gateway message)) (undone, gateway_busy) booked
                          (λ busy bad.
                            taken_back (2 * length m.orders) m.next_token slot m
                              (not-true named.1 room))
                          (λ took bad. absurd (bad refl)))))))

-- A replacement that is not sent leaves the order manager as it was.
pub replace-refused :
    (sources : Sources) (gateway : Gateway) (id : OrderId) (price : Price) (qty : Qty) (now : Nanos)
    (m : Manager)
    → (replace sources gateway id price qty now m).1 ≢ ok
    → (replace sources gateway id price qty now m).0 ≡ m
unfolding replace
replace-refused sources gateway id price qty now m =
    on_found-Refusal m _ (find id m.by_id)
      (λ slot. replace_entry-Refusal sources gateway slot price qty now m)

-- What submit() promises of its result: the state is as before, or the order passed every check, went
-- to the gateway, and has the next id.
pub record Sent (sources : Sources) (gateway : Gateway) (req : OrderRequest) (now : Nanos)
    (m : Manager) (r : Manager × SubmitResult) : Type 0 where
  pub valid_request : valid req ≡ true
  pub named : symbol_empty (sources.symbol req.locate) ≡ false
  pub by_risk :
      evaluate m.risk req.locate req.side req.price req.qty (sources.reference_price req.locate) now
      ≡ accepted
  pub taken : gateway (enter_message m req (sources.symbol req.locate)) ≡ true
  pub sent : r.0.sent ≡ enter_message m req (sources.symbol req.locate) ∷ m.sent
  pub id : r.1.id ≡ m.next_id
  pub next_id : r.0.next_id ≡ m.next_id + 1
  pub next_token : r.0.next_token ≡ m.next_token + 1

abbrev pub IsOutcome :
    Sources → Gateway → OrderRequest → Nanos → Manager → Manager × SubmitResult → Type 0
IsOutcome sources gateway req now m r =
    ((r.1.status ≢ ok) × (r.0 ≡ m)) ⊎ ((r.1.status ≡ ok) × Sent sources gateway req now m r)

-- A booked order.
booked-Sent :
    (sources : Sources) (gateway : Gateway) (req : OrderRequest) (now : Nanos) (m : Manager)
    (slot : ℕ) (tokens : List (ℕ × ℕ))
    → valid req ≡ true
    → symbol_empty (sources.symbol req.locate) ≡ false
    → evaluate m.risk req.locate req.side req.price req.qty (sources.reference_price req.locate) now
      ≡ accepted
    → gateway (enter_message m req (sources.symbol req.locate)) ≡ true
    → Sent sources gateway req now m (
        book_order slot req now
          (enter_message m req (sources.symbol req.locate))
          (record m { tokens = tokens }))
unfolding book_order take_slot link
booked-Sent sources gateway req now m slot tokens valid_request named by_risk taken =
    let message = enter_message m req (sources.symbol req.locate) in
    let taken_slot =
      take_slot slot
        record m { tokens = tokens; risk = admit m.risk now; sent = message ∷ m.sent } in
    let placed = put slot (entry_for m req now) record taken_slot {
      next_id = m.next_id + 1;
      by_id = (insert (length m.orders) m.next_id slot taken_slot.by_id).0;
    } in
    let linked = link slot placed in
    let booked : Manager = record linked {
      next_token = m.next_token + 1;
      open_count = m.open_count + 1;
      risk = on_order_open linked.risk req.locate req.side req.qty;
    } in
    let done : SubmitResult = record { status = ok; id = m.next_id; risk_reason = accepted } in
    let facts : Sent sources gateway req now m (booked, done) = record {
      valid_request = valid_request;
      named = named;
      by_risk = by_risk;
      taken = taken;
      sent = refl;
      id = refl;
      next_id = refl;
      next_token = refl;
    } in
    at_if (λ (x : Manager). Sent sources gateway req now m (x, done)) m.has_listener
      (record booked { heard = on_order_update (entry_at booked slot).info ∷ booked.heard }) booked
      (λ h. record {
        valid_request = valid_request;
        named = named;
        by_risk = by_risk;
        taken = taken;
        sent = refl;
        id = refl;
        next_id = refl;
        next_token = refl;
      })
      (λ h. facts)

-- A submit either leaves the order manager as it was and does not report ok, or the order was valid,
-- named, accepted by the risk engine and taken by the gateway, and has the next id.
pub submit-IsOutcome :
    (sources : Sources) (gateway : Gateway) (req : OrderRequest) (now : Nanos) (m : Manager)
    → IsOutcome sources gateway req now m (submit sources gateway req now m)
unfolding submit send_order book_order take_slot link
submit-IsOutcome sources gateway req now m =
    let P = IsOutcome sources gateway req now m in
    let stock = sources.symbol req.locate in
    let reference = sources.reference_price req.locate in
    let verdict = evaluate m.risk req.locate req.side req.price req.qty reference now in
    let message = enter_message m req stock in
    let by_risk : SubmitResult = record {
      status = rejected_by_risk;
      id = 0;
      risk_reason = verdict;
    } in
    let slot = next_slot m in
    let named = insert (2 * length m.orders) m.next_token slot m.tokens in
    let undone : Manager = record m { tokens = erase m.next_token named.0 } in
    let booked = book_order slot req now message (record m { tokens = named.0 }) in
    let passed = if not (gateway message) then (undone, refused gateway_busy) else booked in
    let sent = if not named.1 then (m, refused capacity) else passed in
    let judged = if not (is_accepted verdict) then (m, by_risk) else sent in
    let full = not (slot_available m) || not (token_available m) in
    at_if P (not (valid req) || symbol_empty stock) (m, refused invalid_request)
      (if full then (m, refused capacity) else judged) (λ bad. inl ((λ e. cc e), refl))
      (λ good.
        at_if P full (m, refused capacity) judged (λ t. inl ((λ e. cc e), refl))
          (λ room.
            at_if P (not (is_accepted verdict)) (m, by_risk) sent (λ t. inl ((λ e. cc e), refl))
              (λ yes.
                at_if P (not named.1) (m, refused capacity) passed (λ t. inl ((λ e. cc e), refl))
                  (λ fits.
                    at_if P (not (gateway message)) (undone, refused gateway_busy) booked
                      (λ busy. inl (
                        (λ e. cc e),
                        taken_back (2 * length m.orders) m.next_token slot m
                            (not-true named.1 fits),
                      ))
                      (λ took. inr (
                        refl,
                        booked-Sent sources gateway req now m slot named.0 (submit_tests _ _ good)
                            (ground (arith, good)) (accepted_verdict verdict (not-true _ yes))
                            (not-true _ took),
                      ))))))
