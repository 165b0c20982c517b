-- ===== src/Oms/Invariant/Calls.antt =====
-- order_manager.hpp: every call of a strategy keeps the invariant.
use mathlib.Core.Path.{subst}
use opti_trade_engine.Prelude.{
  ℕ, ◌*◌, ◌≤◌, ◌<◌, ◌≡◌, refl, sym, ap, Bool, true, false, ◌||◌, not, List, [], ◌∷◌, ◌==◌,
  if◌then◌else◌, ltb, leb, arith, length, get_or, Bool-cases, inl, inr,
}
use opti_trade_engine.Core.Types.{Price, Qty, Locate, Side, Nanos, max_order_qty}
use opti_trade_engine.Book.MarketBooks.{symbol_empty}
use opti_trade_engine.Core.Table.{insert, erase, has}
use opti_trade_engine.Ouch.Messages.{Inbound}
use opti_trade_engine.Risk.Engine.{Engine}
use opti_trade_engine.Risk.Engine.Cells.{table_size}
use opti_trade_engine.Oms.Types.{OrderRequest}
use opti_trade_engine.Oms.State.{Manager}
use opti_trade_engine.Oms.Manager.{slot_available, next_slot}
use opti_trade_engine.Risk.Types.{Reject, accepted}
use opti_trade_engine.Risk.Engine.{evaluate, is_accepted}
use opti_trade_engine.Risk.Engine.Verdict.{assess-Passes}
use opti_trade_engine.Oms.Types.{
  rejected_by_risk, invalid_request, capacity, gateway_busy, SubmitResult, Gateway, Sources,
}
use opti_trade_engine.Oms.Manager.{token_available, valid}
use opti_trade_engine.Oms.Manager.Calls.{book_order, send_order, submit, enter_message, refused}
use opti_trade_engine.Oms.Invariant.{IsValid}
use opti_trade_engine.Oms.Invariant.Opening.{
  held, book_fresh-IsValid, book_oldest-IsValid, IsValid-if_pair,
}

-- A token that could be inserted stands first.
pub insert-room :
    (max k slot : ℕ) (ps : List (ℕ × ℕ))
    → (insert max k slot ps).1 ≡ true
    → ((insert max k slot ps).0 ≡ (k, slot) ∷ ps) × (has k ps ≡ false)
insert-room max k slot ps h = elim (Bool-cases (has k ps || leb max (length ps))) [
  | inl full ↦ cc (rw full at h)
  | inr room ↦ (rw room refl, ground (arith, room))
]

pub erase-absent : (k : ℕ) (ps : List (ℕ × ℕ)) → has k ps ≡ false → erase k ps ≡ ps
erase-absent k [] h = refl
erase-absent k ((j, x) ∷ ps) h =
    let other : (j == k) ≡ false = ground arith in
    rw other (ap (λ (l : List (ℕ × ℕ)). (j, x) ∷ l) (erase-absent k ps (ground arith)))

-- A token that is taken back leaves the table as it was.
pub erase-insert :
    (max k slot : ℕ) (ps : List (ℕ × ℕ))
    → (insert max k slot ps).1 ≡ true
    → erase k (insert max k slot ps).0 ≡ ps
erase-insert max k slot ps h =
    let (first, absent) = insert-room max k slot ps h in
    let here : (k == k) ≡ true = ground arith in rw first (rw here (erase-absent k ps absent))

pub not-true : (b : Bool) → not b ≡ false → b ≡ true
not-true b h = ground arith

-- A send that the gateway refused leaves no trace.
pub taken_back :
    (max k slot : ℕ) (m : Manager)
    → (insert max k slot m.tokens).1 ≡ true
    → record m { tokens = erase k (insert max k slot m.tokens).0 } ≡ m
taken_back max k slot m h =
    ap (λ (ps : List (ℕ × ℕ)). record m { tokens = ps }) (erase-insert max k slot m.tokens h)

pub accepted_verdict : (x : Reject) → is_accepted x ≡ true → x ≡ accepted
unfolding is_accepted
accepted_verdict x h = ground arith

-- An order that the risk engine lets through is on an instrument of its table.
on_table_of :
    (r : Engine) (l : Locate) (side : Side) (price : Price) (qty : Qty) (reference : Price)
    (now : Nanos)
    → evaluate r l side price qty reference now ≡ accepted
    → l < table_size r
unfolding evaluate
on_table_of r l side price qty reference now h =
    (assess-Passes r l side price qty qty false reference now h).on_table

module _ (gateway : Gateway) (req : OrderRequest) (now : Nanos) (message : Inbound) (m : Manager)
    (v : IsValid m) (some_qty : 0 < req.qty) (small : req.qty ≤ max_order_qty)
    (on_table : req.locate < table_size m.risk) where
  book_next-IsValid :
      slot_available m ≡ true
      → IsValid (book_order (next_slot m) req now message (held (next_slot m) m)).0
  unfolding next_slot
  book_next-IsValid room = elim (Bool-cases (ltb m.fresh (length m.orders))) [
    | inl unused ↦
        let e : next_slot m ≡ m.fresh = rw unused refl in
        subst (λ (slot : ℕ). IsValid (book_order slot req now message (held slot m)).0) (sym e)
          (book_fresh-IsValid m req now message v some_qty small on_table unused)
    | inr full ↦
        let e : next_slot m ≡ get_or m.finished m.finished_head 0 = rw full refl in
        subst (λ (slot : ℕ). IsValid (book_order slot req now message (held slot m)).0) (sym e)
          (book_oldest-IsValid m req now message v some_qty small on_table full
            (ground (arith, full)))
  ]

  send_order-IsValid : slot_available m ≡ true → IsValid (send_order gateway req now message m).0
  unfolding send_order
  send_order-IsValid room =
      let slot = next_slot m in
      let named = insert (2 * length m.orders) m.next_token slot m.tokens in
      let undone : Manager = record m { tokens = erase m.next_token named.0 } in
      let booked = book_order slot req now message (record m { tokens = named.0 }) in
      IsValid-if_pair (not named.1) (m, refused capacity)
        (if not (gateway message) then (undone, refused gateway_busy) else booked) (λ no_room. v)
        (λ some_room.
          let fits = not-true named.1 some_room in
          IsValid-if_pair (not (gateway message)) (undone, refused gateway_busy) booked
            (λ busy.
              subst IsValid (sym (taken_back (2 * length m.orders) m.next_token slot m fits)) v)
            (λ sent.
              subst
                (λ (ps : List (ℕ × ℕ)).
                  IsValid (book_order slot req now message (record m { tokens = ps })).0)
                (sym (insert-room (2 * length m.orders) m.next_token slot m.tokens fits).0)
                (book_next-IsValid room)))

valid_bounds : (r : OrderRequest) → valid r ≡ true → (0 < r.qty) × (r.qty ≤ max_order_qty)
valid_bounds r h = (ground arith, ground arith)

pub submit_tests : (a b : Bool) → (not a || b) ≡ false → a ≡ true
submit_tests a b h = ground arith

pub submit-IsValid :
    (sources : Sources) (gateway : Gateway) (req : OrderRequest) (now : Nanos) (m : Manager)
    → IsValid m
    → IsValid (submit sources gateway req now m).0
unfolding submit
submit-IsValid sources gateway req now m v =
    let stock = sources.symbol req.locate in
    let reference = sources.reference_price req.locate in
    let verdict = evaluate m.risk req.locate req.side req.price req.qty reference now in
    let message = enter_message m req stock in
    let by_risk : SubmitResult = record {
      status = rejected_by_risk;
      id = 0;
      risk_reason = verdict;
    } in
    let sent = send_order gateway req now message m in
    let judged = if not (is_accepted verdict) then (m, by_risk) else sent in
    let full = not (slot_available m) || not (token_available m) in
    IsValid-if_pair (not (valid req) || symbol_empty stock) (m, refused invalid_request)
      (if full then (m, refused capacity) else judged) (λ bad. v)
      (λ good.
        IsValid-if_pair full (m, refused capacity) judged (λ none_free. v)
          (λ room.
            IsValid-if_pair (not (is_accepted verdict)) (m, by_risk) sent (λ no. v)
              (λ yes_sent.
                let (some_qty, small) = valid_bounds req (submit_tests _ _ good) in
                let ok_verdict = accepted_verdict verdict (not-true _ yes_sent) in
                send_order-IsValid gateway req now message m v some_qty small
                  (on_table_of m.risk req.locate req.side req.price req.qty reference now
                    ok_verdict)
                  (submit_tests _ _ room))))
