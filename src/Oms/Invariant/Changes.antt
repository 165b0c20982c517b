-- ===== src/Oms/Invariant/Changes.antt =====
-- order_manager.hpp: cancel() and replace() keep the invariant.
use mathlib.Core.Path.{subst}
use opti_trade_engine.Prelude.{
  ℕ, ◌+◌, ◌-◌, ◌*◌, ◌≤◌, ◌<◌, ◌≡◌, refl, sym, ◌∙◌, ap, true, false, ◌||◌, not, List, ◌∷◌, Option,
  none, some, ◌==◌, if◌then◌else◌, ltb, leb, arith, length, get_or-set_self,
}
use opti_trade_engine.Prelude.Int.{pos, leb_ℤ, ltb_ℤ}
use opti_trade_engine.Core.Types.{Price, Qty, Nanos, max_order_qty}
use opti_trade_engine.Core.Table.{find, insert, erase}
use opti_trade_engine.Ouch.Messages.{Inbound}
use opti_trade_engine.Risk.Engine.{admit, is_accepted, evaluate_replace}
use opti_trade_engine.Risk.Engine.Counts.{same-Moves}
use opti_trade_engine.Risk.Engine.Working.{Keeps, same-Keeps, admit-Keeps}
use opti_trade_engine.Oms.Types.{
  OrderId, OrderStatus, is_terminal, pending_cancel, pending_replace, SubmitStatus, ok,
  rejected_by_risk, invalid_request, bad_state, capacity, gateway_busy, Gateway, Sources,
}
use opti_trade_engine.Oms.State.{Entry, Manager, blank_entry, max_wire_price}
use opti_trade_engine.Oms.Manager.{entry_at, put, want, sync_ledger, notify, token_available}
use opti_trade_engine.Oms.Manager.Calls.{
  cancel_message, is_canceling, cancel_entry, cancel, replace_message, book_replace, is_live,
  replace_entry, replace, on_found,
}
use opti_trade_engine.Oms.Ledger.{Facts, keep-Books}
use opti_trade_engine.Oms.Slots.{Below, find-All}
use opti_trade_engine.Oms.Invariant.{
  IsValid, aside-IsValid, inside, entry-Facts, store-IsValid, sync-IsValid,
}
use opti_trade_engine.Oms.Invariant.Notices.{notify-IsValid}
use opti_trade_engine.Oms.Invariant.Entries.{renamed-Slots, synced-Facts}
use opti_trade_engine.Oms.Invariant.Opening.{IsValid-if_pair, held}
use opti_trade_engine.Oms.Invariant.Calls.{insert-room, taken_back, not-true}

-- A working order that goes to another working state.
abbrev moved : Entry → OrderStatus → Nanos → Entry
moved e status now = record e { info = record e.info { status = status; last_update = now } }

moved-Facts :
    (n : ℕ) (e : Entry) (status : OrderStatus) (now : Nanos)
    → Facts n e
    → is_terminal e.info.status ≡ false
    → is_terminal status ≡ false
    → Facts n (moved e status now)
unfolding want
moved-Facts n e status now f working still = record {
  used = f.used;
  on_table = f.on_table;
  within = f.within;
  size = f.size;
  replacing = f.replacing;
  reserves = rw still (rw working at f.reserves);
  ended = λ h. cc (rw still at h);
  priced = f.priced;
}

moved-IsValid :
    (m : Manager) (slot : ℕ) (status : OrderStatus) (now : Nanos)
    → IsValid m
    → slot < m.fresh
    → is_terminal (entry_at m slot).info.status ≡ false
    → is_terminal status ≡ false
    → IsValid (put slot (moved (entry_at m slot) status now) m)
moved-IsValid m slot status now v h working still =
    let e = entry_at m slot in
    store-IsValid m slot (moved e status now) m.risk v h refl refl refl (working ∙ sym still)
      (same-Moves m.risk _ _ e.reserved _ v.books.sound)
      (moved-Facts _ e status now (entry-Facts m slot v h) working still)

pub cancel_entry-IsValid :
    (gateway : Gateway) (slot : ℕ) (now : Nanos) (m : Manager)
    → IsValid m
    → slot < m.fresh
    → IsValid (cancel_entry gateway slot now m).0
unfolding cancel_entry
cancel_entry-IsValid gateway slot now m v h =
    let e = entry_at m slot in
    let message = cancel_message e in
    let told : Manager = record m { sent = message ∷ m.sent } in
    let w : IsValid told = aside-IsValid m _ _ _ _ v in
    let canceling = put slot (moved e pending_cancel now) told in
    let done : Manager × SubmitStatus = (notify slot canceling, ok) in
    IsValid-if_pair (is_terminal e.info.status || is_canceling e.info.status) (m, bad_state)
      (if not (gateway message) then (m, gateway_busy) else done) (λ bad. v)
      (λ fine.
        IsValid-if_pair (not (gateway message)) (m, gateway_busy) done (λ busy. v)
          (λ sent.
            notify-IsValid slot canceling
              (moved-IsValid told slot pending_cancel now w h (ground (arith, fine)) refl)))

-- An order that the table of ids names.
id_slot : (m : Manager) (id slot : ℕ) → IsValid m → find id m.by_id ≡ some slot → slot < m.fresh
id_slot m id slot v is = find-All (Below m.fresh) id slot m.by_id v.slots.ids is

-- A call that keeps the invariant on every slot in use keeps it on the slot of an order.
on_found-IsValid :
    (call : ℕ → Manager → Manager × SubmitStatus) (m : Manager) (found : Option ℕ)
    → IsValid m
    → ((slot : ℕ) → found ≡ some slot → IsValid (call slot m).0)
    → IsValid (on_found call found m).0
on_found-IsValid call m none v kept = v
on_found-IsValid call m (some slot) v kept = kept slot refl

pub cancel-IsValid :
    (gateway : Gateway) (id : OrderId) (now : Nanos) (m : Manager)
    → IsValid m
    → IsValid (cancel gateway id now m).0
unfolding cancel
cancel-IsValid gateway id now m v =
    on_found-IsValid _ m (find id m.by_id) v
      (λ slot is. cancel_entry-IsValid gateway slot now m v (id_slot m id slot v is))

-- The state after the gateway took a replacement.
module _ (m : Manager) (slot : ℕ) (v : IsValid m) (h : slot < m.fresh)
    (lives : is_live (entry_at m slot).info.status ≡ true) where
  working : is_terminal (entry_at m slot).info.status ≡ false
  working = ground (arith, lives)

  book_replace-IsValid :
      (price : Price) (qty growth : Qty) (now : Nanos) (message : Inbound)
      → qty ≤ max_order_qty
      → IsValid (book_replace slot price qty growth now message m).0
  unfolding book_replace sync_ledger want
  book_replace-IsValid price qty growth now message small =
      let e = entry_at m slot in
      let risk = if growth == 0 then m.risk else admit m.risk now in
      let k : Keeps m.risk risk =
        elim (growth == 0) as (λ b. Keeps m.risk (if b then m.risk else admit m.risk now)) [
          | true ↦ same-Keeps m.risk v.books.sound
          | false ↦ admit-Keeps m.risk now v.books.sound
        ] in
      let taken : Manager = record m {
        risk = risk;
        next_token = m.next_token + 1;
        sent = message ∷ m.sent;
      } in
      let w : IsValid taken = record {
        books = keep-Books m.risk risk m.orders m.open_count v.books k;
        slots = v.slots;
        list = v.list;
        start = v.start;
      } in
      let f = entry-Facts taken slot w h in
      let replacing : Entry = record e {
        next_token = m.next_token;
        replace_price = price;
        replace_qty = qty;
      } in
      let synced = sync_ledger slot replacing taken in
      let ws : IsValid synced =
        sync-IsValid taken slot replacing w h refl refl refl refl refl
          (synced-Facts _ replacing f.used f.on_table f.within f.size small f.priced working) in
      let here : entry_at synced slot ≡ record replacing { reserved = want replacing } =
        get_or-set_self m.orders slot _ blank_entry (inside m slot v h) in
      notify-IsValid slot _ (
        moved-IsValid synced slot pending_replace now ws h
          (ap (λ (x : Entry). is_terminal x.info.status) here ∙ working) refl)

-- The token of a replacement is held for the slot of its order.
pub held-IsValid : (m : Manager) (slot : ℕ) → IsValid m → slot < m.fresh → IsValid (held slot m)
held-IsValid m slot v h = record {
  books = v.books;
  slots = renamed-Slots m v (h, v.slots.names);
  list = v.list;
  start = v.start;
}

pub replace_entry-IsValid :
    (sources : Sources) (gateway : Gateway) (slot : ℕ) (price : Price) (qty : Qty) (now : Nanos)
    (m : Manager)
    → IsValid m
    → slot < m.fresh
    → IsValid (replace_entry sources gateway slot price qty now m).0
unfolding replace_entry
replace_entry-IsValid sources gateway slot price qty now m v h =
    let e = entry_at m slot in
    let req = e.info.req in
    let open_after = qty - e.info.cum_qty in
    let growth = if ltb e.info.leaves_qty open_after then open_after - e.info.leaves_qty else 0 in
    let verdict =
      evaluate_replace m.risk req.locate req.side price open_after growth
        (sources.reference_price req.locate) now in
    let message = replace_message m e price qty in
    let named = insert (2 * length m.orders) m.next_token slot m.tokens in
    let undone : Manager = record m { tokens = erase m.next_token named.0 } in
    let bad_size =
      leb_ℤ price (pos 0)
      || ltb_ℤ max_wire_price price
      || (qty == 0)
      || ltb max_order_qty qty
      || leb qty e.info.cum_qty in
    let booked = book_replace slot price qty growth now message (record m { tokens = named.0 }) in
    let sent = if not (gateway message) then (undone, gateway_busy) else booked in
    let noted = if not named.1 then (m, capacity) else sent in
    let judged = if not (is_accepted verdict) then (m, rejected_by_risk) else noted in
    let checked = if not (token_available m) then (m, capacity) else judged in
    IsValid-if_pair (not (is_live e.info.status)) (m, bad_state)
      (if bad_size then (m, invalid_request) else checked) (λ bad. v)
      (λ lives.
        IsValid-if_pair bad_size (m, invalid_request) checked (λ bad. v)
          (λ sized.
            IsValid-if_pair (not (token_available m)) (m, capacity) judged (λ bad. v)
              (λ some_token.
                IsValid-if_pair (not (is_accepted verdict)) (m, rejected_by_risk) noted (λ bad. v)
                  (λ yes_risk.
                    IsValid-if_pair (not named.1) (m, capacity) sent (λ bad. v)
                      (λ some_room.
                        let fits = not-true named.1 some_room in
                        IsValid-if_pair (not (gateway message)) (undone, gateway_busy) booked
                          (λ busy.
                            subst IsValid
                              (sym (taken_back (2 * length m.orders) m.next_token slot m fits)) v)
                          (λ yes_sent.
                            subst
                              (λ (ps : List (ℕ × ℕ)).
                                IsValid
                                  (book_replace slot price qty growth now message
                                    (record m { tokens = ps })).0)
                              (sym
                                (insert-room (2 * length m.orders) m.next_token slot m.tokens
                                  fits).0)
                              (book_replace-IsValid (held slot m) slot (held-IsValid m slot v h) h
                                (not-true _ lives) price qty growth now message
                                (ground (arith, sized)))))))))

pub replace-IsValid :
    (sources : Sources) (gateway : Gateway) (id : OrderId) (price : Price) (qty : Qty) (now : Nanos)
    (m : Manager)
    → IsValid m
    → IsValid (replace sources gateway id price qty now m).0
unfolding replace
replace-IsValid sources gateway id price qty now m v =
    on_found-IsValid _ m (find id m.by_id) v (λ slot is.
      replace_entry-IsValid sources gateway slot price qty now m v (id_slot m id slot v is))
