-- ===== src/Oms/Finality.antt =====
-- order_manager.hpp, the handlers of reports and the entries that they may write to.
use opti_trade_engine.Prelude.{
  ℕ, ◌-◌, ◌≡◌, ◌≢◌, refl, ◌∙◌, ap, Bool, true, ◌&&◌, ◌||◌, not, Option, none, some, ◌∷◌, min, ◌==◌,
  if◌then◌else◌, ltb, get_or, set, get_or-set_ne, at_if, Bool-cases, inl, inr, arith,
}
use opti_trade_engine.Core.Types.{Nanos}
use opti_trade_engine.Core.Table.{find, erase}
use opti_trade_engine.Ouch.Messages as Messages
use opti_trade_engine.Ouch.Messages.{Token, Executed, Canceled, Rejected, Replaced, Outbound}
use opti_trade_engine.Risk.Engine.{on_fill}
use opti_trade_engine.Oms.Types.{
  OrderInfo, OrderStatus, Notice, on_order_update, is_terminal, rejected, filled,
}
use opti_trade_engine.Oms.State.{Entry, Manager, blank_entry}
use opti_trade_engine.Oms.Manager.{
  Match, entry_at, put, tell, notify, end_of_life, unlink, sync_ledger, drop_replacement, resolve,
  resolved, active, invalid, clamped_if, outcome_of, seen_match,
}
use opti_trade_engine.Oms.Manager.Reports.{
  accept, on_accepted, accepted_entry, confirmed, executed_entry, execute, on_executed, no_fact,
  tell_fill, tell_update, fill_notice, keep_working, canceled_entry, cancel_shares, on_canceled,
  give_reason, live_again, reject, on_rejected, replaced_entry, resumed, swap_token, bad_replaced,
  on_replaced, on_report,
}

-- The second state has the entries of the first, but for one slot.
record Only (slot : ℕ) (m m' : Manager) : Type 0 where
  same : (i : ℕ) → slot ≢ i → entry_at m' i ≡ entry_at m i

all_same : (slot : ℕ) (m m' : Manager) → m'.orders ≡ m.orders → Only slot m m'
all_same slot m m' e = record { same = λ i h. ap (λ os. get_or os i blank_entry) e }

set-Only :
    (slot : ℕ) (m m' t : Manager) (e : Entry)
    → Only slot m m'
    → t.orders ≡ set m'.orders slot e
    → Only slot m t
set-Only slot m m' t e o is = record {
  same = λ i h.
      ap (λ os. get_or os i blank_entry) is
      ∙ get_or-set_ne m'.orders slot i e blank_entry h
      ∙ o.same i h;
}

tell-Only : (slot : ℕ) (n : Notice) (m m' : Manager) → Only slot m m' → Only slot m (tell n m')
tell-Only slot n m m' o =
    at_if (Only slot m) m'.has_listener (record m' { heard = n ∷ m'.heard }) m'
      (λ h. record { same = o.same }) (λ h. o)

end-Only :
    (slot : ℕ) (e : Entry) (outcome : OrderStatus) (m m' : Manager)
    → Only slot m m'
    → Only slot m (end_of_life slot e outcome m')
unfolding end_of_life unlink
end-Only slot e outcome m m' o = set-Only slot m m' _ _ o refl

sync-Only :
    (slot : ℕ) (e : Entry) (m m' : Manager) → Only slot m m' → Only slot m (sync_ledger slot e m')
unfolding sync_ledger
sync-Only slot e m m' o = set-Only slot m m' _ _ o refl

-- A conditional of two states.
if-Only :
    (slot : ℕ) (b : Bool) (m x y : Manager)
    → Only slot m x
    → Only slot m y
    → Only slot m (if b then x else y)
if-Only slot b m x y o p = at_if (Only slot m) b x y (λ h. o) (λ h. p)

module _ (m : Manager) (slot : ℕ) (now : Nanos) where
  update-Only :
      (before : OrderInfo) (found : Option ℕ) (m' : Manager)
      → Only slot m m'
      → Only slot m (tell_update before found m')
  update-Only before none m' o = tell-Only slot (on_order_update before) m m' o
  update-Only before (some place) m' o =
      tell-Only slot (on_order_update (entry_at m' place).info) m m' o

  accept-Only : (a : Messages.Accepted) → Only slot m (accept slot a now m)
  unfolding accept
  accept-Only a =
      let e = accepted_entry (entry_at m slot) a now in
      let ended = end_of_life slot e (outcome_of e) m in
      let kept = put slot (confirmed e) m in
      if-Only slot _ m (invalid m) _ (all_same slot m _ refl) (
        tell-Only slot _ m _ (
          if-Only slot _ m ended kept (end-Only slot e _ m m (all_same slot m _ refl))
            (set-Only slot m m kept _ (all_same slot m m refl) refl)))

  execute-Only : (x : Executed) → Only slot m (execute slot x now m)
  unfolding execute
  execute-Only x =
      let e = entry_at m slot in
      let done = executed_entry e x now in
      let counted = clamped_if (ltb e.info.leaves_qty x.shares) m in
      let req = e.info.req in
      let filling : Manager = record counted {
        risk = on_fill m.risk req.locate req.side x.shares x.price;
      } in
      let ended = end_of_life slot done filled filling in
      let working = keep_working slot done filling in
      let booked = if done.info.leaves_qty == 0 then ended else working in
      let before = (entry_at booked slot).info in
      let told = tell (fill_notice x now before) booked in
      if-Only slot (no_fact e x || seen_match e x.match) m (invalid m) (tell_fill x now slot booked)
        (all_same slot m (invalid m) refl)
        (update-Only before (find before.id told.by_id) told (
          tell-Only slot (fill_notice x now before) m booked (
            if-Only slot (done.info.leaves_qty == 0) m ended working
              (end-Only slot done filled m filling (all_same slot m filling refl))
              (sync-Only slot (confirmed done) m filling (all_same slot m filling refl)))))

  cancel_shares-Only : (c : Canceled) → Only slot m (cancel_shares slot c now m)
  unfolding cancel_shares
  cancel_shares-Only c =
      let e = entry_at m slot in
      let qty = min c.decrement e.info.leaves_qty in
      let less = canceled_entry e c now in
      let counted = clamped_if (not (qty == c.decrement)) m in
      let ended = end_of_life slot less (outcome_of less) counted in
      let working = keep_working slot less counted in
      let booked = if less.info.leaves_qty == 0 then ended else working in
      if-Only slot (c.decrement == 0) m (invalid m) (notify slot booked)
        (all_same slot m (invalid m) refl)
        (tell-Only slot (on_order_update (entry_at booked slot).info) m booked (
          if-Only slot (less.info.leaves_qty == 0) m ended working
            (end-Only slot less (outcome_of less) m counted (all_same slot m counted refl))
            (sync-Only slot (confirmed less) m counted (all_same slot m counted refl))))

  swap_token-Only : (a : Messages.Accepted) → Only slot m (swap_token slot a now m)
  unfolding swap_token
  swap_token-Only a =
      let e = entry_at m slot in
      let swapped = replaced_entry e a now in
      let over = not (a.order_state == b'D') && ltb (e.replace_qty - e.info.cum_qty) a.shares in
      let counted = clamped_if over m in
      let erased : Manager = record counted { tokens = erase e.token m.tokens } in
      let ended = end_of_life slot swapped (outcome_of swapped) erased in
      let working = sync_ledger slot (resumed swapped) erased in
      let booked = if swapped.info.leaves_qty == 0 then ended else working in
      tell-Only slot (on_order_update (entry_at booked slot).info) m booked (
        if-Only slot (swapped.info.leaves_qty == 0) m ended working
          (end-Only slot swapped (outcome_of swapped) m erased (all_same slot m erased refl))
          (sync-Only slot (resumed swapped) m erased (all_same slot m erased refl)))

  give_reason-Only :
      (reason : ℕ) (m' : Manager) → Only slot m m' → Only slot m (give_reason slot reason now m')
  give_reason-Only reason m' o = set-Only slot m m' _ _ o refl

reject-Only :
    (m : Manager) (found : Match) (now : Nanos) (r : Rejected)
    → Only found.slot m (reject found r now m)
unfolding reject
reject-Only m found now r =
    let slot = found.slot in
    let e = entry_at m slot in
    let dropped = drop_replacement e m in
    let back = give_reason slot r.reason now (sync_ledger slot (live_again e) dropped) in
    let gone = give_reason slot r.reason now (end_of_life slot e rejected m) in
    let refused = if e.acked then invalid m else notify slot gone in
    if-Only slot found.replacement m (notify slot back) refused
      (tell-Only slot (on_order_update (entry_at back slot).info) m back (
        give_reason-Only m slot now r.reason _
          (sync-Only slot (live_again e) m dropped (all_same slot m dropped refl))))
      (if-Only slot e.acked m (invalid m) (notify slot gone) (all_same slot m (invalid m) refl) (
        tell-Only slot (on_order_update (entry_at gone slot).info) m gone (
          give_reason-Only m slot now r.reason _
            (end-Only slot e rejected m m (all_same slot m m refl)))))

-- The entry that a report cannot touch: it is finished.
module _ (m : Manager) (i : ℕ) (over : is_terminal (entry_at m i).info.status ≡ true) where
  resolved_final :
      (o : Option Match) (handle : Match → Manager)
      → ((found : Match) → Only found.slot m (handle found))
      → entry_at (resolved o m handle) i ≡ entry_at m i
  resolved_final none handle only = refl
  resolved_final (some found) handle only =
      elim (Bool-cases (is_terminal (entry_at m found.slot).info.status)) [
        | inl ended ↦ rw ended refl
        | inr working ↦
            let other : found.slot ≢ i = λ e.
              let same = ap (λ (k : ℕ). is_terminal (entry_at m k).info.status) e in
              ground (arith, same, over, working) in
            rw working ((only found).same i other)
      ]

  active_final :
      (t : Token) (handle : ℕ → Manager)
      → ((slot : ℕ) → Only slot m (handle slot))
      → entry_at (active t m handle) i ≡ entry_at m i
  unfolding active
  active_final t handle only = resolved_final (resolve t m) _ (λ found.
      if-Only found.slot found.replacement m (invalid m) (handle found.slot)
        (all_same found.slot m (invalid m) refl) (only found.slot))

-- A report leaves a finished order as it is, whatever the report says.
pub on_report-final :
    (x : Outbound) (now : Nanos) (m : Manager) (i : ℕ)
    → is_terminal (entry_at m i).info.status ≡ true
    → entry_at (on_report x now m) i ≡ entry_at m i
unfolding on_report on_accepted on_executed on_canceled on_rejected on_replaced
on_report-final (Messages.accepted a) now m i over =
    active_final m i over a.token _ (λ slot. accept-Only m slot now a)
on_report-final (Messages.executed x) now m i over =
    active_final m i over x.token _ (λ slot. execute-Only m slot now x)
on_report-final (Messages.canceled c) now m i over =
    active_final m i over c.token _ (λ slot. cancel_shares-Only m slot now c)
on_report-final (Messages.rejected r) now m i over =
    resolved_final m i over (resolve r.token m) _ (λ found. reject-Only m found now r)
on_report-final (Messages.replaced rp) now m i over =
    resolved_final m i over (resolve rp.a.token m) _ (λ found.
      if-Only found.slot (bad_replaced rp found m) m (invalid m) (swap_token found.slot rp.a now m)
        (all_same found.slot m (invalid m) refl) (swap_token-Only m found.slot now rp.a))
