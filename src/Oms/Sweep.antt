-- ===== src/Oms/Sweep.antt =====
-- order_manager.hpp, cancel_all(): a cancel for each of a list of slots.
use mathlib.Core.Path.{subst}
use opti_trade_engine.Prelude.{
  ℕ, ◌+◌, ◌<◌, ◌≡◌, ◌≢◌, refl, ◌∙◌, ap, true, false, ◌||◌, not, List, [], ◌∷◌, ◌==◌, if◌then◌else◌,
  arith, length, length-set, get_or-set_ne, get_or-set_self, Bool-cases, inl, inr, All, at_if,
}
use opti_trade_engine.Core.Types.{Nanos}
use opti_trade_engine.Oms.Types.{
  is_terminal, pending_cancel, SubmitStatus, ok, bad_state, gateway_busy, Gateway,
}
use opti_trade_engine.Oms.State.{Entry, Manager, blank_entry}
use opti_trade_engine.Oms.Manager.{entry_at, put, notify}
use opti_trade_engine.Oms.Manager.Calls.{cancel_message, is_canceling, is_ok, cancel_entry}
use opti_trade_engine.Oms.Ledger.{works}
use opti_trade_engine.Oms.Slots.Ring.{occurs}
use opti_trade_engine.Oms.Links.Chain.{Distinct, tail-Distinct, head_once}

-- A cancel for each of the given slots in turn, with the number that the gateway took.
unfoldable pub cancel_each : Gateway → Nanos → List ℕ → Manager → Manager × ℕ
unfolding cancel_entry
cancel_each gateway now [] m = (m, 0)
cancel_each gateway now (slot ∷ slots) m =
    let (m', status) = cancel_entry gateway slot now m in
    let rest = cancel_each gateway now slots m' in
    (rest.0, (if is_ok status then 1 else 0) + rest.1)

-- An entry after a cancel of its order.
unfoldable pub swept : Gateway → Nanos → Entry → Entry
swept gateway now e =
    if not (works e) || is_canceling e.info.status || not (gateway (cancel_message e))
    then e
    else record e { info = record e.info { status = pending_cancel; last_update = now } }

-- What one cancel does to the table, and what it leaves alone.
pub record Canceled (gateway : Gateway) (slot : ℕ) (now : Nanos) (m : Manager)
    (r : Manager × SubmitStatus) : Type 0 where
  pub links : r.0.links ≡ m.links
  pub size : length r.0.orders ≡ length m.orders
  pub fresh : r.0.fresh ≡ m.fresh
  pub others : (i : ℕ) → slot ≢ i → entry_at r.0 i ≡ entry_at m i
  pub own :
      slot < length m.orders
      → works (entry_at m slot) ≡ true
      → entry_at r.0 slot ≡ swept gateway now (entry_at m slot)
  pub count : (if is_ok r.1 then 1 else 0) + length m.sent ≡ length r.0.sent

module _ (gateway : Gateway) (slot : ℕ) (now : Nanos) (m : Manager) where
  no_cancel :
      (status : SubmitStatus)
      → is_ok status ≡ false
      → (works (entry_at m slot) ≡ true → entry_at m slot ≡ swept gateway now (entry_at m slot))
      → Canceled gateway slot now m (m, status)
  no_cancel status bad own = record {
    links = refl;
    size = refl;
    fresh = refl;
    others = λ i h. refl;
    own = λ h. own;
    count = rw bad (omega arith);
  }

  told-Canceled :
      (t : Manager)
      → Canceled gateway slot now m (t, ok)
      → Canceled gateway slot now m (notify slot t, ok)
  told-Canceled t c =
      at_if (λ (x : Manager). Canceled gateway slot now m (x, ok)) t.has_listener _ t
        (λ h. record {
          links = c.links;
          size = c.size;
          fresh = c.fresh;
          others = c.others;
          own = c.own;
          count = c.count;
        })
        (λ h. c)

  pub cancel_entry-Canceled : Canceled gateway slot now m (cancel_entry gateway slot now m)
  unfolding cancel_entry swept
  cancel_entry-Canceled =
      let e = entry_at m slot in
      let canceling : Entry = record e {
        info = record e.info { status = pending_cancel; last_update = now };
      } in
      let done = notify slot (put slot canceling (record m { sent = cancel_message e ∷ m.sent })) in
      at_if (Canceled gateway slot now m) (is_terminal e.info.status || is_canceling e.info.status)
        (m, bad_state) (if not (gateway (cancel_message e)) then (m, gateway_busy) else (done, ok))
        (λ over. no_cancel bad_state refl (λ w.
          let t : (not (works e) || is_canceling e.info.status || not (gateway (cancel_message e)))
              ≡ true =
            ground (arith, over, w) in
          rw t refl))
        (λ clear.
          at_if (Canceled gateway slot now m) (not (gateway (cancel_message e))) (m, gateway_busy)
            (done, ok)
            (λ busy. no_cancel gateway_busy refl (λ w.
              let t : (not (works e)
                    || is_canceling e.info.status
                    || not (gateway (cancel_message e)))
                  ≡ true =
                ground (arith, busy) in
              rw t refl))
            (λ sent.
              told-Canceled (put slot canceling (record m { sent = cancel_message e ∷ m.sent }))
                record {
                  links = refl;
                  size = length-set m.orders slot canceling;
                  fresh = refl;
                  others = λ i h. get_or-set_ne m.orders slot i canceling blank_entry h;
                  own = λ h w.
                      let t : (not (works e)
                            || is_canceling e.info.status
                            || not (gateway (cancel_message e)))
                          ≡ false =
                        ground (arith, clear, sent, w) in
                      get_or-set_self m.orders slot canceling blank_entry h ∙ rw t refl;
                  count = omega arith;
                }))

abbrev pub Ready : Manager → ℕ → Type 0
Ready m s = (s < length m.orders) × (works (entry_at m s) ≡ true)

pub All-on {ℓ κ} :
    (P : ℕ → Type ℓ) (Q : ℕ → Type κ) (is : List ℕ)
    → ((i : ℕ) → 0 < occurs i is → P i → Q i)
    → All P is
    → All Q is
unfolding occurs
All-on P Q [] f a = tt
All-on P Q (i ∷ is) f a =
    (f i (ground arith) a.0, All-on P Q is (λ j m. f j (omega (arith, m))) a.1)

pub still-Ready :
    (gateway : Gateway) (now : Nanos) (s : ℕ) (slots : List ℕ) (m : Manager)
    → Distinct (s ∷ slots)
    → All (Ready m) slots
    → All (Ready (cancel_entry gateway s now m).0) slots
still-Ready gateway now s slots m d a =
    let c = cancel_entry-Canceled gateway s now m in
    All-on (Ready m) (Ready (cancel_entry gateway s now m).0) slots
      (λ i k r.
        let other : s ≢ i = ground (arith, head_once s slots d) in
        let same = c.others i other in (omega (arith, r.0, c.size), ap works same ∙ r.1))
      a

-- The cancels of slots that no slot repeats, each of an order that works.
pub cancel_each-entry :
    (gateway : Gateway) (now : Nanos) (slots : List ℕ) (m : Manager) (i : ℕ)
    → Distinct slots
    → All (Ready m) slots
    → entry_at (cancel_each gateway now slots m).0 i
      ≡ (if occurs i slots == 0 then entry_at m i else swept gateway now (entry_at m i))
unfolding cancel_each occurs
cancel_each-entry gateway now [] m i d a = refl
cancel_each-entry gateway now (s ∷ slots) m i d a =
    let c = cancel_entry-Canceled gateway s now m in
    let m' = (cancel_entry gateway s now m).0 in
    let once : occurs s slots ≡ 0 = head_once s slots d in
    let ih =
      cancel_each-entry gateway now slots m' i (tail-Distinct s slots d)
        (still-Ready gateway now s slots m d a.1) in
    elim (Bool-cases (i == s)) [
      | inl here ↦
          let is : s ≡ i = ground arith in
          let none_left : (occurs i slots == 0) ≡ true =
            ground (arith, once, ap (λ (k : ℕ). occurs k slots) is) in
          let some : (occurs i (s ∷ slots) == 0) ≡ false = ground (arith, here) in
          rw some (
            rw none_left at ih
            ∙ subst (λ (k : ℕ). entry_at m' k ≡ swept gateway now (entry_at m k)) is
                (c.own a.0.0 a.0.1))
      | inr there ↦
          let same : entry_at m' i ≡ entry_at m i = c.others i (ground (arith, there)) in
          let kept : (occurs i (s ∷ slots) == 0) ≡ (occurs i slots == 0) = ground (arith, there) in
          rw kept (rw same at ih)
    ]
