-- ===== src/Oms/CancelAll.antt =====
-- order_manager.hpp, cancel_all(): the walk ends, and it visits the working orders in id order.
use mathlib.Core.Path.{subst}
use opti_trade_engine.Prelude.{
  ℕ, zero, suc, ◌+◌, ◌-◌, ◌≤◌, ◌<◌, ◌≡◌, ◌≢◌, refl, sym, ◌∙◌, ap, true, false, ◌||◌, not, List, [],
  ◌∷◌, ◌==◌, ltb, arith, length, Bool-cases, inl, inr, All, All-imp,
}
use opti_trade_engine.Core.Types.{Nanos}
use opti_trade_engine.Ouch.Messages.{Inbound}
use opti_trade_engine.Oms.Types.{OrderId, Gateway, is_terminal}
use opti_trade_engine.Oms.State.{Entry, Manager, none_slot}
use opti_trade_engine.Oms.Manager.{entry_at, link_at}
use opti_trade_engine.Oms.Manager.Calls.{
  cancel_message, is_canceling, cancel_entry, sweep, cancel_all,
}
use opti_trade_engine.Oms.Ledger.{one, works}
use opti_trade_engine.Oms.Slots.Ring.{occurs}
use opti_trade_engine.Oms.Links.{Rising, id_at, next_at, outside}
use opti_trade_engine.Oms.Links.Chain.{Forwards, Distinct, without, tail-Distinct, head_once}
use opti_trade_engine.Oms.Links.Edit.{occurs-without, All-without}
use opti_trade_engine.Oms.Links.Keep.{distinct, real_slots}
use opti_trade_engine.Oms.Invariant.{IsValid}
use opti_trade_engine.Oms.Invariant.Changes.{cancel_entry-IsValid}
use opti_trade_engine.Oms.Sweep.{
  cancel_each, swept, Ready, All-on, cancel_entry-Canceled, cancel_each-entry,
}

-- A list of numbers below `n` that repeats none is no longer than `n`.
length-without : (s : ℕ) (is : List ℕ) → length (without s is) + occurs s is ≡ length is
unfolding occurs without
length-without s [] = refl
length-without s (i ∷ is) = elim (Bool-cases (i == s)) [
  | inl here ↦ rw here (ground (arith, here, length-without s is))
  | inr there ↦ rw there (ground (arith, there, length-without s is))
]

All-below : (n : ℕ) (is : List ℕ) → All (λ i. i < suc n) is → occurs n is ≡ 0 → All (λ i. i < n) is
unfolding occurs
All-below n [] a h = tt
All-below n (i ∷ is) a h = (ground (arith, a.0, h), All-below n is a.1 (omega (arith, h)))

few_slots : (n : ℕ) (is : List ℕ) → All (λ i. i < n) is → Distinct is → length is ≤ n
few_slots zero [] a d = omega arith
few_slots zero (i ∷ is) a d = absurd (omega (arith, a.0))
few_slots (suc n) is a d =
    let gone : occurs n (without n is) ≡ 0 = ground (arith, occurs-without n n is) in
    let fewer : length (without n is) ≤ n =
      few_slots n (without n is)
        (All-below n (without n is) (All-without (λ i. i < suc n) n is a) gone)
        (λ i. ground (arith, d i, occurs-without i n is)) in
    omega (arith, fewer, length-without n is, d n)

-- What the walk needs of the slots that it is still to visit.
abbrev OnWay : OrderId → Manager → ℕ → Type 0
OnWay last m i = (i ≢ none_slot) × (id_at m.orders i ≤ last)

sweep-cancel_each :
    (gateway : Gateway) (last : OrderId) (now : Nanos) (fuel slot : ℕ) (is : List ℕ) (m : Manager)
    → length is ≤ fuel
    → Forwards none_slot (next_at m.links) slot is
    → Distinct is
    → All (OnWay last m) is
    → sweep gateway last now fuel slot m ≡ cancel_each gateway now is m
unfolding sweep cancel_each
sweep-cancel_each gateway last now zero slot [] m enough f d a = refl
sweep-cancel_each gateway last now zero slot (i ∷ is) m enough f d a =
    absurd (omega (arith, enough))
sweep-cancel_each gateway last now (suc fuel) slot [] m enough f d a =
    let over : (slot == none_slot || ltb last (entry_at m slot).info.id) ≡ true =
      ground (arith, f) in
    rw over refl
sweep-cancel_each gateway last now (suc fuel) slot (i ∷ is) m enough f d a =
    let c = cancel_entry-Canceled gateway slot now m in
    let m' = (cancel_entry gateway slot now m).0 in
    let on : (slot == none_slot || ltb last (entry_at m slot).info.id) ≡ false =
      ground (arith, f.0, a.0) in
    let way : All (OnWay last m') is =
      All-on (OnWay last m) (OnWay last m') is
        (λ j k w.
          let other : slot ≢ j = ground (arith, f.0, head_once i is d) in
          (w.0, subst (λ (e : Entry). e.info.id ≤ last) (sym (c.others j other)) w.1))
        a.1 in
    let links : Forwards none_slot (next_at m'.links) (link_at m.links slot).next is =
      subst (λ ls. Forwards none_slot (next_at ls) (next_at m.links slot) is) (sym c.links)
        (rw f.0 f.1) in
    let ih =
      sweep-cancel_each gateway last now fuel (link_at m.links slot).next is m'
        (omega (arith, enough)) links (tail-Distinct i is d) way in
    let all_from : ℕ → Manager × ℕ = λ k. cancel_each gateway now (k ∷ is) m in
    rw (on, ih) (ap all_from f.0)

above : (f : ℕ → ℕ) (low high : ℕ) (is : List ℕ) → Rising f low high is → low < high
above f low high [] r = r
above f low high (i ∷ is) r = omega (arith, r.0, above f (f i) high is r.1)

Rising-le :
    (f : ℕ → ℕ) (low high : ℕ) (is : List ℕ) → Rising f low high is → All (λ i. f i < high) is
Rising-le f low high [] r = tt
Rising-le f low high (i ∷ is) r = (above f (f i) high is r.1, Rising-le f (f i) high is r.1)

All-both {ℓ κ} :
    (P : ℕ → Type ℓ) (Q : ℕ → Type κ) (is : List ℕ) → All P is → All Q is → All (λ i. P i × Q i) is
All-both P Q [] a b = tt
All-both P Q (i ∷ is) a b = ((a.0, b.0), All-both P Q is a.1 b.1)

-- The walk of cancel_all() over the links ends within the length of the table, and is a cancel of each
-- working order once, in the order of the ids.
pub cancel_all-each :
    (gateway : Gateway) (now : Nanos) (m : Manager) (v : IsValid m)
    → cancel_all gateway now m ≡ cancel_each gateway now v.list.working m
unfolding cancel_all
cancel_all-each gateway now m v =
    let l = v.list in
    let d = distinct _ _ _ _ _ l in
    let ids : All (λ i. id_at m.orders i ≤ m.next_id - 1) l.working =
      All-imp (λ i. id_at m.orders i < m.next_id) (λ i. id_at m.orders i ≤ m.next_id - 1)
        (λ i k. omega (arith, k)) l.working
        (Rising-le (id_at m.orders) 0 m.next_id l.working l.rising) in
    sweep-cancel_each gateway (m.next_id - 1) now (length m.orders) m.head l.working m
      (few_slots (length m.orders) l.working l.inside d) l.forwards d
      (All-both (λ i. i ≢ none_slot) (λ i. id_at m.orders i ≤ m.next_id - 1) l.working
        (real_slots _ _ _ _ _ l) ids)

one-works : (e : Entry) → one e ≡ 1 → works e ≡ true
one-works e h = ground (arith, h)

in_use : (m : Manager) → IsValid m → (j : ℕ) → works (entry_at m j) ≡ true → j < m.fresh
in_use m v j busy = elim (Bool-cases (ltb j m.fresh)) [
  | inl used ↦ ground arith
  | inr unused ↦ absurd (ground (arith, busy, v.slots.unused j (ground arith)))
]

working-Ready : (m : Manager) (v : IsValid m) → All (Ready m) v.list.working
working-Ready m v =
    All-on (λ j. j < length m.orders) (Ready m) v.list.working
      (λ j k below. (below, one-works (entry_at m j) (ground (arith, v.list.once j below, k))))
      v.list.inside

-- After cancel_all() each entry is the one before, but for a working order without a cancel in flight
-- whose cancel the gateway takes: that one waits for its cancel.
pub cancel_all-entry :
    (gateway : Gateway) (now : Nanos) (m : Manager) (i : ℕ)
    → IsValid m
    → entry_at (cancel_all gateway now m).0 i ≡ swept gateway now (entry_at m i)
unfolding swept
cancel_all-entry gateway now m i v =
    let l = v.list in
    let ready = working-Ready m v in
    let done = cancel_each-entry gateway now l.working m i (distinct _ _ _ _ _ l) ready in
    ap (λ (r : Manager × ℕ). entry_at r.0 i) (cancel_all-each gateway now m v)
    ∙ done
    ∙ elim (Bool-cases (works (entry_at m i))) [
      | inl busy ↦
          let below : i < length m.orders = omega (arith, in_use m v i busy, v.slots.few) in
          let there : (occurs i l.working == 0) ≡ false = ground (arith, l.once i below, busy) in
          rw there refl
      | inr idle ↦
          let out : (occurs i l.working == 0) ≡ true =
            ground (arith, l.once i, outside (length m.orders) i l.working l.inside, idle) in
          rw (out, idle) refl
    ]

cancel_each-count :
    (gateway : Gateway) (now : Nanos) (slots : List ℕ) (m : Manager)
    → let r = cancel_each gateway now slots m in r.1 + length m.sent ≡ length r.0.sent
unfolding cancel_each
cancel_each-count gateway now [] m = omega arith
cancel_each-count gateway now (s ∷ slots) m =
    let c = (cancel_entry-Canceled gateway s now m).count in
    let ih = cancel_each-count gateway now slots (cancel_entry gateway s now m).0 in
    omega (arith, c, ih)

-- cancel_all() returns the number of cancels that the gateway took.
pub cancel_all-count :
    (gateway : Gateway) (now : Nanos) (m : Manager)
    → IsValid m
    → let r = cancel_all gateway now m in r.1 + length m.sent ≡ length r.0.sent
cancel_all-count gateway now m v =
    subst (λ (r : Manager × ℕ). r.1 + length m.sent ≡ length r.0.sent)
      (sym (cancel_all-each gateway now m v)) (cancel_each-count gateway now v.list.working m)

cancel_each-IsValid :
    (gateway : Gateway) (now : Nanos) (slots : List ℕ) (m : Manager)
    → IsValid m
    → All (λ s. s < m.fresh) slots
    → IsValid (cancel_each gateway now slots m).0
unfolding cancel_each
cancel_each-IsValid gateway now [] m v a = v
cancel_each-IsValid gateway now (s ∷ slots) m v a =
    let fresh = (cancel_entry-Canceled gateway s now m).fresh in
    cancel_each-IsValid gateway now slots (cancel_entry gateway s now m).0
      (cancel_entry-IsValid gateway s now m v a.0) (rw fresh a.1)

pub cancel_all-IsValid :
    (gateway : Gateway) (now : Nanos) (m : Manager)
    → IsValid m
    → IsValid (cancel_all gateway now m).0
cancel_all-IsValid gateway now m v =
    let l = v.list in
    let used : All (λ j. j < m.fresh) l.working =
      All-on (λ j. j < length m.orders) (λ j. j < m.fresh) l.working
        (λ j k below. in_use m v j (one-works (entry_at m j) (ground (arith, l.once j below, k))))
        l.inside in
    subst (λ (r : Manager × ℕ). IsValid r.0) (sym (cancel_all-each gateway now m v))
      (cancel_each-IsValid gateway now l.working m v used)

-- The entry of an order whose cancel is in flight.
abbrev Canceling : Manager → ℕ → Type 0
Canceling m i = is_canceling (entry_at m i).info.status ≡ true

-- Such an order is not canceled again.
cancel_each-none :
    (gateway : Gateway) (now : Nanos) (slots : List ℕ) (m : Manager)
    → All (Canceling m) slots
    → cancel_each gateway now slots m ≡ (m, 0)
unfolding cancel_each cancel_entry
cancel_each-none gateway now [] m a = refl
cancel_each-none gateway now (s ∷ slots) m a =
    let status = (entry_at m s).info.status in
    let over : (is_terminal status || is_canceling status) ≡ true = ground (arith, a.0) in
    rw over (rw (cancel_each-none gateway now slots m a.1) refl)

-- With a gateway that takes every message, after cancel_all() on a valid order manager each working
-- order waits for its cancel, and a second cancel_all(), at any time and with any gateway, sends
-- nothing, changes nothing and returns 0.
pub cancel_all_complete :
    (gateway gateway' : Gateway) (now now' : Nanos) (m : Manager)
    → IsValid m
    → ((message : Inbound) → gateway message ≡ true)
    → let m' = (cancel_all gateway now m).0 in
      ((i : ℕ) → (not (works (entry_at m' i)) || is_canceling (entry_at m' i).info.status) ≡ true)
      × (cancel_all gateway' now' m' ≡ (m', 0))
unfolding swept
cancel_all_complete gateway gateway' now now' m v takes =
    let m' = (cancel_all gateway now m).0 in
    let waits : (i : ℕ)
        → (not (works (entry_at m' i)) || is_canceling (entry_at m' i).info.status) ≡ true =
      λ i.
        let e = entry_at m i in
        let taken = takes (cancel_message e) in
        let after : (not (works (swept gateway now e))
              || is_canceling (swept gateway now e).info.status)
            ≡ true =
          ground (arith, taken) in
        ap (λ (x : Entry). not (works x) || is_canceling x.info.status)
          (cancel_all-entry gateway now m i v)
        ∙ after in
    let v' = cancel_all-IsValid gateway now m v in
    let canceling : All (Canceling m') v'.list.working =
      All-on (Ready m') (Canceling m') v'.list.working (λ j k r. ground (arith, r.1, waits j))
        (working-Ready m' v') in
    (
      waits,
      cancel_all-each gateway' now' m' v'
          ∙ cancel_each-none gateway' now' v'.list.working m' canceling,
    )
