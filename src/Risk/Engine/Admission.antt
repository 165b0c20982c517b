-- ===== src/Risk/Engine/Admission.antt =====
-- The limits of risk_engine.hpp across two calls: an order that `evaluate` accepts and that
-- `on_order_open` books leaves the instrument and the engine within the limits, or no further out
-- than they were.
use opti_trade_engine.Prelude.{
  ℕ, ◌+◌, ◌<◌, ◌≡◌, refl, ◌∙◌, false, arith, length, Bool-cases, inl, inr, ◌⊎◌, ◌==◌, ◌||◌,
  get_or-set_self,
}
use opti_trade_engine.Prelude.Int.{ℤ, pos, ◌+ℤ◌, ◌-ℤ◌, ◌≤ℤ◌, int_laws, max_ℤ}
use opti_trade_engine.Core.Types.{Price, Qty, Locate, Nanos, Side, buy, sell, opposite, u32_max}
use opti_trade_engine.Risk.Types.{
  Slot, accepted, empty_slot, open_of, count_of, set_open, set_count, clamp64, clamp64_le,
  magnitude, magnitude_nonneg,
}
use opti_trade_engine.Risk.Engine.{
  Engine, slot_at, off_table, leg, refresh, count_open, on_order_open, evaluate, gross_after,
  exposure_of,
}
use opti_trade_engine.Risk.Engine.Ledger.{IsSound, IsOpen, cell_at, open_nonneg}
use opti_trade_engine.Risk.Engine.Verdict.{assess-Passes, leg-set_open, between, max_ℤ_parts}

-- The slot with the working quantity that an open books.
abbrev booked : Slot → Side → Qty → Slot
booked s side qty = set_open side (clamp64 (open_of side s +ℤ pos qty)) s

leg-refresh :
    (r : Engine) (l : Locate) (s : Slot) (d : Side) (x : ℤ)
    → l < length r.slots
    → leg (slot_at (refresh r l s) l) d x ≡ leg s d x
unfolding refresh leg
leg-refresh r l s buy x inside = rw (get_or-set_self r.slots l _ empty_slot inside)
leg-refresh r l s sell x inside = rw (get_or-set_self r.slots l _ empty_slot inside)

leg-set_count :
    (s : Slot) (side d : Side) (n : ℕ) (x : ℤ) → leg (set_count side n s) d x ≡ leg s d x
unfolding leg
leg-set_count s buy buy n x = refl
leg-set_count s buy sell n x = refl
leg-set_count s sell buy n x = refl
leg-set_count s sell sell n x = refl

set_count_exposure :
    (s : Slot) (side : Side) (n : ℕ)
    → (exposure_of (set_count side n s) ≡ exposure_of s)
      × ((set_count side n s).exposure ≡ s.exposure)
unfolding exposure_of leg
set_count_exposure s buy n = (refl, refl)
set_count_exposure s sell n = (refl, refl)

booked_exposure : (s : Slot) (side : Side) (qty : Qty) → (booked s side qty).exposure ≡ s.exposure
booked_exposure s buy qty = refl
booked_exposure s sell qty = refl

booked_held : (s : Slot) (side : Side) (qty : Qty) → (booked s side qty).held ≡ s.held
booked_held s buy qty = refl
booked_held s sell qty = refl

module _ (r : Engine) (l : Locate) (side : Side) where
  leg-count_open :
      (s : Slot) (d : Side) (x : ℤ)
      → l < length r.slots
      → leg (slot_at (count_open r l side s) l) d x ≡ leg s d x
  unfolding count_open
  leg-count_open s d x inside = elim (Bool-cases (count_of side s == u32_max)) [
    | inl full ↦ rw full (leg-refresh r l s d x inside)
    | inr room ↦ rw room (leg-refresh _ l _ d x inside ∙ leg-set_count s side d _ x)
  ]

  count_open_gross :
      (s : Slot) → (count_open r l side s).gross ≡ r.gross +ℤ (exposure_of s -ℤ s.exposure)
  unfolding count_open refresh
  count_open_gross s = elim (Bool-cases (count_of side s == u32_max)) [
    | inl full ↦ rw full
    | inr room ↦ rw (
      room,
      (set_count_exposure s side (count_of side s + 1)).0,
      (set_count_exposure s side (count_of side s + 1)).1,
    )
  ]

further :
    (x y m q : ℤ) (n : ℕ)
    → (x ≤ℤ y) ⊎ (x ≤ℤ q)
    → (n ≡ 0) ⊎ (y ≤ℤ m) ⊎ (y ≤ℤ q)
    → 0 < n
    → (x ≤ℤ m) ⊎ (x ≤ℤ q)
further x y m q n a b c = ground arith

-- The position lies between the two legs, so it is not further out than both.
held_between :
    (p y z : ℤ)
    → ((z ≤ℤ p) × (p ≤ℤ y)) ⊎ ((y ≤ℤ p) × (p ≤ℤ z))
    → (magnitude p ≤ℤ magnitude y) ⊎ (magnitude p ≤ℤ magnitude z)
unfolding magnitude
held_between p y z h = ground arith

legs_around :
    (s : Slot) (side : Side) (qty : Qty)
    → IsOpen s
    → let y = leg s side (pos qty) in
      let z = leg s (opposite side) (pos 0) in
      ((z ≤ℤ s.held.qty) × (s.held.qty ≤ℤ y)) ⊎ ((y ≤ℤ s.held.qty) × (s.held.qty ≤ℤ z))
unfolding leg opposite
legs_around s buy qty o = inl (omega int_laws, omega int_laws)
legs_around s sell qty o = inr (omega int_laws, omega int_laws)

exposure_bound :
    (x y z p : ℤ)
    → (x ≤ℤ y) ⊎ (x ≤ℤ p)
    → (p ≤ℤ y) ⊎ (p ≤ℤ z)
    → (max_ℤ x z ≤ℤ max_ℤ y z) × (max_ℤ z x ≤ℤ max_ℤ y z)
unfolding max_ℤ
exposure_bound x y z p a b = (ground arith, ground arith)

clamped_max : (x y m : ℤ) → pos 0 ≤ℤ x → max_ℤ x y ≤ℤ m → clamp64 (max_ℤ x y) ≤ℤ m
clamped_max x y m h k = omega (arith, clamp64_le (max_ℤ x y) (nonneg x y h), k)
  where
    nonneg : (x y : ℤ) → pos 0 ≤ℤ x → pos 0 ≤ℤ max_ℤ x y
    nonneg x y h = omega (arith, (max_ℤ_parts x y).0)

-- The exposure of the booked slot is at most what the gross check reckoned with.
booked_bound :
    (s : Slot) (side : Side) (qty : Qty)
    → IsOpen s
    → exposure_of (booked s side qty)
      ≤ℤ max_ℤ (magnitude (leg s side (pos qty))) (magnitude (leg s (opposite side) (pos 0)))
unfolding exposure_of opposite leg
booked_bound s buy qty o =
    let b = booked s buy qty in
    let x = leg b buy (pos 0) in
    let limits =
      exposure_bound (magnitude x) _ (magnitude (leg b sell (pos 0))) _
        (between s.held.qty x (leg s buy (pos qty)) (leg-set_open s buy qty o.buys))
        (held_between s.held.qty _ _ (legs_around s buy qty o)) in
    clamped_max (magnitude x) _ _ (magnitude_nonneg x) limits.0
booked_bound s sell qty o =
    let b = booked s sell qty in
    let x = leg b sell (pos 0) in
    let z = leg b buy (pos 0) in
    let limits =
      exposure_bound (magnitude x) _ (magnitude z) _
        (between s.held.qty x (leg s sell (pos qty)) (leg-set_open s sell qty o.sells))
        (held_between s.held.qty _ _ (legs_around s sell qty o)) in
    clamped_max (magnitude z) _ _ (magnitude_nonneg z) limits.1

further_gross :
    (x y m g : ℤ) (n : ℕ)
    → x ≤ℤ y
    → (n ≡ 0) ⊎ (m ≤ℤ pos 0) ⊎ (y ≤ℤ m) ⊎ (y ≤ℤ g)
    → 0 < n
    → (m ≤ℤ pos 0) ⊎ (x ≤ℤ m) ⊎ (x ≤ℤ g)
further_gross x y m g n a b c = ground arith

reckoned :
    (r : Engine) (s : Slot) (side : Side) (qty : Qty) (e : ℤ)
    → e ≤ℤ max_ℤ (magnitude (leg s side (pos qty))) (magnitude (leg s (opposite side) (pos 0)))
    → r.gross +ℤ (e -ℤ s.exposure) ≤ℤ gross_after r s side qty
unfolding gross_after
reckoned r s side qty e h = omega (int_laws, h)

-- The leg on the order's side, once it is booked, is within the position limit, or no further out
-- than the position itself: an accepted order cannot take the instrument over the limit.
pub evaluate-position :
    (r : Engine) (l : Locate) (side : Side) (price : Price) (qty : Qty) (reference : Price)
    (now : Nanos)
    → IsSound r
    → evaluate r l side price qty reference now ≡ accepted
    → let after = magnitude (leg (slot_at (on_order_open r l side qty) l) side (pos 0)) in
      (after ≤ℤ r.limits.max_position) ⊎ (after ≤ℤ magnitude (slot_at r l).held.qty)
unfolding evaluate on_order_open
evaluate-position r l side price qty reference now v h =
    let p = assess-Passes r l side price qty qty false reference now h in
    let goes_on : (off_table r l || qty == 0) ≡ false = ground (arith, p.on_table, p.some_qty) in
    let s = slot_at r l in
    let bounds =
      leg-set_open s side qty (open_nonneg side s (cell_at r l v p.on_table).working_ok) in
    rw (goes_on, leg-count_open r l side (booked s side qty) side (pos 0) p.on_table)
      (further (magnitude (leg (booked s side qty) side (pos 0))) (magnitude (leg s side (pos qty)))
        r.limits.max_position (magnitude s.held.qty) qty
        (between s.held.qty (leg (booked s side qty) side (pos 0)) (leg s side (pos qty)) bounds)
        p.position p.some_qty)

-- Nor can it take the gross exposure over its limit, or further over it.
pub evaluate-gross :
    (r : Engine) (l : Locate) (side : Side) (price : Price) (qty : Qty) (reference : Price)
    (now : Nanos)
    → IsSound r
    → evaluate r l side price qty reference now ≡ accepted
    → let after = (on_order_open r l side qty).gross in
      (r.limits.max_gross_position ≤ℤ pos 0)
      ⊎ (after ≤ℤ r.limits.max_gross_position)
      ⊎ (after ≤ℤ r.gross)
unfolding evaluate on_order_open
evaluate-gross r l side price qty reference now v h =
    let p = assess-Passes r l side price qty qty false reference now h in
    let goes_on : (off_table r l || qty == 0) ≡ false = ground (arith, p.on_table, p.some_qty) in
    let s = slot_at r l in
    let b = booked s side qty in
    let limit = gross_after r s side qty in
    let bound = booked_bound s side qty (cell_at r l v p.on_table).working_ok in
    rw (goes_on, count_open_gross r l side b, booked_exposure s side qty)
      (further_gross (r.gross +ℤ (exposure_of b -ℤ s.exposure)) limit r.limits.max_gross_position
        r.gross qty (reckoned r s side qty (exposure_of b) bound) p.gross p.some_qty)
