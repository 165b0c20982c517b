-- ===== src/Risk/Engine/Verdict.antt =====
-- What a pre-trade verdict of risk_engine.hpp guarantees about the orders that it lets through.
use opti_trade_engine.Prelude.{
  ℕ, ◌+◌, ◌≤◌, ◌<◌, ◌≡◌, ◌≢◌, refl, Bool, true, false, arith, length, inl, inr, ◌⊎◌, ◌==◌, not,
  ◌&&◌, ◌||◌, leb, ltb,
}
use opti_trade_engine.Prelude.Int.{
  ℤ, pos, ◌+ℤ◌, ◌-ℤ◌, ◌*ℤ◌, ◌≤ℤ◌, ◌<ℤ◌, int_laws, leb_ℤ, ltb_ℤ, max_ℤ, pos_part, neg_part,
}
use opti_trade_engine.Core.Types.{Price, Qty, Locate, Nanos, Side, buy, sell, opposite}
use opti_trade_engine.Risk.Types.{
  Slot, Reject, accepted, kill_switch, invalid_order, order_qty, order_notional, position,
  gross_position, price_band, no_reference, rate_limit, open_orders, open_of, set_open, clamp64,
  clamp64_le, clamp64_nonneg, magnitude,
}
use opti_trade_engine.Risk.Engine.{
  Engine, slot_at, leg, assess, over_position, over_gross, gross_after, outside_band, rate_has_room,
  reject_if,
}

-- What an order of `qty` shares at `price`, adding `add` shares, meets when it is accepted.
pub record Passes (r : Engine) (l : Locate) (side : Side) (price : Price) (qty add : Qty)
    (replacing : Bool) (reference : Price) (now : Nanos) : Type 0 where
  pub running : (r.halted ≡ false) ⊎ ((replacing ≡ true) × (add ≡ 0))
  pub on_table : l < length r.slots
  pub some_qty : 0 < qty
  pub some_price : pos 0 <ℤ price
  pub size : qty ≤ r.limits.max_order_qty
  pub notional :
      (r.limits.max_order_notional ≤ℤ pos 0) ⊎ (price *ℤ pos qty ≤ℤ r.limits.max_order_notional)
  pub position :
      (add ≡ 0)
      ⊎ (magnitude (leg (slot_at r l) side (pos add)) ≤ℤ r.limits.max_position)
      ⊎ (magnitude (leg (slot_at r l) side (pos add)) ≤ℤ magnitude (slot_at r l).held.qty)
  pub gross :
      (add ≡ 0)
      ⊎ (r.limits.max_gross_position ≤ℤ pos 0)
      ⊎ (gross_after r (slot_at r l) side add ≤ℤ r.limits.max_gross_position)
      ⊎ (gross_after r (slot_at r l) side add ≤ℤ r.gross)
  pub band :
      (r.limits.price_band_bps ≡ 0)
      ⊎ ((reference ≤ℤ pos 0) × (r.limits.require_reference ≡ false))
      ⊎ (magnitude (price -ℤ reference) *ℤ pos 10000 ≤ℤ reference *ℤ pos r.limits.price_band_bps)
  pub rate_ok : (rate_has_room r.rate now ≡ true) ⊎ ((replacing ≡ true) × (add ≡ 0))
  pub orders :
      (replacing ≡ true)
      ⊎ (r.limits.max_open_orders ≡ 0)
      ⊎ (r.open_total < r.limits.max_open_orders)

-- A check that does not reject: its test is false, and the later ones accept.
peel :
    (b : Bool) (verdict rest : Reject)
    → reject_if b verdict rest ≡ accepted
    → verdict ≢ accepted
    → (b ≡ false) × (rest ≡ accepted)
peel true verdict rest h ne = absurd (ne h)
peel false verdict rest h ne = (refl, h)

-- The ten tests of an accepted order, each of which was false.
tests_false :
    (b₁ b₂ b₃ b₄ b₅ b₆ b₇ b₈ b₉ b₁₀ : Bool)
    → reject_if b₁ kill_switch (
        reject_if b₂ invalid_order (
          reject_if b₃ order_qty (
            reject_if b₄ order_notional (
              reject_if b₅ position (
                reject_if b₆ gross_position (
                  reject_if b₇ no_reference (
                    reject_if b₈ price_band
                      (reject_if b₉ rate_limit (reject_if b₁₀ open_orders accepted)))))))))
      ≡ accepted
    → (b₁ ≡ false)
      × (b₂ ≡ false)
      × (b₃ ≡ false)
      × (b₄ ≡ false)
      × (b₅ ≡ false)
      × (b₆ ≡ false)
      × (b₇ ≡ false)
      × (b₈ ≡ false)
      × (b₉ ≡ false)
      × (b₁₀ ≡ false)
tests_false b₁ b₂ b₃ b₄ b₅ b₆ b₇ b₈ b₉ b₁₀ h =
    let p₁ = peel b₁ _ _ h (λ e. cc) in
    let p₂ = peel b₂ _ _ p₁.1 (λ e. cc) in
    let p₃ = peel b₃ _ _ p₂.1 (λ e. cc) in
    let p₄ = peel b₄ _ _ p₃.1 (λ e. cc) in
    let p₅ = peel b₅ _ _ p₄.1 (λ e. cc) in
    let p₆ = peel b₆ _ _ p₅.1 (λ e. cc) in
    let p₇ = peel b₇ _ _ p₆.1 (λ e. cc) in
    let p₈ = peel b₈ _ _ p₇.1 (λ e. cc) in
    let p₉ = peel b₉ _ _ p₈.1 (λ e. cc) in
    let p₁₀ = peel b₁₀ _ _ p₉.1 (λ e. cc) in
    (p₁.0, p₂.0, p₃.0, p₄.0, p₅.0, p₆.0, p₇.0, p₈.0, p₉.0, p₁₀.0)

-- Each false test, read as the limit that it checks.
read_running :
    (halted replacing : Bool) (add : ℕ)
    → (halted && (not replacing || not (add == 0))) ≡ false
    → (halted ≡ false) ⊎ ((replacing ≡ true) × (add ≡ 0))
read_running halted replacing add h = ground arith

read_valid :
    (n l qty : ℕ) (price : ℤ)
    → (leb n l || qty == 0 || leb_ℤ price (pos 0)) ≡ false
    → (l < n) × (0 < qty) × (pos 0 <ℤ price)
read_valid n l qty price h = (ground arith, ground arith, ground arith)

read_size : (qty limit : ℕ) → ltb limit qty ≡ false → qty ≤ limit
read_size qty limit h = ground arith

read_notional : (m v : ℤ) → (ltb_ℤ (pos 0) m && ltb_ℤ m v) ≡ false → (m ≤ℤ pos 0) ⊎ (v ≤ℤ m)
read_notional m v h = ground arith

read_position :
    (add : ℕ) (m x p : ℤ)
    → (not (add == 0) && (ltb_ℤ m x && ltb_ℤ p x)) ≡ false
    → (add ≡ 0) ⊎ (x ≤ℤ m) ⊎ (x ≤ℤ p)
read_position add m x p h = ground arith

read_gross :
    (add : ℕ) (m x g : ℤ)
    → (not (add == 0) && (ltb_ℤ (pos 0) m && ltb_ℤ m x && ltb_ℤ g x)) ≡ false
    → (add ≡ 0) ⊎ (m ≤ℤ pos 0) ⊎ (x ≤ℤ m) ⊎ (x ≤ℤ g)
read_gross add m x g h = ground arith

read_band :
    (bps : ℕ) (reference x y : ℤ) (required : Bool)
    → (not (bps == 0) && leb_ℤ reference (pos 0) && required) ≡ false
    → (not (bps == 0) && not (leb_ℤ reference (pos 0)) && ltb_ℤ y x) ≡ false
    → (bps ≡ 0) ⊎ ((reference ≤ℤ pos 0) × (required ≡ false)) ⊎ (x ≤ℤ y)
read_band bps reference x y required h k = ground arith

read_rate :
    (replacing room : Bool) (add : ℕ)
    → ((not replacing || not (add == 0)) && not room) ≡ false
    → (room ≡ true) ⊎ ((replacing ≡ true) × (add ≡ 0))
read_rate replacing room add h = ground arith

read_orders :
    (replacing : Bool) (limit count : ℕ)
    → (not replacing && not (limit == 0) && leb limit count) ≡ false
    → (replacing ≡ true) ⊎ (limit ≡ 0) ⊎ (count < limit)
read_orders replacing limit count h = ground arith

-- An accepted order meets every limit.
pub assess-Passes :
    (r : Engine) (l : Locate) (side : Side) (price : Price) (qty add : Qty) (replacing : Bool)
    (reference : Price) (now : Nanos)
    → assess r l side price qty add replacing reference now ≡ accepted
    → Passes r l side price qty add replacing reference now
unfolding assess over_position over_gross outside_band
assess-Passes r l side price qty add replacing reference now h =
    let (halt, valid, size, notional, pos_ok, gross_ok, ref_ok, band_ok, rate_ok, orders_ok) =
      tests_false _ _ _ _ _ _ _ _ _ _ h in
    let (inside, some_shares, positive) = read_valid (length r.slots) l qty price valid in
    record {
      running = read_running r.halted replacing add halt;
      on_table = inside;
      some_qty = some_shares;
      some_price = positive;
      size = read_size qty r.limits.max_order_qty size;
      notional = read_notional r.limits.max_order_notional (price *ℤ pos qty) notional;
      position =
          read_position add r.limits.max_position (magnitude (leg (slot_at r l) side (pos add)))
            (magnitude (slot_at r l).held.qty) pos_ok;
      gross =
          read_gross add r.limits.max_gross_position (gross_after r (slot_at r l) side add) r.gross
            gross_ok;
      band =
          read_band r.limits.price_band_bps reference (magnitude (price -ℤ reference) *ℤ pos 10000)
            (reference *ℤ pos r.limits.price_band_bps) r.limits.require_reference ref_ok band_ok;
      rate_ok = read_rate replacing (rate_has_room r.rate now) add rate_ok;
      orders = read_orders replacing r.limits.max_open_orders r.open_total orders_ok;
    }

pub magnitude_parts :
    (v : ℤ)
    → (neg_part (magnitude v) ≡ 0)
      × (pos_part (magnitude v) ≡ pos_part v + neg_part v)
      × ((pos_part v ≡ 0) ⊎ (neg_part v ≡ 0))
unfolding magnitude
magnitude_parts v = (ground arith, ground arith, ground arith)

pub max_ℤ_parts :
    (a b : ℤ) → (a ≤ℤ max_ℤ a b) × (b ≤ℤ max_ℤ a b) × ((max_ℤ a b ≡ a) ⊎ (max_ℤ a b ≡ b))
unfolding max_ℤ
max_ℤ_parts a b = (ground arith, ground arith, ground arith)

-- Between the position and the position with everything open on a side filled, no value is
-- further out than the further of the two.
pub between :
    (p x y : ℤ)
    → ((p ≤ℤ x) × (x ≤ℤ y)) ⊎ ((y ≤ℤ x) × (x ≤ℤ p))
    → (magnitude x ≤ℤ magnitude y) ⊎ (magnitude x ≤ℤ magnitude p)
unfolding magnitude
between p x y h = ground arith

-- Working quantity is counted on one side only; the leg of the other side is as it was.
pub leg-set_open_other :
    (s : Slot) (side : Side) (q : ℤ)
    → leg (set_open side q s) (opposite side) (pos 0) ≡ leg s (opposite side) (pos 0)
unfolding leg opposite
leg-set_open_other s buy q = refl
leg-set_open_other s sell q = refl

pub leg-set_open :
    (s : Slot) (side : Side) (add : ℕ)
    → pos 0 ≤ℤ open_of side s
    → let filled = leg (set_open side (clamp64 (open_of side s +ℤ pos add)) s) side (pos 0) in
      let limit = leg s side (pos add) in
      ((s.held.qty ≤ℤ filled) × (filled ≤ℤ limit)) ⊎ ((limit ≤ℤ filled) × (filled ≤ℤ s.held.qty))
unfolding leg
leg-set_open s buy add h =
    let total = s.open_buy +ℤ pos add in
    let sum : pos 0 ≤ℤ total = omega int_laws in
    let below = clamp64_le total sum in
    let above = clamp64_nonneg total sum in
    inl (omega (int_laws, below, above), omega (int_laws, below, above))
leg-set_open s sell add h =
    let total = s.open_sell +ℤ pos add in
    let sum : pos 0 ≤ℤ total = omega int_laws in
    let below = clamp64_le total sum in
    let above = clamp64_nonneg total sum in
    inr (omega (int_laws, below, above), omega (int_laws, below, above))
