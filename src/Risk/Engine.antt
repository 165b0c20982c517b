-- ===== src/Risk/Engine.antt =====
-- include/optitrade/risk/risk_engine.hpp, the class RiskEngine: its state and its operations.
-- Every Side value is buy or sell here, so the test `valid(side)` always passes.
pub mod Counts
pub mod Cells
pub mod Handlers
pub mod Ledger
pub mod Soundness
pub mod Exact
pub mod Verdict
pub mod Admission
pub mod Window
pub mod Working
mod Tests
use opti_trade_engine.Prelude.{
  ℕ, zero, suc, ◌+◌, ◌-◌, ◌/◌, ◌%◌, ◌^◌, Bool, true, false, ◌&&◌, ◌||◌, not, List, [], ◌∷◌, Option,
  none, some, ltb, leb, ◌==◌, if◌then◌else◌, length, get_or, set, replicate, min, max,
}
use opti_trade_engine.Prelude.Int.{
  ℤ, pos, pos_part, ltb_ℤ, leb_ℤ, eqb_ℤ, ◌+ℤ◌, ◌-ℤ◌, ◌*ℤ◌, neg_ℤ, max_ℤ, min_ℤ, div_ℤ,
}
use opti_trade_engine.Core.Types.{
  Price, Qty, Locate, Nanos, Side, buy, sell, opposite, side_eq, u32_max,
}
use opti_trade_engine.Risk.Types.{
  Limits, Reject, accepted, kill_switch, invalid_order, order_qty, order_notional, position,
  gross_position, price_band, no_reference, rate_limit, open_orders, Position, Slot, flat,
  empty_slot, open_of, count_of, set_open, set_count, clamp64, magnitude,
}

-- The window of admission times.
pub record Rate : Type 0 where
  pub ring : List Nanos
  pub next : ℕ
  pub filled : ℕ
  pub latest : Nanos

pub record Engine : Type 0 where
  pub limits : Limits
  pub slots : List Slot
  pub rate : Rate
  pub realized_total : ℤ
  pub unrealized_total : ℤ
  pub gross : ℤ
  pub peak_pnl : ℤ
  pub max_drawdown : ℤ
  pub open_total : ℕ
  pub halted : Bool

abbrev pub max_locates : ℕ
max_locates = 65536

abbrev pub max_rate_ring : ℕ
max_rate_ring = 1048576

abbrev pub rate_window_ns : ℕ
rate_window_ns = 1000000000

pub new_rate : ℕ → Rate
new_rate n = record { ring = replicate n 0; next = 0; filled = 0; latest = 0 }

pub new : Limits → ℕ → Engine
new limits locates = record {
  limits = limits;
  slots = replicate (min locates max_locates) empty_slot;
  rate =
      new_rate (
        if leb limits.max_orders_per_second max_rate_ring then limits.max_orders_per_second else 0);
  realized_total = pos 0;
  unrealized_total = pos 0;
  gross = pos 0;
  peak_pnl = pos 0;
  max_drawdown = pos 0;
  open_total = 0;
  halted = false;
}

abbrev pub slot_at : Engine → Locate → Slot
slot_at r l = get_or r.slots l empty_slot

-- `slot_at(locate) == nullptr`
abbrev pub off_table : Engine → Locate → Bool
off_table r l = leb (length r.slots) l

-- Uint64 arithmetic on the count of working orders.
abbrev pub inc64 : ℕ → ℕ
inc64 n = (n + 1) % 2 ^ 64

abbrev pub sub64 : ℕ → ℕ → ℕ
sub64 n k = (n + 2 ^ 64 - k) % 2 ^ 64

pub leg : Slot → Side → ℤ → ℤ
leg s buy extra = s.held.qty +ℤ s.open_buy +ℤ extra
leg s sell extra = s.held.qty -ℤ s.open_sell -ℤ extra

pub unrealized_of : Slot → ℤ
unrealized_of s =
    if ltb_ℤ (pos 0) s.mark && not (eqb_ℤ s.held.qty (pos 0))
    then clamp64 ((s.mark -ℤ s.held.avg_price) *ℤ s.held.qty)
    else pos 0

pub exposure_of : Slot → ℤ
exposure_of s = clamp64 (max_ℤ (magnitude (leg s buy (pos 0))) (magnitude (leg s sell (pos 0))))

-- `refresh(*s)` where `s` is the slot of `l` after the caller's writes; the slot is stored.
pub refresh : Engine → Locate → Slot → Engine
refresh r l s =
    let u = unrealized_of s in
    let e = exposure_of s in
    record r {
      slots = set r.slots l (record s { unrealized = u; exposure = e });
      unrealized_total = r.unrealized_total +ℤ (u -ℤ s.unrealized);
      gross = r.gross +ℤ (e -ℤ s.exposure);
    }

pub settle : Engine → Engine
settle r =
    let total = r.realized_total +ℤ r.unrealized_total in
    let peak = max_ℤ r.peak_pnl total in
    record r {
      peak_pnl = peak;
      max_drawdown = max_ℤ r.max_drawdown (peak -ℤ total);
      halted =
          if ltb_ℤ (pos 0) r.limits.max_loss && leb_ℤ total (neg_ℤ r.limits.max_loss)
          then true
          else r.halted;
    }

pub rate_has_room : Rate → Nanos → Bool
rate_has_room w now =
    let oldest = get_or w.ring w.next 0 in
    if length w.ring == 0 || ltb w.filled (length w.ring)
    then true
    else leb oldest now && leb rate_window_ns (now - oldest)

pub rate_record : Rate → Nanos → Rate
rate_record w now =
    let latest = max w.latest now in
    if length w.ring == 0 then w else record {
      ring = set w.ring w.next latest;
      next = if w.next + 1 == length w.ring then 0 else w.next + 1;
      filled = if ltb w.filled (length w.ring) then w.filled + 1 else w.filled;
      latest = latest;
    }

pub admit : Engine → Nanos → Engine
admit r now = record r { rate = rate_record r.rate now }

-- A check that ends the list of checks with a verdict.
abbrev pub reject_if : Bool → Reject → Reject → Reject
reject_if failed verdict rest = if failed then verdict else rest

-- The position limit: over it, and further out than the position is now.
pub over_position : Engine → Slot → Side → Qty → Bool
over_position r s side add =
    let same_leg = magnitude (leg s side (pos add)) in
    ltb_ℤ r.limits.max_position same_leg && ltb_ℤ (magnitude s.held.qty) same_leg

pub gross_after : Engine → Slot → Side → Qty → ℤ
gross_after r s side add =
    r.gross
    -ℤ s.exposure
    +ℤ max_ℤ (magnitude (leg s side (pos add))) (magnitude (leg s (opposite side) (pos 0)))

pub over_gross : Engine → Slot → Side → Qty → Bool
over_gross r s side add =
    let after = gross_after r s side add in
    ltb_ℤ (pos 0) r.limits.max_gross_position
    && ltb_ℤ r.limits.max_gross_position after
    && ltb_ℤ r.gross after

pub outside_band : Limits → Price → Price → Bool
outside_band limits price reference =
    ltb_ℤ (reference *ℤ pos limits.price_band_bps) (magnitude (price -ℤ reference) *ℤ pos 10000)

pub assess : Engine → Locate → Side → Price → Qty → Qty → Bool → Price → Nanos → Reject
assess r locate side price qty add replacing reference now =
    let limits = r.limits in
    let s = slot_at r locate in
    let adds = not replacing || not (add == 0) in
    let banded = not (limits.price_band_bps == 0) in
    let unknown = leb_ℤ reference (pos 0) in
    reject_if (r.halted && adds) kill_switch (
      reject_if (off_table r locate || qty == 0 || leb_ℤ price (pos 0)) invalid_order (
        reject_if (ltb limits.max_order_qty qty) order_qty (
          reject_if
            (ltb_ℤ (pos 0) limits.max_order_notional
              && ltb_ℤ limits.max_order_notional (price *ℤ pos qty))
            order_notional
            (reject_if (not (add == 0) && over_position r s side add) position (
              reject_if (not (add == 0) && over_gross r s side add) gross_position (
                reject_if (banded && unknown && limits.require_reference) no_reference (
                  reject_if (banded && not unknown && outside_band limits price reference)
                    price_band
                    (reject_if (adds && not (rate_has_room r.rate now)) rate_limit (
                      reject_if
                        (not replacing
                          && not (limits.max_open_orders == 0)
                          && leb limits.max_open_orders r.open_total)
                        open_orders accepted)))))))))

unfoldable pub evaluate : Engine → Locate → Side → Price → Qty → Price → Nanos → Reject
evaluate r locate side price qty reference now =
    assess r locate side price qty qty false reference now

unfoldable pub evaluate_replace :
    Engine → Locate → Side → Price → Qty → Qty → Price → Nanos → Reject
evaluate_replace r locate side price open_qty growth reference now =
    assess r locate side price open_qty growth true reference now

unfoldable pub is_accepted : Reject → Bool
is_accepted accepted = true
is_accepted _ = false

pub check : Engine → Locate → Side → Price → Qty → Price → Nanos → Engine × Reject
unfolding is_accepted
check r locate side price qty reference now =
    let verdict = evaluate r locate side price qty reference now in
    ((if is_accepted verdict then admit r now else r), verdict)

-- One more working order on a side, if its counter has room.
pub count_open : Engine → Locate → Side → Slot → Engine
count_open r locate side s =
    if count_of side s == u32_max
    then refresh r locate s
    else refresh (record r { open_total = inc64 r.open_total }) locate
        (set_count side (count_of side s + 1) s)

pub on_order_open : Engine → Locate → Side → Qty → Engine
unfolding count_open
on_order_open r locate side qty =
    let s = slot_at r locate in
    if off_table r locate || qty == 0
    then r
    else count_open r locate side (set_open side (clamp64 (open_of side s +ℤ pos qty)) s)

pub on_order_grow : Engine → Locate → Side → Qty → Engine
on_order_grow r locate side qty =
    let s = slot_at r locate in
    if off_table r locate || qty == 0
    then r
    else refresh r locate (set_open side (clamp64 (open_of side s +ℤ pos qty)) s)

-- The slot after `qty` shares are released, clamped to what is open.
pub release : Side → Qty → Slot → Slot
release side qty s = set_open side (open_of side s -ℤ min_ℤ (pos qty) (open_of side s)) s

pub on_order_reduce : Engine → Locate → Side → Qty → Engine
unfolding release
on_order_reduce r locate side qty =
    if off_table r locate then r else refresh r locate (release side qty (slot_at r locate))

pub on_order_end : Engine → Locate → Side → Qty → Engine
unfolding release
on_order_end r locate side remaining =
    let s = release side remaining (slot_at r locate) in
    if off_table r locate
    then r
    else if count_of side s == 0
    then refresh r locate s
    else refresh (record r { open_total = sub64 r.open_total 1 }) locate
        (set_count side (count_of side s - 1) s)

pub on_order_closed : Engine → Locate → Side → Qty → Engine
unfolding release
on_order_closed r locate side remaining =
    let s = release side remaining (slot_at r locate) in
    let cap = if leb_ℤ (pos u32_max) (open_of side s) then u32_max else pos_part (open_of side s) in
    let kept = min (count_of side s) cap in
    if off_table r locate
    then r
    else refresh (record r { open_total = sub64 r.open_total (count_of side s - kept) }) locate
        (set_count side kept s)

-- The position after a fill; the second part is the gain that is realized.
pub fill_position : Position → Side → Qty → Price → Position × ℤ
fill_position p side qty price =
    let held = magnitude p.qty in
    let fill = pos qty in
    let bought = side_eq side buy in
    let after = if bought then p.qty +ℤ fill else p.qty -ℤ fill in
    let long = ltb_ℤ (pos 0) p.qty in
    let closed = min_ℤ held fill in
    let extends = eqb_ℤ p.qty (pos 0) || (if long then bought else not bought) in
    let gain = (if long then price -ℤ p.avg_price else p.avg_price -ℤ price) *ℤ closed in
    let crossed = if ltb_ℤ (pos 0) after then not long else long in
    let average = div_ℤ (p.avg_price *ℤ held +ℤ price *ℤ fill) (pos_part held + qty) in
    let reduced = if eqb_ℤ after (pos 0) then pos 0 else if crossed then price else p.avg_price in
    if extends
    then (
      record { qty = clamp64 after; avg_price = average; realized = clamp64 (p.realized +ℤ pos 0) },
      pos 0,
    )
    else (
      record { qty = clamp64 after; avg_price = reduced; realized = clamp64 (p.realized +ℤ gain) },
      gain,
    )

pub on_fill : Engine → Locate → Side → Qty → Price → Engine
unfolding fill_position
on_fill r locate side qty price =
    let s = slot_at r locate in
    let p = (fill_position s.held side qty price).0 in
    if off_table r locate || qty == 0 || leb_ℤ price (pos 0)
    then r
    else settle (
        refresh (record r { realized_total = r.realized_total +ℤ (p.realized -ℤ s.held.realized) })
          locate (record s { held = p }))

pub mark : Engine → Locate → Price → Engine
mark r locate price =
    if off_table r locate || leb_ℤ price (pos 0)
    then r
    else settle (refresh r locate (record (slot_at r locate) { mark = price }))

pub set_kill_switch : Engine → Bool → Engine
set_kill_switch r on = record r { halted = on }

pub position_of : Engine → Locate → Position
position_of r l = if off_table r l then flat else (slot_at r l).held

pub open_qty : Engine → Locate → Side → ℤ
open_qty r l side = if off_table r l then pos 0 else open_of side (slot_at r l)

pub gross_exposure : Engine → ℤ
gross_exposure r = clamp64 r.gross

pub realized_pnl : Engine → ℤ
realized_pnl r = clamp64 r.realized_total

pub unrealized_pnl : Engine → ℤ
unrealized_pnl r = clamp64 r.unrealized_total

pub total_pnl : Engine → ℤ
total_pnl r = clamp64 (r.realized_total +ℤ r.unrealized_total)

pub open_orders_of : Engine → ℕ
open_orders_of r = min r.open_total u32_max
