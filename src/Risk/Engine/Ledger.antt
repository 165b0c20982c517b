-- ===== src/Risk/Engine/Ledger.antt =====
-- The bookkeeping of risk_engine.hpp: the running totals are the sums over the instruments, and the
-- cached values of each instrument are those of its position and its working orders.
use opti_trade_engine.Prelude.{
  ℕ, zero, suc, ◌+◌, ◌*◌, ◌≤◌, ◌<◌, ◌≡◌, refl, List, [], ◌∷◌, arith, length, get_or, set, All,
  All-get_or, All-set, length-set,
}
use opti_trade_engine.Prelude.Int.{ℤ, pos, ◌+ℤ◌, ◌-ℤ◌, ◌≤ℤ◌, int_laws, min_ℤ}
use opti_trade_engine.Core.Types.{Locate, Side, buy, sell, u32_max}
use opti_trade_engine.Risk.Types.{
  Slot, empty_slot, open_of, count_of, set_open, set_count, clamp64, clamp64_nonneg,
}
use opti_trade_engine.Risk.Engine.{Engine, slot_at, unrealized_of, exposure_of, leg, refresh}

-- The sum of a value over the instruments.
unfoldable pub total : (Slot → ℤ) → List Slot → ℤ
total f [] = pos 0
total f (x ∷ xs) = f x +ℤ total f xs

abbrev pub slot_count : Slot → ℕ
slot_count s = s.count_buy + s.count_sell

-- The number of working orders over the instruments.
unfoldable pub working : List Slot → ℕ
working [] = 0
working (x ∷ xs) = slot_count x + working xs

pub total-set :
    (f : Slot → ℤ) (xs : List Slot) (i : ℕ) (v : Slot)
    → i < length xs
    → total f (set xs i v) ≡ total f xs +ℤ (f v -ℤ f (get_or xs i empty_slot))
unfolding total
total-set f [] i v h = absurd (omega arith)
total-set f (x ∷ xs) zero v h = omega int_laws
total-set f (x ∷ xs) (suc i) v h = rw (total-set f xs i v (omega arith)) (omega int_laws)

working-set :
    (xs : List Slot) (i : ℕ) (v : Slot)
    → i < length xs
    → working (set xs i v) + slot_count (get_or xs i empty_slot) ≡ working xs + slot_count v
unfolding working
working-set [] i v h = absurd (omega arith)
working-set (x ∷ xs) zero v h = omega arith
working-set (x ∷ xs) (suc i) v h = omega (arith, working-set xs i v (omega arith))

-- What holds of one instrument: the working quantities are not negative and the counts fit.
pub record IsOpen (s : Slot) : Type 0 where
  pub buys : pos 0 ≤ℤ s.open_buy
  pub sells : pos 0 ≤ℤ s.open_sell
  pub fits_buys : s.count_buy ≤ u32_max
  pub fits_sells : s.count_sell ≤ u32_max

pub record IsFresh (s : Slot) : Type 0 where
  pub working_ok : IsOpen s
  pub exposure_now : s.exposure ≡ exposure_of s
  pub unrealized_now : s.unrealized ≡ unrealized_of s

pub record IsSound (r : Engine) : Type 0 where
  pub gross_sum : r.gross ≡ total (λ s. s.exposure) r.slots
  pub unrealized_sum : r.unrealized_total ≡ total (λ s. s.unrealized) r.slots
  pub realized_sum : r.realized_total ≡ total (λ s. s.held.realized) r.slots
  pub count_sum : r.open_total ≡ working r.slots
  pub table : length r.slots ≤ 65536
  pub fresh : All IsFresh r.slots

working-le : (xs : List Slot) → All IsFresh xs → working xs ≤ length xs * (2 * u32_max)
unfolding working
working-le [] a = omega arith
working-le (x ∷ xs) a =
    let o = a.0.working_ok in omega (arith, working-le xs a.1, o.fits_buys, o.fits_sells)

-- `refresh` after an operation that changed the slot of `l`, the count and the realized total.
pub refresh-IsSound :
    (r : Engine) (l : Locate) (s : Slot) (n : ℕ) (t : ℤ)
    → IsSound r
    → l < length r.slots
    → s.unrealized ≡ (slot_at r l).unrealized
    → s.exposure ≡ (slot_at r l).exposure
    → t ≡ r.realized_total +ℤ (s.held.realized -ℤ (slot_at r l).held.realized)
    → n + slot_count (slot_at r l) ≡ r.open_total + slot_count s
    → IsOpen s
    → IsSound (refresh (record r { open_total = n; realized_total = t }) l s)
unfolding refresh exposure_of unrealized_of leg
refresh-IsSound r l s n t v inside u e real cnt o =
    let cell : Slot = record s { unrealized = unrealized_of s; exposure = exposure_of s } in
    record {
      gross_sum = rw (total-set (λ x. x.exposure) r.slots l cell inside, ← v.gross_sum, e) refl;
      unrealized_sum =
          rw (total-set (λ x. x.unrealized) r.slots l cell inside, ← v.unrealized_sum, u) refl;
      realized_sum =
          rw (total-set (λ x. x.held.realized) r.slots l cell inside, ← v.realized_sum) real;
      count_sum = omega (arith, working-set r.slots l cell inside, v.count_sum, cnt);
      table = rw (length-set r.slots l cell) v.table;
      fresh =
          All-set IsFresh l cell r.slots
            (record {
              working_ok = record {
                buys = o.buys;
                sells = o.sells;
                fits_buys = o.fits_buys;
                fits_sells = o.fits_sells;
              };
              exposure_now = refl;
              unrealized_now = refl;
            })
            v.fresh;
    }

pub same_sum : (t x : ℤ) → t ≡ t +ℤ (x -ℤ x)
same_sum t x = omega int_laws

pub cell_at : (r : Engine) (l : Locate) → IsSound r → l < length r.slots → IsFresh (slot_at r l)
cell_at r l v inside = All-get_or IsFresh r.slots empty_slot l v.fresh inside

-- A change of the working quantity of one side alone.
pub resize-IsSound :
    (r : Engine) (l : Locate) (side : Side) (qty : ℤ)
    → IsSound r
    → l < length r.slots
    → pos 0 ≤ℤ qty
    → IsSound (refresh r l (set_open side qty (slot_at r l)))
resize-IsSound r l buy qty v inside h =
    let c = (cell_at r l v inside).working_ok in
    refresh-IsSound r l (set_open buy qty (slot_at r l)) r.open_total r.realized_total v inside refl
      refl (same_sum r.realized_total (slot_at r l).held.realized) refl
      (record { buys = h; sells = c.sells; fits_buys = c.fits_buys; fits_sells = c.fits_sells })
resize-IsSound r l sell qty v inside h =
    let c = (cell_at r l v inside).working_ok in
    refresh-IsSound r l (set_open sell qty (slot_at r l)) r.open_total r.realized_total v inside
      refl refl (same_sum r.realized_total (slot_at r l).held.realized) refl
      (record { buys = c.buys; sells = h; fits_buys = c.fits_buys; fits_sells = c.fits_sells })

-- A change of the working quantity and the count of one side, with the total count `n`.
pub recount-IsSound :
    (r : Engine) (l : Locate) (side : Side) (qty : ℤ) (count n : ℕ)
    → IsSound r
    → l < length r.slots
    → pos 0 ≤ℤ qty
    → count ≤ u32_max
    → n + count_of side (slot_at r l) ≡ r.open_total + count
    → IsSound (
        refresh
          (record r { open_total = n })
          l
          (set_count side count (set_open side qty (slot_at r l))))
recount-IsSound r l buy qty count n v inside h k cnt =
    let c = (cell_at r l v inside).working_ok in
    refresh-IsSound r l (set_count buy count (set_open buy qty (slot_at r l))) n r.realized_total v
      inside refl refl (same_sum r.realized_total (slot_at r l).held.realized) (omega arith)
      (record { buys = h; sells = c.sells; fits_buys = k; fits_sells = c.fits_sells })
recount-IsSound r l sell qty count n v inside h k cnt =
    let c = (cell_at r l v inside).working_ok in
    refresh-IsSound r l (set_count sell count (set_open sell qty (slot_at r l))) n r.realized_total
      v inside refl refl (same_sum r.realized_total (slot_at r l).held.realized) (omega arith)
      (record { buys = c.buys; sells = h; fits_buys = c.fits_buys; fits_sells = k })

pub open_nonneg : (side : Side) (s : Slot) → IsOpen s → pos 0 ≤ℤ open_of side s
open_nonneg buy s o = o.buys
open_nonneg sell s o = o.sells

pub count_fits : (side : Side) (s : Slot) → IsOpen s → count_of side s ≤ u32_max
count_fits buy s o = o.fits_buys
count_fits sell s o = o.fits_sells

pub add_nonneg : (a : ℤ) (n : ℕ) → pos 0 ≤ℤ a → pos 0 ≤ℤ clamp64 (a +ℤ pos n)
add_nonneg a n h = clamp64_nonneg (a +ℤ pos n) (omega int_laws)

-- A clamped release never goes below zero.
pub release_nonneg : (a : ℤ) (n : ℕ) → pos 0 ≤ℤ a → pos 0 ≤ℤ a -ℤ min_ℤ (pos n) a
unfolding min_ℤ ◌-ℤ◌
release_nonneg a n h = ground arith

slot_count-le :
    (xs : List Slot) (i : ℕ) → i < length xs → slot_count (get_or xs i empty_slot) ≤ working xs
unfolding working
slot_count-le [] i h = absurd (omega arith)
slot_count-le (x ∷ xs) zero h = omega arith
slot_count-le (x ∷ xs) (suc i) h = omega (arith, slot_count-le xs i (omega arith))

count_of-le : (side : Side) (s : Slot) → count_of side s ≤ slot_count s
count_of-le buy s = omega arith
count_of-le sell s = omega arith

-- Below 2 ^ 64 the unsigned arithmetic on the count is exact.
pub count-le-open :
    (r : Engine) (l : Locate) (side : Side)
    → IsSound r
    → l < length r.slots
    → (count_of side (slot_at r l) ≤ r.open_total) × (r.open_total ≤ 65536 * (2 * u32_max))
count-le-open r l side v inside = (
  omega (arith, count_of-le side (slot_at r l), slot_count-le r.slots l inside, v.count_sum),
  omega (arith, working-le r.slots v.fresh, v.count_sum, v.table),
)
