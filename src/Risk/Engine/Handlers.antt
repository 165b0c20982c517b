-- ===== src/Risk/Engine/Handlers.antt =====
-- risk_engine.hpp: each call keeps the totals exact.
use opti_trade_engine.Prelude.{
  ℕ, zero, suc, ◌<◌, ◌≡◌, refl, sym, arith, length, replicate, All, length-replicate, Bool-cases,
  inl, inr, ◌==◌, min, ◌||◌,
}
use opti_trade_engine.Prelude.Int.{ℤ, pos, ◌+ℤ◌, ◌-ℤ◌, int_laws, leb_ℤ, max_ℤ}
use opti_trade_engine.Core.Types.{Price, Qty, Locate, Side, buy, sell, u32_max}
use opti_trade_engine.Risk.Types.{
  Limits, Slot, empty_slot, open_of, count_of, set_open, clamp64, magnitude,
}
use opti_trade_engine.Risk.Engine.{
  Engine, new, slot_at, off_table, unrealized_of, exposure_of, leg, settle, on_order_open,
  on_order_grow, on_order_reduce, on_order_end, on_order_closed, on_fill, mark,
}
use opti_trade_engine.Risk.Engine.Ledger.{
  total, working, IsFresh, IsSound, refresh-IsSound, resize-IsSound, recount-IsSound, cell_at,
  open_nonneg, count_fits, add_nonneg, release_nonneg, count-le-open, same_sum,
}

count_of-set_open :
    (side : Side) (q : ℤ) (s : Slot) → count_of side (set_open side q s) ≡ count_of side s
count_of-set_open buy q s = refl
count_of-set_open sell q s = refl

module _ (r : Engine) (l : Locate) (side : Side) (qty : Qty) (v : IsSound r) where
  pub on_order_grow-IsSound : IsSound (on_order_grow r l side qty)
  unfolding on_order_grow
  on_order_grow-IsSound = elim (Bool-cases (off_table r l || qty == 0)) [
    | inl skip ↦ rw skip v
    | inr go ↦
        let inside : l < length r.slots = ground arith in
        rw go (
          resize-IsSound r l side _ v inside
            (add_nonneg _ qty (open_nonneg side _ (cell_at r l v inside).working_ok)))
  ]

  pub on_order_reduce-IsSound : IsSound (on_order_reduce r l side qty)
  unfolding on_order_reduce
  on_order_reduce-IsSound = elim (Bool-cases (off_table r l)) [
    | inl skip ↦ rw skip v
    | inr go ↦
        let inside : l < length r.slots = ground arith in
        rw go (
          resize-IsSound r l side _ v inside
            (release_nonneg _ qty (open_nonneg side _ (cell_at r l v inside).working_ok)))
  ]

  pub on_order_open-IsSound : IsSound (on_order_open r l side qty)
  unfolding on_order_open
  on_order_open-IsSound = elim (Bool-cases (off_table r l || qty == 0)) [
    | inl skip ↦ rw skip v
    | inr go ↦
        let inside : l < length r.slots = ground arith in
        let cell = (cell_at r l v inside).working_ok in
        let grown = add_nonneg (open_of side (slot_at r l)) qty (open_nonneg side _ cell) in
        let fits = count_fits side (slot_at r l) cell in
        let (below, small) = count-le-open r l side v inside in
        rw (go, count_of-set_open side _ (slot_at r l))
          (elim (Bool-cases (count_of side (slot_at r l) == u32_max)) [
            | inl full ↦ rw full (resize-IsSound r l side _ v inside grown)
            | inr room ↦
                rw room (recount-IsSound r l side _ _ _ v inside grown (ground arith) (omega arith))
          ])
  ]

  pub on_order_end-IsSound : IsSound (on_order_end r l side qty)
  unfolding on_order_end
  on_order_end-IsSound = elim (Bool-cases (off_table r l)) [
    | inl skip ↦ rw skip v
    | inr go ↦
        let inside : l < length r.slots = ground arith in
        let cell = (cell_at r l v inside).working_ok in
        let left = release_nonneg (open_of side (slot_at r l)) qty (open_nonneg side _ cell) in
        let fits = count_fits side (slot_at r l) cell in
        let (below, small) = count-le-open r l side v inside in
        rw (go, count_of-set_open side _ (slot_at r l))
          (elim (Bool-cases (count_of side (slot_at r l) == 0)) [
            | inl empty ↦ rw empty (resize-IsSound r l side _ v inside left)
            | inr some_open ↦
                rw some_open
                  (recount-IsSound r l side _ _ _ v inside left (omega arith) (ground arith))
          ])
  ]

  pub on_order_closed-IsSound : IsSound (on_order_closed r l side qty)
  unfolding on_order_closed
  on_order_closed-IsSound = elim (Bool-cases (off_table r l)) [
    | inl skip ↦ rw skip v
    | inr go ↦
        let inside : l < length r.slots = ground arith in
        let cell = (cell_at r l v inside).working_ok in
        let left = release_nonneg (open_of side (slot_at r l)) qty (open_nonneg side _ cell) in
        let fits = count_fits side (slot_at r l) cell in
        let (below, small) = count-le-open r l side v inside in
        rw (go, count_of-set_open side _ (slot_at r l))
          (recount-IsSound r l side _ _ _ v inside left (omega arith) (omega arith))
  ]

settle-IsSound : (r : Engine) → IsSound r → IsSound (settle r)
unfolding settle
settle-IsSound r v = record {
  gross_sum = v.gross_sum;
  unrealized_sum = v.unrealized_sum;
  realized_sum = v.realized_sum;
  count_sum = v.count_sum;
  table = v.table;
  fresh = v.fresh;
}

pub on_fill-IsSound :
    (r : Engine) (l : Locate) (side : Side) (qty : Qty) (price : Price)
    → IsSound r
    → IsSound (on_fill r l side qty price)
unfolding on_fill
on_fill-IsSound r l side qty price v =
    elim (Bool-cases (off_table r l || qty == 0 || leb_ℤ price (pos 0))) [
      | inl skip ↦ rw skip v
      | inr go ↦
          let inside : l < length r.slots = ground arith in
          let c = (cell_at r l v inside).working_ok in
          rw go (
            settle-IsSound _ (
              refresh-IsSound r l _ r.open_total _ v inside refl refl refl refl (record {
                buys = c.buys;
                sells = c.sells;
                fits_buys = c.fits_buys;
                fits_sells = c.fits_sells;
              })))
    ]

pub mark-IsSound : (r : Engine) (l : Locate) (price : Price) → IsSound r → IsSound (mark r l price)
unfolding mark
mark-IsSound r l price v = elim (Bool-cases (off_table r l || leb_ℤ price (pos 0))) [
  | inl skip ↦ rw skip v
  | inr go ↦
      let inside : l < length r.slots = ground arith in
      let c = (cell_at r l v inside).working_ok in
      rw go (
        settle-IsSound _ (
          refresh-IsSound r l (record (slot_at r l) { mark = price }) r.open_total r.realized_total
            v inside refl refl (same_sum r.realized_total (slot_at r l).held.realized) refl
            (record {
              buys = c.buys;
              sells = c.sells;
              fits_buys = c.fits_buys;
              fits_sells = c.fits_sells;
            })))
]

total-replicate :
    (f : Slot → ℤ) (n : ℕ) → f empty_slot ≡ pos 0 → total f (replicate n empty_slot) ≡ pos 0
unfolding total
total-replicate f zero h = refl
total-replicate f (suc n) h = rw (h, total-replicate f n h) (omega int_laws)

working-replicate : (n : ℕ) → working (replicate n empty_slot) ≡ 0
unfolding working
working-replicate zero = refl
working-replicate (suc n) = omega (arith, working-replicate n)

empty-IsFresh : IsFresh empty_slot
unfolding exposure_of unrealized_of leg clamp64 magnitude max_ℤ ◌+ℤ◌ ◌-ℤ◌
empty-IsFresh = record { working_ok = omega arith; exposure_now = refl; unrealized_now = refl }

fresh-replicate : (n : ℕ) → All IsFresh (replicate n empty_slot)
fresh-replicate zero = tt
fresh-replicate (suc n) = (empty-IsFresh, fresh-replicate n)

pub new-IsSound : (limits : Limits) (locates : ℕ) → IsSound (new limits locates)
unfolding new
new-IsSound limits locates =
    let n = min locates 65536 in
    record {
      gross_sum = sym (total-replicate _ n refl);
      unrealized_sum = sym (total-replicate _ n refl);
      realized_sum = sym (total-replicate _ n refl);
      count_sum = sym (working-replicate n);
      table = rw (length-replicate n empty_slot) (omega arith);
      fresh = fresh-replicate n;
    }
