-- ===== src/Risk/Engine/Exact/Calls.antt =====
-- risk_engine.hpp: on_order_open, on_order_grow, on_order_reduce, on_order_end and on_order_closed,
-- and what they make of one instrument and side.
use opti_trade_engine.Prelude.{
  ℕ, ◌+◌, ◌-◌, ◌≤◌, ◌≡◌, refl, ◌∙◌, ap, Bool, true, false, ◌&&◌, ◌||◌, not, ◌==◌, if◌then◌else◌,
  ltb, min, arith, Bool-cases, inl, inr,
}
use opti_trade_engine.Prelude.Int.{ℤ, pos, pos_part, leb_ℤ, ◌+ℤ◌, ◌-ℤ◌, min_ℤ}
use opti_trade_engine.Core.Types.{Locate, Side, buy, sell, side_eq, u32_max}
use opti_trade_engine.Risk.Types.{open_of, count_of, Slot, set_open, clamp64, i64_max}
use opti_trade_engine.Risk.Engine.{
  Engine, slot_at, off_table, release, count_open, on_order_open, on_order_grow, on_order_reduce,
  on_order_end, on_order_closed,
}
use opti_trade_engine.Risk.Engine.Soundness.{opens, grows, reduces, ends, closes}
use opti_trade_engine.Risk.Engine.Cells.{table_size, count_of-set_open, less-pos, eq_of}
use opti_trade_engine.Risk.Engine.Counts.{open_here, count_here}
use opti_trade_engine.Risk.Engine.Exact.{Held, Holds, booked}
use opti_trade_engine.Risk.Engine.Exact.Cells.{clamp-min, resized-Holds, recounted-Holds}

either :
    (b : Bool) (r : Engine) (k : Locate) (t : Side) (h : Held)
    → Holds r k t h
    → Holds r k t (if b then h else h)
either true r k t h is = is
either false r k t h is = is

own_open : (s : Side) (v : ℤ) (x : Slot) → open_of s (set_open s v x) ≡ v
own_open buy v x = refl
own_open sell v x = refl

capped :
    (n q : ℕ)
    → n ≤ u32_max
    → min n (if leb_ℤ (pos u32_max) (pos q) then u32_max else pos_part (pos q)) ≡ min n q
capped n q few = ground arith

-- A call off the table changes nothing.
module _ (r : Engine) (l k : Locate) (s t : Side) (qty : ℕ) (h : Held) (is : Holds r k t h) where
  pub grow-Holds :
      Holds
        (on_order_grow r l s qty)
        k
        t
        (if ltb l (table_size r) && ((l == k) && side_eq s t) then booked (grows l s qty) h else h)
  unfolding on_order_grow booked
  grow-Holds = elim (Bool-cases (ltb l (table_size r))) [
    | inr out ↦ let off : (off_table r l || qty == 0) ≡ true = ground arith in rw (off, out) is
    | inl on ↦
        let there =
          λ (b : ((l == k) && side_eq s t) ≡ true). open_here r l k s t b h.shares is.shares in
        elim (Bool-cases (qty == 0)) [
          | inl zero_qty ↦
              let off : (off_table r l || qty == 0) ≡ true = ground arith in
              let same : min (h.shares + qty) i64_max ≡ h.shares =
                omega (arith, eq_of qty 0 zero_qty, is.few_shares) in
              rw (off, on, same) (either ((l == k) && side_eq s t) r k t h is)
          | inr some_qty ↦
              let go : (off_table r l || qty == 0) ≡ false = ground arith in
              rw (go, on)
                (resized-Holds r l k s t h is (ground arith) _ _
                  (λ b. (rw (there b) (clamp-min h.shares qty), refl, omega arith, is.few_orders)))
        ]
  ]

  pub reduce-Holds :
      Holds (on_order_reduce r l s qty) k t (
        if ltb l (table_size r) && ((l == k) && side_eq s t) then booked (reduces l s qty) h else h)
  unfolding on_order_reduce booked release
  reduce-Holds = elim (Bool-cases (ltb l (table_size r))) [
    | inr out ↦ let off : off_table r l ≡ true = ground arith in rw (off, out) is
    | inl on ↦
        let go : off_table r l ≡ false = ground arith in
        rw (go, on)
          (resized-Holds r l k s t h is (ground arith) _ _ (λ b. (
            rw (open_here r l k s t b h.shares is.shares) (less-pos qty h.shares),
            refl,
            omega (arith, is.few_shares),
            is.few_orders,
          )))
  ]

  pub open-Holds :
      Holds
        (on_order_open r l s qty)
        k
        t
        (if ltb l (table_size r) && ((l == k) && side_eq s t) then booked (opens l s qty) h else h)
  unfolding on_order_open booked count_open
  open-Holds = elim (Bool-cases (ltb l (table_size r) && not (qty == 0))) [
    | inr out ↦
        let off : (off_table r l || qty == 0) ≡ true = ground arith in
        elim (Bool-cases (ltb l (table_size r))) [
          | inl there ↦
              let none_asked : (qty == 0) ≡ true = ground arith in
              rw (off, there, none_asked) (either ((l == k) && side_eq s t) r k t h is)
          | inr away ↦ rw (off, away) is
        ]
    | inl on ↦
        let go : (off_table r l || qty == 0) ≡ false = ground arith in
        let on_table : ltb l (table_size r) ≡ true = ground arith in
        let some_qty : (qty == 0) ≡ false = ground arith in
        let more = clamp64 (open_of s (slot_at r l) +ℤ pos qty) in
        let here =
          λ (b : ((l == k) && side_eq s t) ≡ true). open_here r l k s t b h.shares is.shares in
        let counted =
          λ (b : ((l == k) && side_eq s t) ≡ true). count_here r l k s t b h.orders is.orders in
        elim (Bool-cases (count_of s (slot_at r l) == u32_max)) [
          | inl full ↦
              rw (go, on_table, some_qty, count_of-set_open s s more (slot_at r l), full)
                (resized-Holds r l k s t h is (ground arith) _ _ (λ b. (
                  rw (here b) (clamp-min h.shares qty),
                  omega (arith, counted b, eq_of (count_of s (slot_at r l)) u32_max full),
                  omega arith,
                  omega arith,
                )))
          | inr room ↦
              rw (go, on_table, some_qty, count_of-set_open s s more (slot_at r l), room)
                (recounted-Holds r l k s t h is (ground arith) _ _ _ _ (λ b. (
                  rw (here b) (clamp-min h.shares qty),
                  ground (arith, counted b, room, is.few_orders),
                  omega arith,
                  omega arith,
                )))
        ]
  ]

  pub end-Holds :
      Holds
        (on_order_end r l s qty)
        k
        t
        (if ltb l (table_size r) && ((l == k) && side_eq s t) then booked (ends l s qty) h else h)
  unfolding on_order_end booked release
  end-Holds = elim (Bool-cases (ltb l (table_size r))) [
    | inr out ↦ let off : off_table r l ≡ true = ground arith in rw (off, out) is
    | inl on ↦
        let go : off_table r l ≡ false = ground arith in
        let less = open_of s (slot_at r l) -ℤ min_ℤ (pos qty) (open_of s (slot_at r l)) in
        let here =
          λ (b : ((l == k) && side_eq s t) ≡ true). open_here r l k s t b h.shares is.shares in
        let counted =
          λ (b : ((l == k) && side_eq s t) ≡ true). count_here r l k s t b h.orders is.orders in
        elim (Bool-cases (count_of s (slot_at r l) == 0)) [
          | inl none_open ↦
              rw (go, on, count_of-set_open s s less (slot_at r l), none_open)
                (resized-Holds r l k s t h is (ground arith) _ _ (λ b. (
                  rw (here b) (less-pos qty h.shares),
                  omega (arith, counted b, eq_of (count_of s (slot_at r l)) 0 none_open),
                  omega (arith, is.few_shares),
                  omega (arith, is.few_orders),
                )))
          | inr some_open ↦
              rw (go, on, count_of-set_open s s less (slot_at r l), some_open)
                (recounted-Holds r l k s t h is (ground arith) _ _ _ _ (λ b. (
                  rw (here b) (less-pos qty h.shares),
                  ap (λ (n : ℕ). n - 1) (counted b),
                  omega (arith, is.few_shares),
                  omega (arith, is.few_orders),
                )))
        ]
  ]

  pub close-Holds :
      Holds
        (on_order_closed r l s qty)
        k
        t
        (if ltb l (table_size r) && ((l == k) && side_eq s t) then booked (closes l s qty) h else h)
  unfolding on_order_closed booked release
  close-Holds = elim (Bool-cases (ltb l (table_size r))) [
    | inr out ↦ let off : off_table r l ≡ true = ground arith in rw (off, out) is
    | inl on ↦
        let go : off_table r l ≡ false = ground arith in
        let less = open_of s (slot_at r l) -ℤ min_ℤ (pos qty) (open_of s (slot_at r l)) in
        rw (go, on, count_of-set_open s s less (slot_at r l))
          (recounted-Holds r l k s t h is (ground arith) _ _ _ _ (λ b.
            let left : less ≡ pos (h.shares - qty) =
              rw (open_here r l k s t b h.shares is.shares) (less-pos qty h.shares) in
            (
              left,
              rw (count_here r l k s t b h.orders is.orders, own_open s less (slot_at r l) ∙ left)
                  (capped h.orders (h.shares - qty) is.few_orders),
              omega (arith, is.few_shares),
              omega (arith, is.few_orders),
            )))
  ]
