-- ===== src/Ouch/Inbound/Layout.antt =====
-- ouch/codec.hpp: what a message to the exchange must satisfy, and its price on the wire.
use opti_trade_engine.Prelude.{
  ℕ, ◌≤◌, ◌<◌, ◌^◌, ◌≡◌, refl, true, false, not, Option, none, some, if◌then◌else◌, length, arith,
}
use opti_trade_engine.Core.Types.{Price, buy, max_order_qty}
use opti_trade_engine.Prelude.Int.{pos}
use opti_trade_engine.Core.Wire.{Bytes, load16, load32, store16, store32, load32-store32}
use opti_trade_engine.Itch.Layout.{FitsPrice}
use opti_trade_engine.Ouch.Messages.{Inbound, enter_order, replace_order, cancel_order}
use opti_trade_engine.Ouch.Fields.{
  put_price, get_price, valid_order_shares, fits_wire_price, emit, Decoded, delivered,
}
use opti_trade_engine.Ouch.Inbound.{decode}

-- What a message must satisfy for its bytes to mean it.
abbrev pub Fits : Inbound → Type 0
Fits (enter_order m) =
    ((0 < m.shares) × (m.shares ≤ max_order_qty))
    × FitsPrice m.price
    × (m.time_in_force < 2 ^ 32)
    × (m.min_qty < 2 ^ 32)
    × (m.side ≡ buy → m.short_sell ≡ false)
Fits (replace_order m) =
    ((0 < m.shares) × (m.shares ≤ max_order_qty))
    × FitsPrice m.price
    × (m.time_in_force < 2 ^ 32)
    × (m.min_qty < 2 ^ 32)
Fits (cancel_order m) = (m.shares < 2 ^ 32)

unfoldable pub wire_length : Inbound → ℕ
wire_length (enter_order m) = 49
wire_length (replace_order m) = 47
wire_length (cancel_order m) = 19

abbrev pub Carries : Inbound → Option Bytes → Type 0
Carries m r = (bs : Bytes) × (r ≡ some bs) × (length bs ≡ wire_length m) × (decode bs ≡ delivered m)

pub emit_lem : (bytes : Bytes) (room len : ℕ) → len ≤ room → emit (some bytes) room len ≡ some bytes
unfolding emit
emit_lem bytes room len h = ground arith

pub price_back : (px : Price) → FitsPrice px → get_price (put_price px) 0 ≡ px
unfolding get_price put_price load16 load32 store16 store32
price_back px (n, e, h) = rw e (λ i. pos (load32-store32 n h i))

price_fits : (px : Price) → FitsPrice px → fits_wire_price px ≡ true
unfolding fits_wire_price
price_fits px (n, e, h) = rw e (ground arith)

-- A write of a price that fits is emitted where there is room.
pub emit_priced :
    (bytes : Bytes) (px : Price) (room len : ℕ)
    → FitsPrice px
    → len ≤ room
    → emit (if not (fits_wire_price px) then none else some bytes) room len ≡ some bytes
emit_priced bytes px room len p h = rw (price_fits px p) (emit_lem bytes room len h)

is_valid : (q : ℕ) → 0 < q → q ≤ max_order_qty → valid_order_shares q ≡ true
unfolding valid_order_shares
is_valid q h k = ground arith

pub valid_passes :
    {A : Type 0} (q : ℕ) (x : A) (f : Option A → Decoded Inbound)
    → 0 < q
    → q ≤ max_order_qty
    → f (if not (valid_order_shares q) then none else some x) ≡ f (some x)
valid_passes q x f h k = rw (is_valid q h k) refl
