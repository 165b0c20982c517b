-- ===== src/Ouch/Outbound/Layout.antt =====
-- ouch/codec.hpp: what a message from the exchange must satisfy, and its price on the wire.
use opti_trade_engine.Prelude.{
  ℕ, ◌≤◌, ◌<◌, ◌^◌, ◌≡◌, ◌⊎◌, refl, true, false, ◌&&◌, not, Option, none, some, ◌==◌, if◌then◌else◌,
  length, arith,
}
use opti_trade_engine.Core.Types.{Price}
use opti_trade_engine.Prelude.Int.{pos}
use opti_trade_engine.Core.Wire.{Bytes, load16, load32, store16, store32, load32-store32}
use opti_trade_engine.Itch.Layout.{FitsPrice}
use opti_trade_engine.Ouch.Messages.{Outbound, accepted, replaced, canceled, executed, rejected}
use opti_trade_engine.Ouch.Fields.{put_price, get_price, fits_wire_price, emit, Decoded, delivered}
use opti_trade_engine.Ouch.Outbound.{decode}

-- What a message must satisfy for its bytes to mean it.
abbrev pub Fits : Outbound → Type 0
Fits (accepted m) =
    (m.ts < 2 ^ 64)
    × (m.shares < 2 ^ 32)
    × FitsPrice m.price
    × (m.time_in_force < 2 ^ 32)
    × (m.ref < 2 ^ 64)
    × (m.min_qty < 2 ^ 32)
    × ((m.order_state ≡ b'L') ⊎ (m.order_state ≡ b'D'))
Fits (replaced m) =
    (m.a.ts < 2 ^ 64)
    × (m.a.shares < 2 ^ 32)
    × FitsPrice m.a.price
    × (m.a.time_in_force < 2 ^ 32)
    × (m.a.ref < 2 ^ 64)
    × (m.a.min_qty < 2 ^ 32)
    × ((m.a.order_state ≡ b'L') ⊎ (m.a.order_state ≡ b'D'))
Fits (canceled m) = (m.ts < 2 ^ 64) × (m.decrement < 2 ^ 32)
Fits (executed m) = (m.ts < 2 ^ 64) × (m.shares < 2 ^ 32) × FitsPrice m.price × (m.match < 2 ^ 64)
Fits (rejected m) = (m.ts < 2 ^ 64)

unfoldable pub wire_length : Outbound → ℕ
wire_length (accepted m) = 66
wire_length (replaced m) = 80
wire_length (canceled m) = 28
wire_length (executed m) = 40
wire_length (rejected m) = 24

abbrev pub Carries : Outbound → Option Bytes → Type 0
Carries m r = (bs : Bytes) × (r ≡ some bs) × (length bs ≡ wire_length m) × (decode bs ≡ delivered m)

pub emit_lem : (bytes : Bytes) (room len : ℕ) → len ≤ room → emit (some bytes) room len ≡ some bytes
unfolding emit
emit_lem bytes room len h = ground arith

pub price_back : (px : Price) → FitsPrice px → get_price (put_price px) 0 ≡ px
unfolding get_price put_price load16 load32 store16 store32
price_back px (n, e, h) = rw e (λ i. pos (load32-store32 n h i))

price_fits : (px : Price) → FitsPrice px → fits_wire_price px ≡ true
unfolding fits_wire_price
price_fits px (n, e, h) = rw e (ground arith)

-- A write of a price that fits is emitted where there is room.
pub emit_priced :
    (bytes : Bytes) (px : Price) (room len : ℕ)
    → FitsPrice px
    → len ≤ room
    → emit (if not (fits_wire_price px) then none else some bytes) room len ≡ some bytes
emit_priced bytes px room len p h = rw (price_fits px p) (emit_lem bytes room len h)

is_state : (c : ℕ) → (c ≡ b'L') ⊎ (c ≡ b'D') → (not (c == b'L') && not (c == b'D')) ≡ false
is_state c h = ground arith

pub state_passes :
    {A : Type 0} (c : ℕ) (x : A) (f : Option A → Decoded Outbound)
    → (c ≡ b'L') ⊎ (c ≡ b'D')
    → f (if not (c == b'L') && not (c == b'D') then none else some x) ≡ f (some x)
state_passes c x f h = rw (is_state c h) refl
