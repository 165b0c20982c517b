-- ===== src/Itch/Layout.antt =====
-- itch/encoder.hpp against decoder.hpp: headers, prices, and what a message must satisfy.
use opti_trade_engine.Prelude.{
  ℕ, ◌≡◌, refl, ◌≢◌, ◌<◌, ◌≤◌, ◌^◌, Bool, true, false, ◌++◌, Option, some, arith, length, ◌==◌,
  if◌then◌else◌,
}
use opti_trade_engine.Prelude.Int.{pos}
use opti_trade_engine.Core.Types.{Price}
use opti_trade_engine.Core.Wire.{
  Bytes, load16, load32, load48, store16, store32, store48, load16-store16, load32-store32,
  load48-store48, bad_field,
}
use opti_trade_engine.Itch.Messages.{
  Header, Message, system_event, stock_directory, add_order, order_executed, order_executed_price,
  order_cancel, order_delete, order_replace, trade,
}
use opti_trade_engine.Itch.Encoder.{written, fits_wire_price, put_header, put_price}
use opti_trade_engine.Itch.Decoder.{
  decode, Decoded, delivered, failed, no_mpid, read_header, read_price,
}

-- The fields fit their wire fields.
pub record FitsHeader (h : Header) : Type 0 where
  pub locate : h.locate < 2 ^ 16
  pub tracking : h.tracking < 2 ^ 16
  pub timestamp : h.timestamp < 2 ^ 48

pub read_header-put_header :
    (type : ℕ) (h : Header) (rest : Bytes)
    → FitsHeader h
    → read_header (put_header type h ++ rest) ≡ h
unfolding read_header put_header load16 load32 load48 store16 store32 store48
read_header-put_header type h rest f = λ i. record {
  locate = load16-store16 h.locate f.locate i;
  tracking = load16-store16 h.tracking f.tracking i;
  timestamp = load48-store48 h.timestamp f.timestamp i;
}

-- A price that the wire can carry.
abbrev pub FitsPrice : Price → Type 0
FitsPrice px = (n : ℕ) × (px ≡ pos n) × (n < 2 ^ 32)

-- What a message must satisfy for its bytes to mean it: each number fits its field, a new order
-- has shares, and an order without attribution has the empty participant.
abbrev pub Fits : Message → Type 0
Fits (system_event m) = FitsHeader m.h
Fits (stock_directory m) = FitsHeader m.h × (m.round_lot_size < 2 ^ 32) × (m.etp_leverage < 2 ^ 32)
Fits (add_order m) =
    FitsHeader m.h
    × (m.ref < 2 ^ 64)
    × (m.shares < 2 ^ 32)
    × (m.shares ≢ 0)
    × FitsPrice m.price
    × (m.has_attribution ≡ false → m.mpid ≡ no_mpid)
Fits (order_executed m) =
    FitsHeader m.h × (m.ref < 2 ^ 64) × (m.shares < 2 ^ 32) × (m.match < 2 ^ 64)
Fits (order_executed_price m) =
    FitsHeader m.h × (m.ref < 2 ^ 64) × (m.shares < 2 ^ 32) × (m.match < 2 ^ 64) × FitsPrice m.price
Fits (order_cancel m) = FitsHeader m.h × (m.ref < 2 ^ 64) × (m.shares < 2 ^ 32)
Fits (order_delete m) = FitsHeader m.h × (m.ref < 2 ^ 64)
Fits (order_replace m) =
    FitsHeader m.h
    × (m.old_ref < 2 ^ 64)
    × (m.new_ref < 2 ^ 64)
    × (m.shares < 2 ^ 32)
    × FitsPrice m.price
Fits (trade m) =
    FitsHeader m.h × (m.ref < 2 ^ 64) × (m.shares < 2 ^ 32) × FitsPrice m.price × (m.match < 2 ^ 64)

-- The bytes that a message takes.
unfoldable pub wire_length : Message → ℕ
wire_length (system_event m) = 12
wire_length (stock_directory m) = 39
wire_length (add_order m) = if m.has_attribution then 40 else 36
wire_length (order_executed m) = 31
wire_length (order_executed_price m) = 36
wire_length (order_cancel m) = 23
wire_length (order_delete m) = 19
wire_length (order_replace m) = 35
wire_length (trade m) = 44

-- A successful encoding that is decoded again.
abbrev pub Carries : Message → Option Bytes → Type 0
Carries m r = (bs : Bytes) × (r ≡ some bs) × (length bs ≡ wire_length m) × (decode bs ≡ delivered m)

pub written_lem : (room len : ℕ) (bs : Bytes) → len ≤ room → written room len true bs ≡ some bs
written_lem room len bs h = ground arith

pub price-back : (px : Price) → FitsPrice px → read_price (put_price px) 0 ≡ px
unfolding read_price put_price load16 load32 store16 store32
price-back px (n, e, h) = rw e (λ i. pos (load32-store32 n h i))

price-fits : (px : Price) → FitsPrice px → fits_wire_price px ≡ true
unfolding fits_wire_price
price-fits px (n, e, h) = rw e (ground arith)

pub flag : (b : Bool) → ((if b then b'Y' else b'N') == b'Y') ≡ b
flag b = ground arith

eqb_ne : (n : ℕ) → n ≢ 0 → (n == 0) ≡ false
eqb_ne n h = ground arith

pub nonzero_then : {d : Decoded} (n : ℕ) → n ≢ 0 → (if n == 0 then failed bad_field else d) ≡ d
nonzero_then n h = rw (eqb_ne n h) refl

pub written_price :
    (room len : ℕ) (bs : Bytes) (px : Price)
    → FitsPrice px
    → len ≤ room
    → written room len (fits_wire_price px) bs ≡ some bs
written_price room len bs px p h = rw (price-fits px p) (written_lem room len bs h)
