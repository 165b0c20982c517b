-- ===== src/Ouch/Fields.antt =====
-- include/optitrade/ouch/codec.hpp: the fields of the wire format, and what encoding and decoding have
-- in common. A write returns the bytes in order, or none where the code refuses and writes nothing.
use opti_trade_engine.Prelude.{
  ℕ, ◌+◌, Bool, true, false, ◌&&◌, [], ◌∷◌, ◌++◌, Option, none, some, ltb, leb, ◌==◌, if◌then◌else◌,
}
use opti_trade_engine.Prelude.Int.{pos, pos_part, leb_ℤ}
use opti_trade_engine.Core.Types.{Price, Qty, Side, buy, sell, max_order_qty}
use opti_trade_engine.Core.Wire.{Bytes, byte_at, load32, store16, store32, DecodeStatus, bad_field}
use opti_trade_engine.Itch.Messages.{Symbol}
use opti_trade_engine.Ouch.Messages.{Token, Firm}

unfoldable pub put_token : Token → Bytes
put_token t =
    t.t0 ∷ t.t1 ∷ t.t2 ∷ t.t3 ∷ t.t4 ∷ t.t5 ∷ t.t6 ∷ t.t7 ∷ t.t8 ∷ t.t9 ∷ t.t10 ∷ t.t11 ∷ t.t12
    ∷ t.t13 ∷ []

unfoldable pub get_token : Bytes → ℕ → Token
get_token p i = record {
  t0 = byte_at p (i + 0);
  t1 = byte_at p (i + 1);
  t2 = byte_at p (i + 2);
  t3 = byte_at p (i + 3);
  t4 = byte_at p (i + 4);
  t5 = byte_at p (i + 5);
  t6 = byte_at p (i + 6);
  t7 = byte_at p (i + 7);
  t8 = byte_at p (i + 8);
  t9 = byte_at p (i + 9);
  t10 = byte_at p (i + 10);
  t11 = byte_at p (i + 11);
  t12 = byte_at p (i + 12);
  t13 = byte_at p (i + 13);
}

unfoldable pub put_symbol : Symbol → Bytes
put_symbol s = s.c0 ∷ s.c1 ∷ s.c2 ∷ s.c3 ∷ s.c4 ∷ s.c5 ∷ s.c6 ∷ s.c7 ∷ []

unfoldable pub get_symbol : Bytes → ℕ → Symbol
get_symbol p i = record {
  c0 = byte_at p (i + 0);
  c1 = byte_at p (i + 1);
  c2 = byte_at p (i + 2);
  c3 = byte_at p (i + 3);
  c4 = byte_at p (i + 4);
  c5 = byte_at p (i + 5);
  c6 = byte_at p (i + 6);
  c7 = byte_at p (i + 7);
}

unfoldable pub put_firm : Firm → Bytes
put_firm f = f.f0 ∷ f.f1 ∷ f.f2 ∷ f.f3 ∷ []

unfoldable pub get_firm : Bytes → ℕ → Firm
get_firm p i = record {
  f0 = byte_at p (i + 0);
  f1 = byte_at p (i + 1);
  f2 = byte_at p (i + 2);
  f3 = byte_at p (i + 3);
}

-- Only called on a price that fits.
unfoldable pub put_price : Price → Bytes
unfolding store32
put_price px = store32 (pos_part px)

unfoldable pub get_price : Bytes → ℕ → Price
unfolding load32
get_price p i = pos (load32 p i)

unfoldable pub valid_order_shares : Qty → Bool
valid_order_shares q = leb 1 q && leb q max_order_qty

unfoldable pub fits_wire_price : Price → Bool
fits_wire_price px = leb_ℤ (pos 0) px && leb_ℤ px (pos 0xffffffff)

-- The side and whether it is a short sale.
unfoldable pub parse_side : ℕ → Option (Side × Bool)
parse_side c =
    if c == b'B'
    then some (buy, false)
    else if c == b'S'
    then some (sell, false)
    else if c == b'T'
    then some (sell, true)
    else if c == b'E'
    then some (sell, true)
    else none

unfoldable pub side_char : Side → Bool → ℕ
side_char buy short_sell = b'B'
side_char sell short_sell = if short_sell then b'T' else b'S'

-- `emit` and `emit_framed` of what was written; `room` is the size of the output span.
unfoldable pub emit : Option Bytes → ℕ → ℕ → Option Bytes
emit written room len = if ltb room len then none else written

unfoldable pub emit_framed : Option Bytes → ℕ → ℕ → Option Bytes
unfolding store16
emit_framed written room len =
    if ltb room (len + 2)
    then none
    else elim written [ none ↦ none | some bytes ↦ some (store16 len ++ bytes) ]

pub data Decoded (M : Type 0) : Type 0 where
  delivered : M → Decoded M
  failed : DecodeStatus → Decoded M

abbrev pub deliver : {A M : Type 0} → (A → M) → Option A → Decoded M
deliver inject none = failed bad_field
deliver inject (some a) = delivered (inject a)
