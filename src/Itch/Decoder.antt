-- ===== src/Itch/Decoder.antt =====
-- include/optitrade/itch/decoder.hpp. A decode either delivers one message to the handler, with
-- status ok, or fails with another status and delivers nothing.
use opti_trade_engine.Prelude.{
  ℕ, ◌+◌, Bool, true, false, Option, none, some, ltb, ◌==◌, if◌then◌else◌, length,
}
use opti_trade_engine.Prelude.Int.{pos}
use opti_trade_engine.Core.Types.{Price, Side, buy, sell}
use opti_trade_engine.Core.Wire.{
  Bytes, byte_at, load16, load32, load48, load64, DecodeStatus, truncated, unknown_type, bad_length,
  bad_field,
}
use opti_trade_engine.Itch.Messages.{
  Symbol, Header, Mpid, Message, system_event, stock_directory, add_order, order_executed,
  order_executed_price, order_cancel, order_delete, order_replace, trade, message_length,
}

pub data Decoded : Type 0 where
  delivered : Message → Decoded
  failed : DecodeStatus → Decoded

unfoldable pub read_header : Bytes → Header
unfolding load16 load48
read_header p = record { locate = load16 p 1; tracking = load16 p 3; timestamp = load48 p 5 }

unfoldable pub read_symbol : Bytes → ℕ → Symbol
read_symbol p i = record {
  c0 = byte_at p i;
  c1 = byte_at p (i + 1);
  c2 = byte_at p (i + 2);
  c3 = byte_at p (i + 3);
  c4 = byte_at p (i + 4);
  c5 = byte_at p (i + 5);
  c6 = byte_at p (i + 6);
  c7 = byte_at p (i + 7);
}

unfoldable pub read_price : Bytes → ℕ → Price
unfolding load32
read_price p i = pos (load32 p i)

unfoldable pub read_side : Bytes → ℕ → Option Side
read_side p i =
    if byte_at p i == b'B' then some buy else if byte_at p i == b'S' then some sell else none

unfoldable pub decode_system_event : Bytes → Decoded
unfolding read_header
decode_system_event p =
    delivered (system_event (record { h = read_header p; event_code = byte_at p 11 }))

unfoldable pub decode_stock_directory : Bytes → Decoded
unfolding read_header read_symbol load32
decode_stock_directory p = delivered (
    stock_directory (record {
      h = read_header p;
      symbol = read_symbol p 11;
      market_category = byte_at p 19;
      financial_status = byte_at p 20;
      round_lot_size = load32 p 21;
      round_lots_only = byte_at p 25;
      issue_classification = byte_at p 26;
      issue_subtype0 = byte_at p 27;
      issue_subtype1 = byte_at p 28;
      authenticity = byte_at p 29;
      short_sale_threshold = byte_at p 30;
      ipo_flag = byte_at p 31;
      luld_tier = byte_at p 32;
      etp_flag = byte_at p 33;
      etp_leverage = load32 p 34;
      inverse = byte_at p 38;
    }))

abbrev pub no_mpid : Mpid
no_mpid = record { m0 = 0; m1 = 0; m2 = 0; m3 = 0 }

unfoldable pub decode_add_order : Bytes → Bool → Decoded
unfolding read_header read_side read_symbol read_price load32 load64
decode_add_order p attributed = elim (read_side p 19) [
  | none ↦ failed bad_field
  | some side ↦
      let mpid : Mpid = record {
        m0 = byte_at p 36;
        m1 = byte_at p 37;
        m2 = byte_at p 38;
        m3 = byte_at p 39;
      } in
      if load32 p 20 == 0
      then failed bad_field
      else delivered (
          add_order (record {
            h = read_header p;
            ref = load64 p 11;
            side = side;
            shares = load32 p 20;
            symbol = read_symbol p 24;
            price = read_price p 32;
            has_attribution = attributed;
            mpid = if attributed then mpid else no_mpid;
          }))
]

unfoldable pub decode_order_executed : Bytes → Decoded
unfolding read_header load32 load64
decode_order_executed p = delivered (
    order_executed
      (record { h = read_header p; ref = load64 p 11; shares = load32 p 19; match = load64 p 23 }))

unfoldable pub decode_order_executed_price : Bytes → Decoded
unfolding read_header read_price load32 load64
decode_order_executed_price p = delivered (
    order_executed_price (record {
      h = read_header p;
      ref = load64 p 11;
      shares = load32 p 19;
      match = load64 p 23;
      printable = byte_at p 31 == b'Y';
      price = read_price p 32;
    }))

unfoldable pub decode_order_cancel : Bytes → Decoded
unfolding read_header load32 load64
decode_order_cancel p =
    delivered (order_cancel (record { h = read_header p; ref = load64 p 11; shares = load32 p 19 }))

unfoldable pub decode_order_delete : Bytes → Decoded
unfolding read_header load64
decode_order_delete p = delivered (order_delete (record { h = read_header p; ref = load64 p 11 }))

unfoldable pub decode_order_replace : Bytes → Decoded
unfolding read_header read_price load32 load64
decode_order_replace p = delivered (
    order_replace (record {
      h = read_header p;
      old_ref = load64 p 11;
      new_ref = load64 p 19;
      shares = load32 p 27;
      price = read_price p 31;
    }))

unfoldable pub decode_trade : Bytes → Decoded
unfolding read_header read_side read_symbol read_price load32 load64
decode_trade p = elim (read_side p 19) [
  | none ↦ failed bad_field
  | some side ↦ delivered (
      trade (record {
        h = read_header p;
        ref = load64 p 11;
        side = side;
        shares = load32 p 20;
        symbol = read_symbol p 24;
        price = read_price p 32;
        match = load64 p 36;
      }))
]

-- The switch on the type byte.
unfoldable pub decode_type : ℕ → Bytes → Decoded
unfolding decode_system_event decode_stock_directory decode_add_order decode_order_executed
    decode_order_executed_price decode_order_cancel decode_order_delete decode_order_replace
    decode_trade
decode_type type p =
    if type == b'S'
    then decode_system_event p
    else if type == b'R'
    then decode_stock_directory p
    else if type == b'A'
    then decode_add_order p false
    else if type == b'F'
    then decode_add_order p true
    else if type == b'E'
    then decode_order_executed p
    else if type == b'C'
    then decode_order_executed_price p
    else if type == b'X'
    then decode_order_cancel p
    else if type == b'D'
    then decode_order_delete p
    else if type == b'U'
    then decode_order_replace p
    else if type == b'P'
    then decode_trade p
    else failed unknown_type

unfoldable pub decode : Bytes → Decoded
unfolding message_length
decode msg =
    let type = byte_at msg 0 in
    let len = message_length type in
    if length msg == 0
    then failed truncated
    else if len == 0
    then failed unknown_type
    else if ltb (length msg) len
    then failed truncated
    else if ltb len (length msg)
    then failed bad_length
    else decode_type type msg
