-- ===== src/Ouch/Outbound.antt =====
-- include/optitrade/ouch/codec.hpp: the messages from the exchange.
use opti_trade_engine.Prelude.{
  ℕ, Bool, true, false, ◌&&◌, not, List, [], ◌∷◌, ◌++◌, Option, none, some, ltb, ◌==◌,
  if◌then◌else◌, length,
}
use opti_trade_engine.Core.Types.{Side}
use opti_trade_engine.Core.Wire.{
  Bytes, byte_at, load32, load64, store32, store64, truncated, unknown_type, bad_length,
}
use opti_trade_engine.Ouch.Messages.{
  Accepted, Replaced, Canceled, Executed, Rejected, Outbound, accepted, replaced, canceled,
  executed, rejected, accepted_length, replaced_length, canceled_length, executed_length,
  rejected_length, outbound_length,
}
use opti_trade_engine.Ouch.Fields.{
  put_token, get_token, put_symbol, get_symbol, put_firm, get_firm, put_price, get_price,
  valid_order_shares, fits_wire_price, parse_side, side_char, emit, emit_framed, Decoded, failed,
  deliver,
}
pub mod Reports
pub mod Layout
pub mod Accepts
pub mod RoundTrip

-- The bytes that an accept and a replace share.
unfoldable pub write_accepted_common : ℕ → Accepted → Bytes
unfolding put_token put_symbol put_firm put_price store32 store64 side_char fits_wire_price
write_accepted_common type m =
    (type ∷ [])
    ++ (store64 m.ts
        ++ (put_token m.token
            ++ ((side_char m.side false ∷ [])
                ++ (store32 m.shares
                    ++ (put_symbol m.stock
                        ++ (put_price m.price
                            ++ (store32 m.time_in_force
                                ++ (put_firm m.firm
                                    ++ ((m.display ∷ [])
                                        ++ (store64 m.ref
                                            ++ ((m.capacity ∷ [])
                                                ++ ((m.intermarket_sweep ∷ [])
                                                    ++ (store32 m.min_qty
                                                        ++ ((m.cross_type ∷ [])
                                                            ++ ((m.order_state ∷ []))))))))))))))))

-- `bbo_weight` is read by the callers.
unfoldable pub read_accepted_common : Bytes → Option Accepted
unfolding get_token get_symbol get_firm get_price load32 load64 parse_side valid_order_shares
read_accepted_common p = elim (parse_side (byte_at p 23)) [
  | none ↦ none
  | some (side, short_sell) ↦
      if not (byte_at p 64 == b'L') && not (byte_at p 64 == b'D')
      then none
      else some (record {
        ts = load64 p 1;
        token = get_token p 9;
        side = side;
        shares = load32 p 24;
        stock = get_symbol p 28;
        price = get_price p 36;
        time_in_force = load32 p 40;
        firm = get_firm p 44;
        display = byte_at p 48;
        ref = load64 p 49;
        capacity = byte_at p 57;
        intermarket_sweep = byte_at p 58;
        min_qty = load32 p 59;
        cross_type = byte_at p 63;
        order_state = byte_at p 64;
        bbo_weight = b' ';
      })
]

unfoldable pub write_accepted : Accepted → Option Bytes
unfolding put_token put_symbol put_firm put_price store32 store64 side_char fits_wire_price
    write_accepted_common
write_accepted m =
    if not (fits_wire_price m.price)
    then none
    else some (write_accepted_common b'A' m ++ (m.bbo_weight ∷ []))

unfoldable pub read_accepted : Bytes → Option Accepted
unfolding get_token get_symbol get_firm get_price load32 load64 parse_side valid_order_shares
    read_accepted_common
read_accepted p = elim (read_accepted_common p) [
  | none ↦ none
  | some m ↦ some (record m { bbo_weight = byte_at p 65 })
]

unfoldable pub write_replaced : Replaced → Option Bytes
unfolding put_token put_symbol put_firm put_price store32 store64 side_char fits_wire_price
    write_accepted_common
write_replaced m =
    if not (fits_wire_price m.a.price)
    then none
    else some (write_accepted_common b'U' m.a ++ (put_token m.previous ++ (m.a.bbo_weight ∷ [])))

unfoldable pub read_replaced : Bytes → Option Replaced
unfolding get_token get_symbol get_firm get_price load32 load64 parse_side valid_order_shares
    read_accepted_common
read_replaced p = elim (read_accepted_common p) [
  | none ↦ none
  | some m ↦ some (record { a = record m { bbo_weight = byte_at p 79 }; previous = get_token p 65 })
]

unfoldable pub write_canceled : Canceled → Option Bytes
unfolding put_token put_symbol put_firm put_price store32 store64 side_char fits_wire_price
write_canceled m = some (
    (b'C' ∷ [])
    ++ (store64 m.ts ++ (put_token m.token ++ (store32 m.decrement ++ ((m.reason ∷ []))))))

unfoldable pub read_canceled : Bytes → Option Canceled
unfolding get_token get_symbol get_firm get_price load32 load64 parse_side valid_order_shares
read_canceled p = some (record {
  ts = load64 p 1;
  token = get_token p 9;
  decrement = load32 p 23;
  reason = byte_at p 27;
})

unfoldable pub write_executed : Executed → Option Bytes
unfolding put_token put_symbol put_firm put_price store32 store64 side_char fits_wire_price
write_executed m =
    if not (fits_wire_price m.price)
    then none
    else some (
        (b'E' ∷ [])
        ++ (store64 m.ts
            ++ (put_token m.token
                ++ (store32 m.shares
                    ++ (put_price m.price ++ ((m.liquidity ∷ []) ++ (store64 m.match)))))))

unfoldable pub read_executed : Bytes → Option Executed
unfolding get_token get_symbol get_firm get_price load32 load64 parse_side valid_order_shares
read_executed p = some (record {
  ts = load64 p 1;
  token = get_token p 9;
  shares = load32 p 23;
  price = get_price p 27;
  liquidity = byte_at p 31;
  match = load64 p 32;
})

unfoldable pub write_rejected : Rejected → Option Bytes
unfolding put_token put_symbol put_firm put_price store32 store64 side_char fits_wire_price
write_rejected m = some ((b'J' ∷ []) ++ (store64 m.ts ++ (put_token m.token ++ ((m.reason ∷ [])))))

unfoldable pub read_rejected : Bytes → Option Rejected
unfolding get_token get_symbol get_firm get_price load32 load64 parse_side valid_order_shares
read_rejected p = some (record { ts = load64 p 1; token = get_token p 9; reason = byte_at p 23 })

unfoldable pub encode : Outbound → ℕ → Option Bytes
unfolding emit write_accepted write_replaced write_canceled write_executed write_rejected
encode (accepted m) room = emit (write_accepted m) room accepted_length
encode (replaced m) room = emit (write_replaced m) room replaced_length
encode (canceled m) room = emit (write_canceled m) room canceled_length
encode (executed m) room = emit (write_executed m) room executed_length
encode (rejected m) room = emit (write_rejected m) room rejected_length

unfoldable pub encode_framed : Outbound → ℕ → Option Bytes
unfolding emit_framed write_accepted write_replaced write_canceled write_executed write_rejected
encode_framed (accepted m) room = emit_framed (write_accepted m) room accepted_length
encode_framed (replaced m) room = emit_framed (write_replaced m) room replaced_length
encode_framed (canceled m) room = emit_framed (write_canceled m) room canceled_length
encode_framed (executed m) room = emit_framed (write_executed m) room executed_length
encode_framed (rejected m) room = emit_framed (write_rejected m) room rejected_length

-- The switch on the type byte.
unfoldable pub decode_type : ℕ → Bytes → Decoded Outbound
unfolding read_accepted read_replaced read_canceled read_executed read_rejected
decode_type type p =
    if type == b'A'
    then deliver accepted (read_accepted p)
    else if type == b'U'
    then deliver replaced (read_replaced p)
    else if type == b'C'
    then deliver canceled (read_canceled p)
    else if type == b'E'
    then deliver executed (read_executed p)
    else if type == b'J'
    then deliver rejected (read_rejected p)
    else failed unknown_type

unfoldable pub decode : Bytes → Decoded Outbound
unfolding decode_type outbound_length
decode msg =
    let type = byte_at msg 0 in
    let len = outbound_length type in
    if length msg == 0
    then failed truncated
    else if len == 0
    then failed unknown_type
    else if ltb (length msg) len
    then failed truncated
    else if ltb len (length msg)
    then failed bad_length
    else decode_type type msg
