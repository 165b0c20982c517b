-- ===== src/Ouch/Inbound.antt =====
-- include/optitrade/ouch/codec.hpp: the messages to the exchange.
use opti_trade_engine.Prelude.{
  ℕ, Bool, true, false, ◌&&◌, not, List, [], ◌∷◌, ◌++◌, Option, none, some, ltb, ◌==◌,
  if◌then◌else◌, length,
}
use opti_trade_engine.Core.Types.{Side}
use opti_trade_engine.Core.Wire.{
  Bytes, byte_at, load32, load64, store32, store64, truncated, unknown_type, bad_length,
}
use opti_trade_engine.Ouch.Messages.{
  EnterOrder, ReplaceOrder, CancelOrder, Inbound, enter_order, replace_order, cancel_order,
  enter_order_length, replace_order_length, cancel_order_length, inbound_length,
}
use opti_trade_engine.Ouch.Fields.{
  put_token, get_token, put_symbol, get_symbol, put_firm, get_firm, put_price, get_price,
  valid_order_shares, fits_wire_price, parse_side, side_char, emit, emit_framed, Decoded, failed,
  deliver,
}
pub mod Enter
pub mod Layout
pub mod RoundTrip

unfoldable pub write_enter_order : EnterOrder → Option Bytes
unfolding put_token put_symbol put_firm put_price store32 store64 side_char fits_wire_price
write_enter_order m =
    if not (fits_wire_price m.price)
    then none
    else some (
        (b'O' ∷ [])
        ++ (put_token m.token
            ++ ((side_char m.side m.short_sell ∷ [])
                ++ (store32 m.shares
                    ++ (put_symbol m.stock
                        ++ (put_price m.price
                            ++ (store32 m.time_in_force
                                ++ (put_firm m.firm
                                    ++ ((m.display ∷ [])
                                        ++ ((m.capacity ∷ [])
                                            ++ ((m.intermarket_sweep ∷ [])
                                                ++ (store32 m.min_qty
                                                    ++ ((m.cross_type ∷ [])
                                                        ++ ((m.customer_type ∷ [])))))))))))))))

unfoldable pub read_enter_order : Bytes → Option EnterOrder
unfolding get_token get_symbol get_firm get_price load32 load64 parse_side valid_order_shares
read_enter_order p = elim (parse_side (byte_at p 15)) [
  | none ↦ none
  | some (side, short_sell) ↦
      if not (valid_order_shares (load32 p 16))
      then none
      else some (record {
        token = get_token p 1;
        side = side;
        short_sell = short_sell;
        shares = load32 p 16;
        stock = get_symbol p 20;
        price = get_price p 28;
        time_in_force = load32 p 32;
        firm = get_firm p 36;
        display = byte_at p 40;
        capacity = byte_at p 41;
        intermarket_sweep = byte_at p 42;
        min_qty = load32 p 43;
        cross_type = byte_at p 47;
        customer_type = byte_at p 48;
      })
]

unfoldable pub write_replace_order : ReplaceOrder → Option Bytes
unfolding put_token put_symbol put_firm put_price store32 store64 side_char fits_wire_price
write_replace_order m =
    if not (fits_wire_price m.price)
    then none
    else some (
        (b'U' ∷ [])
        ++ (put_token m.existing
            ++ (put_token m.replacement
                ++ (store32 m.shares
                    ++ (put_price m.price
                        ++ (store32 m.time_in_force
                            ++ ((m.display ∷ [])
                                ++ ((m.intermarket_sweep ∷ []) ++ (store32 m.min_qty)))))))))

unfoldable pub read_replace_order : Bytes → Option ReplaceOrder
unfolding get_token get_symbol get_firm get_price load32 load64 parse_side valid_order_shares
read_replace_order p =
    if not (valid_order_shares (load32 p 29))
    then none
    else some (record {
      existing = get_token p 1;
      replacement = get_token p 15;
      shares = load32 p 29;
      price = get_price p 33;
      time_in_force = load32 p 37;
      display = byte_at p 41;
      intermarket_sweep = byte_at p 42;
      min_qty = load32 p 43;
    })

unfoldable pub write_cancel_order : CancelOrder → Option Bytes
unfolding put_token put_symbol put_firm put_price store32 store64 side_char fits_wire_price
write_cancel_order m = some ((b'X' ∷ []) ++ (put_token m.token ++ (store32 m.shares)))

unfoldable pub read_cancel_order : Bytes → Option CancelOrder
unfolding get_token get_symbol get_firm get_price load32 load64 parse_side valid_order_shares
read_cancel_order p = some (record { token = get_token p 1; shares = load32 p 15 })

unfoldable pub encode : Inbound → ℕ → Option Bytes
unfolding emit write_enter_order write_replace_order write_cancel_order
encode (enter_order m) room = emit (write_enter_order m) room enter_order_length
encode (replace_order m) room = emit (write_replace_order m) room replace_order_length
encode (cancel_order m) room = emit (write_cancel_order m) room cancel_order_length

unfoldable pub encode_framed : Inbound → ℕ → Option Bytes
unfolding emit_framed write_enter_order write_replace_order write_cancel_order
encode_framed (enter_order m) room = emit_framed (write_enter_order m) room enter_order_length
encode_framed (replace_order m) room = emit_framed (write_replace_order m) room replace_order_length
encode_framed (cancel_order m) room = emit_framed (write_cancel_order m) room cancel_order_length

-- The switch on the type byte.
unfoldable pub decode_type : ℕ → Bytes → Decoded Inbound
unfolding read_enter_order read_replace_order read_cancel_order
decode_type type p =
    if type == b'O'
    then deliver enter_order (read_enter_order p)
    else if type == b'U'
    then deliver replace_order (read_replace_order p)
    else if type == b'X'
    then deliver cancel_order (read_cancel_order p)
    else failed unknown_type

unfoldable pub decode : Bytes → Decoded Inbound
unfolding decode_type inbound_length
decode msg =
    let type = byte_at msg 0 in
    let len = inbound_length type in
    if length msg == 0
    then failed truncated
    else if len == 0
    then failed unknown_type
    else if ltb (length msg) len
    then failed truncated
    else if ltb len (length msg)
    then failed bad_length
    else decode_type type msg
