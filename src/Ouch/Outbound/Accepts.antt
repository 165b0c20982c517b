-- ===== src/Ouch/Outbound/Accepts.antt =====
-- ouch/codec.hpp: the messages from the exchange, one by one.
use opti_trade_engine.Prelude.{
  ℕ, ◌≤◌, ◌<◌, ◌^◌, ◌≡◌, ◌⊎◌, refl, ◌∙◌, ◌&&◌, not, Option, none, some, ◌==◌, if◌then◌else◌,
}
use opti_trade_engine.Core.Types.{buy, sell}
use opti_trade_engine.Core.Wire.{
  load16, load32, load64, store16, store32, store64, load32-store32, load64-store64,
}
use opti_trade_engine.Itch.Layout.{FitsPrice}
use opti_trade_engine.Ouch.Messages.{Accepted, Replaced, Outbound, replaced, outbound_length}
use opti_trade_engine.Ouch.Fields.{
  put_token, get_token, put_symbol, get_symbol, put_firm, get_firm, put_price, get_price,
  parse_side, side_char, emit, Decoded, deliver,
}
use opti_trade_engine.Ouch.Outbound.{
  decode, decode_type, write_replaced, read_replaced, write_accepted_common, read_accepted_common,
}
use opti_trade_engine.Ouch.Outbound.Layout.{
  Fits, wire_length, Carries, price_back, emit_priced, state_passes,
}

replaced_buy-Carries :
    (m : Replaced) (room : ℕ)
    → (m.a.ts < 2 ^ 64)
    → (m.a.shares < 2 ^ 32)
    → FitsPrice m.a.price
    → (m.a.time_in_force < 2 ^ 32)
    → (m.a.ref < 2 ^ 64)
    → (m.a.min_qty < 2 ^ 32)
    → ((m.a.order_state ≡ b'L') ⊎ (m.a.order_state ≡ b'D'))
    → 80 ≤ room
    → Carries
        (replaced (record m { a = record m.a { side = buy } }))
        (emit (write_replaced (record m { a = record m.a { side = buy } })) room 80)
unfolding decode decode_type outbound_length get_token get_symbol get_firm get_price parse_side
    put_token put_symbol put_firm put_price side_char load16 load32 load64 store16 store32 store64
    write_replaced read_replaced write_accepted_common read_accepted_common wire_length
replaced_buy-Carries m room h_ts h_shares p h_time_in_force h_ref h_min_qty st k =
    let after : Option Accepted → Decoded Outbound = (λ (o : Option Accepted).
      deliver replaced (elim o [
        | none ↦ none
        | some x ↦
            some (record { a = record x { bbo_weight = m.a.bbo_weight }; previous = m.previous })
      ])) in
    (
      _,
      emit_priced _ _ room _ p k,
      refl,
      (λ i. after (
            if not (m.a.order_state == b'L') && not (m.a.order_state == b'D')
            then none
            else some (record {
              ts = load64-store64 m.a.ts h_ts i;
              token = m.a.token;
              side = buy;
              shares = load32-store32 m.a.shares h_shares i;
              stock = m.a.stock;
              price = price_back m.a.price p i;
              time_in_force = load32-store32 m.a.time_in_force h_time_in_force i;
              firm = m.a.firm;
              display = m.a.display;
              ref = load64-store64 m.a.ref h_ref i;
              capacity = m.a.capacity;
              intermarket_sweep = m.a.intermarket_sweep;
              min_qty = load32-store32 m.a.min_qty h_min_qty i;
              cross_type = m.a.cross_type;
              order_state = m.a.order_state;
              bbo_weight = b' ';
            })))
          ∙ state_passes m.a.order_state (record m.a { side = buy; bbo_weight = b' ' }) after st,
    )

replaced_sell-Carries :
    (m : Replaced) (room : ℕ)
    → (m.a.ts < 2 ^ 64)
    → (m.a.shares < 2 ^ 32)
    → FitsPrice m.a.price
    → (m.a.time_in_force < 2 ^ 32)
    → (m.a.ref < 2 ^ 64)
    → (m.a.min_qty < 2 ^ 32)
    → ((m.a.order_state ≡ b'L') ⊎ (m.a.order_state ≡ b'D'))
    → 80 ≤ room
    → Carries
        (replaced (record m { a = record m.a { side = sell } }))
        (emit (write_replaced (record m { a = record m.a { side = sell } })) room 80)
unfolding decode decode_type outbound_length get_token get_symbol get_firm get_price parse_side
    put_token put_symbol put_firm put_price side_char load16 load32 load64 store16 store32 store64
    write_replaced read_replaced write_accepted_common read_accepted_common wire_length
replaced_sell-Carries m room h_ts h_shares p h_time_in_force h_ref h_min_qty st k =
    let after : Option Accepted → Decoded Outbound = (λ (o : Option Accepted).
      deliver replaced (elim o [
        | none ↦ none
        | some x ↦
            some (record { a = record x { bbo_weight = m.a.bbo_weight }; previous = m.previous })
      ])) in
    (
      _,
      emit_priced _ _ room _ p k,
      refl,
      (λ i. after (
            if not (m.a.order_state == b'L') && not (m.a.order_state == b'D')
            then none
            else some (record {
              ts = load64-store64 m.a.ts h_ts i;
              token = m.a.token;
              side = sell;
              shares = load32-store32 m.a.shares h_shares i;
              stock = m.a.stock;
              price = price_back m.a.price p i;
              time_in_force = load32-store32 m.a.time_in_force h_time_in_force i;
              firm = m.a.firm;
              display = m.a.display;
              ref = load64-store64 m.a.ref h_ref i;
              capacity = m.a.capacity;
              intermarket_sweep = m.a.intermarket_sweep;
              min_qty = load32-store32 m.a.min_qty h_min_qty i;
              cross_type = m.a.cross_type;
              order_state = m.a.order_state;
              bbo_weight = b' ';
            })))
          ∙ state_passes m.a.order_state (record m.a { side = sell; bbo_weight = b' ' }) after st,
    )

pub replaced-Carries :
    (m : Replaced) (room : ℕ)
    → Fits (replaced m)
    → 80 ≤ room
    → Carries (replaced m) (emit (write_replaced m) room 80)
replaced-Carries m room (h_ts, h_shares, p, h_time_in_force, h_ref, h_min_qty, st) k =
    elim m.a.side
      as (λ sd.
        Carries (replaced (record m { a = record m.a { side = sd } }))
          (emit (write_replaced (record m { a = record m.a { side = sd } })) room 80)) [
            | buy ↦ replaced_buy-Carries m room h_ts h_shares p h_time_in_force h_ref h_min_qty st k
            | sell ↦
                replaced_sell-Carries m room h_ts h_shares p h_time_in_force h_ref h_min_qty st k
          ]
