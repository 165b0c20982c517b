-- ===== src/Ouch/Outbound/Reports.antt =====
-- ouch/codec.hpp: what the exchange reports of an order, but for a replacement.
use opti_trade_engine.Prelude.{
  ℕ, ◌≤◌, ◌<◌, ◌^◌, ◌≡◌, ◌⊎◌, refl, ◌∙◌, ◌&&◌, not, Option, none, some, ◌==◌, if◌then◌else◌,
}
use opti_trade_engine.Core.Types.{buy, sell}
use opti_trade_engine.Core.Wire.{
  load16, load32, load64, store16, store32, store64, load32-store32, load64-store64,
}
use opti_trade_engine.Itch.Layout.{FitsPrice}
use opti_trade_engine.Ouch.Messages.{
  Accepted, Canceled, Executed, Rejected, Outbound, accepted, canceled, executed, rejected,
  outbound_length,
}
use opti_trade_engine.Ouch.Fields.{
  put_token, get_token, put_symbol, get_symbol, put_firm, get_firm, put_price, get_price,
  parse_side, side_char, emit, Decoded, delivered, deliver,
}
use opti_trade_engine.Ouch.Outbound.{
  decode, decode_type, write_accepted, write_canceled, write_executed, write_rejected,
  read_accepted, read_canceled, read_executed, read_rejected, write_accepted_common,
  read_accepted_common,
}
use opti_trade_engine.Ouch.Outbound.Layout.{
  Fits, wire_length, Carries, emit_lem, price_back, emit_priced, state_passes,
}

pub canceled-Carries :
    (m : Canceled) (room : ℕ)
    → Fits (canceled m)
    → 28 ≤ room
    → Carries (canceled m) (emit (write_canceled m) room 28)
unfolding decode decode_type outbound_length get_token get_symbol get_firm get_price parse_side
    put_token put_symbol put_firm put_price side_char load16 load32 load64 store16 store32 store64
    write_canceled read_canceled wire_length
canceled-Carries m room (h_ts, h_decrement) k = (
  _,
  emit_lem _ room _ k,
  refl,
  λ i. delivered (
      canceled (record {
        ts = load64-store64 m.ts h_ts i;
        token = m.token;
        decrement = load32-store32 m.decrement h_decrement i;
        reason = m.reason;
      })),
)

pub executed-Carries :
    (m : Executed) (room : ℕ)
    → Fits (executed m)
    → 40 ≤ room
    → Carries (executed m) (emit (write_executed m) room 40)
unfolding decode decode_type outbound_length get_token get_symbol get_firm get_price parse_side
    put_token put_symbol put_firm put_price side_char load16 load32 load64 store16 store32 store64
    write_executed read_executed wire_length
executed-Carries m room (h_ts, h_shares, p, h_match) k = (
  _,
  emit_priced _ _ room _ p k,
  refl,
  λ i. delivered (
      executed (record {
        ts = load64-store64 m.ts h_ts i;
        token = m.token;
        shares = load32-store32 m.shares h_shares i;
        price = price_back m.price p i;
        liquidity = m.liquidity;
        match = load64-store64 m.match h_match i;
      })),
)

pub rejected-Carries :
    (m : Rejected) (room : ℕ)
    → Fits (rejected m)
    → 24 ≤ room
    → Carries (rejected m) (emit (write_rejected m) room 24)
unfolding decode decode_type outbound_length get_token get_symbol get_firm get_price parse_side
    put_token put_symbol put_firm put_price side_char load16 load32 load64 store16 store32 store64
    write_rejected read_rejected wire_length
rejected-Carries m room h_ts k = (
  _,
  emit_lem _ room _ k,
  refl,
  λ i.
      delivered
        (rejected (record { ts = load64-store64 m.ts h_ts i; token = m.token; reason = m.reason })),
)

accepted_buy-Carries :
    (m : Accepted) (room : ℕ)
    → (m.ts < 2 ^ 64)
    → (m.shares < 2 ^ 32)
    → FitsPrice m.price
    → (m.time_in_force < 2 ^ 32)
    → (m.ref < 2 ^ 64)
    → (m.min_qty < 2 ^ 32)
    → ((m.order_state ≡ b'L') ⊎ (m.order_state ≡ b'D'))
    → 66 ≤ room
    → Carries
        (accepted (record m { side = buy }))
        (emit (write_accepted (record m { side = buy })) room 66)
unfolding decode decode_type outbound_length get_token get_symbol get_firm get_price parse_side
    put_token put_symbol put_firm put_price side_char load16 load32 load64 store16 store32 store64
    write_accepted read_accepted write_accepted_common read_accepted_common wire_length
accepted_buy-Carries m room h_ts h_shares p h_time_in_force h_ref h_min_qty st k =
    let after : Option Accepted → Decoded Outbound = (λ (o : Option Accepted).
      deliver accepted
        (elim o [ none ↦ none | some x ↦ some (record x { bbo_weight = m.bbo_weight }) ])) in
    (
      _,
      emit_priced _ _ room _ p k,
      refl,
      (λ i. after (
            if not (m.order_state == b'L') && not (m.order_state == b'D')
            then none
            else some (record {
              ts = load64-store64 m.ts h_ts i;
              token = m.token;
              side = buy;
              shares = load32-store32 m.shares h_shares i;
              stock = m.stock;
              price = price_back m.price p i;
              time_in_force = load32-store32 m.time_in_force h_time_in_force i;
              firm = m.firm;
              display = m.display;
              ref = load64-store64 m.ref h_ref i;
              capacity = m.capacity;
              intermarket_sweep = m.intermarket_sweep;
              min_qty = load32-store32 m.min_qty h_min_qty i;
              cross_type = m.cross_type;
              order_state = m.order_state;
              bbo_weight = b' ';
            })))
          ∙ state_passes m.order_state (record m { side = buy; bbo_weight = b' ' }) after st,
    )

accepted_sell-Carries :
    (m : Accepted) (room : ℕ)
    → (m.ts < 2 ^ 64)
    → (m.shares < 2 ^ 32)
    → FitsPrice m.price
    → (m.time_in_force < 2 ^ 32)
    → (m.ref < 2 ^ 64)
    → (m.min_qty < 2 ^ 32)
    → ((m.order_state ≡ b'L') ⊎ (m.order_state ≡ b'D'))
    → 66 ≤ room
    → Carries
        (accepted (record m { side = sell }))
        (emit (write_accepted (record m { side = sell })) room 66)
unfolding decode decode_type outbound_length get_token get_symbol get_firm get_price parse_side
    put_token put_symbol put_firm put_price side_char load16 load32 load64 store16 store32 store64
    write_accepted read_accepted write_accepted_common read_accepted_common wire_length
accepted_sell-Carries m room h_ts h_shares p h_time_in_force h_ref h_min_qty st k =
    let after : Option Accepted → Decoded Outbound = (λ (o : Option Accepted).
      deliver accepted
        (elim o [ none ↦ none | some x ↦ some (record x { bbo_weight = m.bbo_weight }) ])) in
    (
      _,
      emit_priced _ _ room _ p k,
      refl,
      (λ i. after (
            if not (m.order_state == b'L') && not (m.order_state == b'D')
            then none
            else some (record {
              ts = load64-store64 m.ts h_ts i;
              token = m.token;
              side = sell;
              shares = load32-store32 m.shares h_shares i;
              stock = m.stock;
              price = price_back m.price p i;
              time_in_force = load32-store32 m.time_in_force h_time_in_force i;
              firm = m.firm;
              display = m.display;
              ref = load64-store64 m.ref h_ref i;
              capacity = m.capacity;
              intermarket_sweep = m.intermarket_sweep;
              min_qty = load32-store32 m.min_qty h_min_qty i;
              cross_type = m.cross_type;
              order_state = m.order_state;
              bbo_weight = b' ';
            })))
          ∙ state_passes m.order_state (record m { side = sell; bbo_weight = b' ' }) after st,
    )

pub accepted-Carries :
    (m : Accepted) (room : ℕ)
    → Fits (accepted m)
    → 66 ≤ room
    → Carries (accepted m) (emit (write_accepted m) room 66)
accepted-Carries m room (h_ts, h_shares, p, h_time_in_force, h_ref, h_min_qty, st) k =
    elim m.side
      as (λ sd.
        Carries (accepted (record m { side = sd }))
          (emit (write_accepted (record m { side = sd })) room 66)) [
            | buy ↦ accepted_buy-Carries m room h_ts h_shares p h_time_in_force h_ref h_min_qty st k
            | sell ↦
                accepted_sell-Carries m room h_ts h_shares p h_time_in_force h_ref h_min_qty st k
          ]
