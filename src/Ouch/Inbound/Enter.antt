-- ===== src/Ouch/Inbound/Enter.antt =====
-- ouch/codec.hpp: the messages to the exchange, one by one.
use opti_trade_engine.Prelude.{
  ℕ, ◌≤◌, ◌<◌, ◌^◌, refl, ◌∙◌, true, false, not, none, some, if◌then◌else◌, arith,
}
use opti_trade_engine.Core.Types.{buy, sell, max_order_qty}
use opti_trade_engine.Core.Wire.{load16, load32, load64, store16, store32, store64, load32-store32}
use opti_trade_engine.Itch.Layout.{FitsPrice}
use opti_trade_engine.Ouch.Messages.{
  EnterOrder, ReplaceOrder, CancelOrder, enter_order, replace_order, cancel_order, inbound_length,
}
use opti_trade_engine.Ouch.Fields.{
  put_token, get_token, put_symbol, get_symbol, put_firm, get_firm, put_price, get_price,
  valid_order_shares, parse_side, side_char, emit, delivered, deliver,
}
use opti_trade_engine.Ouch.Inbound.{
  decode, decode_type, write_enter_order, write_replace_order, write_cancel_order, read_enter_order,
  read_replace_order, read_cancel_order,
}
use opti_trade_engine.Ouch.Inbound.Layout.{
  Fits, wire_length, Carries, emit_lem, price_back, emit_priced, valid_passes,
}

pub replace_order-Carries :
    (m : ReplaceOrder) (room : ℕ)
    → Fits (replace_order m)
    → 47 ≤ room
    → Carries (replace_order m) (emit (write_replace_order m) room 47)
unfolding decode decode_type inbound_length get_token get_symbol get_firm get_price parse_side
    put_token put_symbol put_firm put_price side_char load16 load32 load64 store16 store32 store64
    write_replace_order read_replace_order wire_length
replace_order-Carries m room ((v0, v1), p, h_time_in_force, h_min_qty) k =
    let h_shares : m.shares < 2 ^ 32 = omega arith in
    (
      _,
      emit_priced _ _ room _ p k,
      refl,
      (λ i. deliver replace_order (
            if not (valid_order_shares (load32-store32 m.shares h_shares i))
            then none
            else some (record {
              existing = m.existing;
              replacement = m.replacement;
              shares = load32-store32 m.shares h_shares i;
              price = price_back m.price p i;
              time_in_force = load32-store32 m.time_in_force h_time_in_force i;
              display = m.display;
              intermarket_sweep = m.intermarket_sweep;
              min_qty = load32-store32 m.min_qty h_min_qty i;
            })))
          ∙ valid_passes m.shares m (deliver replace_order) v0 v1,
    )

pub cancel_order-Carries :
    (m : CancelOrder) (room : ℕ)
    → Fits (cancel_order m)
    → 19 ≤ room
    → Carries (cancel_order m) (emit (write_cancel_order m) room 19)
unfolding decode decode_type inbound_length get_token get_symbol get_firm get_price parse_side
    put_token put_symbol put_firm put_price side_char load16 load32 load64 store16 store32 store64
    write_cancel_order read_cancel_order wire_length
cancel_order-Carries m room h_shares k = (
  _,
  emit_lem _ room _ k,
  refl,
  λ i.
      delivered
        (cancel_order (record { token = m.token; shares = load32-store32 m.shares h_shares i })),
)

pub enter_order_buy_long-Carries :
    (m : EnterOrder) (room : ℕ)
    → 0 < m.shares
    → m.shares ≤ max_order_qty
    → FitsPrice m.price
    → m.time_in_force < 2 ^ 32
    → m.min_qty < 2 ^ 32
    → 49 ≤ room
    → Carries
        (enter_order (record m { side = buy; short_sell = false }))
        (emit (write_enter_order (record m { side = buy; short_sell = false })) room 49)
unfolding decode decode_type inbound_length get_token get_symbol get_firm get_price parse_side
    put_token put_symbol put_firm put_price side_char load16 load32 load64 store16 store32 store64
    write_enter_order read_enter_order wire_length
enter_order_buy_long-Carries m room v0 v1 p h_time_in_force h_min_qty k =
    let h_shares : m.shares < 2 ^ 32 = omega arith in
    (
      _,
      emit_priced _ _ room _ p k,
      refl,
      (λ i. deliver enter_order (
            if not (valid_order_shares (load32-store32 m.shares h_shares i))
            then none
            else some (record {
              token = m.token;
              side = buy;
              short_sell = false;
              shares = load32-store32 m.shares h_shares i;
              stock = m.stock;
              price = price_back m.price p i;
              time_in_force = load32-store32 m.time_in_force h_time_in_force i;
              firm = m.firm;
              display = m.display;
              capacity = m.capacity;
              intermarket_sweep = m.intermarket_sweep;
              min_qty = load32-store32 m.min_qty h_min_qty i;
              cross_type = m.cross_type;
              customer_type = m.customer_type;
            })))
          ∙ valid_passes m.shares (record m { side = buy; short_sell = false })
              (deliver enter_order) v0 v1,
    )

pub enter_order_sell_long-Carries :
    (m : EnterOrder) (room : ℕ)
    → 0 < m.shares
    → m.shares ≤ max_order_qty
    → FitsPrice m.price
    → m.time_in_force < 2 ^ 32
    → m.min_qty < 2 ^ 32
    → 49 ≤ room
    → Carries
        (enter_order (record m { side = sell; short_sell = false }))
        (emit (write_enter_order (record m { side = sell; short_sell = false })) room 49)
unfolding decode decode_type inbound_length get_token get_symbol get_firm get_price parse_side
    put_token put_symbol put_firm put_price side_char load16 load32 load64 store16 store32 store64
    write_enter_order read_enter_order wire_length
enter_order_sell_long-Carries m room v0 v1 p h_time_in_force h_min_qty k =
    let h_shares : m.shares < 2 ^ 32 = omega arith in
    (
      _,
      emit_priced _ _ room _ p k,
      refl,
      (λ i. deliver enter_order (
            if not (valid_order_shares (load32-store32 m.shares h_shares i))
            then none
            else some (record {
              token = m.token;
              side = sell;
              short_sell = false;
              shares = load32-store32 m.shares h_shares i;
              stock = m.stock;
              price = price_back m.price p i;
              time_in_force = load32-store32 m.time_in_force h_time_in_force i;
              firm = m.firm;
              display = m.display;
              capacity = m.capacity;
              intermarket_sweep = m.intermarket_sweep;
              min_qty = load32-store32 m.min_qty h_min_qty i;
              cross_type = m.cross_type;
              customer_type = m.customer_type;
            })))
          ∙ valid_passes m.shares (record m { side = sell; short_sell = false })
              (deliver enter_order) v0 v1,
    )

pub enter_order_sell_short-Carries :
    (m : EnterOrder) (room : ℕ)
    → 0 < m.shares
    → m.shares ≤ max_order_qty
    → FitsPrice m.price
    → m.time_in_force < 2 ^ 32
    → m.min_qty < 2 ^ 32
    → 49 ≤ room
    → Carries
        (enter_order (record m { side = sell; short_sell = true }))
        (emit (write_enter_order (record m { side = sell; short_sell = true })) room 49)
unfolding decode decode_type inbound_length get_token get_symbol get_firm get_price parse_side
    put_token put_symbol put_firm put_price side_char load16 load32 load64 store16 store32 store64
    write_enter_order read_enter_order wire_length
enter_order_sell_short-Carries m room v0 v1 p h_time_in_force h_min_qty k =
    let h_shares : m.shares < 2 ^ 32 = omega arith in
    (
      _,
      emit_priced _ _ room _ p k,
      refl,
      (λ i. deliver enter_order (
            if not (valid_order_shares (load32-store32 m.shares h_shares i))
            then none
            else some (record {
              token = m.token;
              side = sell;
              short_sell = true;
              shares = load32-store32 m.shares h_shares i;
              stock = m.stock;
              price = price_back m.price p i;
              time_in_force = load32-store32 m.time_in_force h_time_in_force i;
              firm = m.firm;
              display = m.display;
              capacity = m.capacity;
              intermarket_sweep = m.intermarket_sweep;
              min_qty = load32-store32 m.min_qty h_min_qty i;
              cross_type = m.cross_type;
              customer_type = m.customer_type;
            })))
          ∙ valid_passes m.shares (record m { side = sell; short_sell = true })
              (deliver enter_order) v0 v1,
    )
