-- ===== src/Ouch/Inbound/RoundTrip.antt =====
-- include/optitrade/ouch/codec.hpp: the messages to the exchange that are encoded are decoded again.
use opti_trade_engine.Prelude.{ℕ, ◌≤◌, ◌≡◌, refl, Bool, true, false, some, length, arith}
use opti_trade_engine.Core.Types.{Side, buy, sell}
use opti_trade_engine.Core.Wire.{Bytes}
use opti_trade_engine.Ouch.Messages.{EnterOrder, Inbound, enter_order, replace_order, cancel_order}
use opti_trade_engine.Ouch.Fields.{emit, delivered}
use opti_trade_engine.Ouch.Inbound.{encode, decode, write_enter_order}
use opti_trade_engine.Ouch.Inbound.Layout.{Fits, wire_length, Carries}
use opti_trade_engine.Ouch.Inbound.Enter.{
  replace_order-Carries, cancel_order-Carries, enter_order_buy_long-Carries,
  enter_order_sell_long-Carries, enter_order_sell_short-Carries,
}

enter_order-Carries :
    (m : EnterOrder) (room : ℕ)
    → Fits (enter_order m)
    → 49 ≤ room
    → Carries (enter_order m) (emit (write_enter_order m) room 49)
enter_order-Carries m room ((v0, v1), p, t, q, only) k = carry m.side m.short_sell only
  where
    carry :
        (sd : Side) (b : Bool)
        → (sd ≡ buy → b ≡ false)
        → Carries
            (enter_order (record m { side = sd; short_sell = b }))
            (emit (write_enter_order (record m { side = sd; short_sell = b })) room 49)
    carry buy true h = absurd (ground (arith, h refl))
    carry buy false h = enter_order_buy_long-Carries m room v0 v1 p t q k
    carry sell true h = enter_order_sell_short-Carries m room v0 v1 p t q k
    carry sell false h = enter_order_sell_long-Carries m room v0 v1 p t q k

-- Every inbound message whose fields fit is encoded, in exactly its length, wherever there is room
-- for it, and decoding those bytes delivers that same message.
pub decode-encode_inbound :
    (m : Inbound) (room : ℕ)
    → Fits m
    → wire_length m ≤ room
    → (bs : Bytes) × (encode m room ≡ some bs)
      × (length bs ≡ wire_length m)
      × (decode bs ≡ delivered m)
unfolding encode wire_length
decode-encode_inbound (enter_order m) room f k = enter_order-Carries m room f k
decode-encode_inbound (replace_order m) room f k = replace_order-Carries m room f k
decode-encode_inbound (cancel_order m) room f k = cancel_order-Carries m room f k
