-- ===== src/Ouch/Tests.antt =====
-- Runs of include/optitrade/ouch on concrete messages, and the theorems at those runs.
use opti_trade_engine.Prelude.{◌≡◌, refl, true, some, arith, length}
use opti_trade_engine.Prelude.Int.{pos}
use opti_trade_engine.Core.Types.{sell}
use opti_trade_engine.Core.Wire.{Bytes}
use opti_trade_engine.Ouch.Messages.{Token, EnterOrder, Executed, enter_order, executed}
use opti_trade_engine.Ouch.Fields.{delivered}
use opti_trade_engine.Ouch.Token.{from_id, to_id, to_id-from_id}
use opti_trade_engine.Ouch.Inbound
use opti_trade_engine.Ouch.Inbound.RoundTrip.{decode-encode_inbound}
use opti_trade_engine.Ouch.Inbound.Layout as InboundTrip
use opti_trade_engine.Ouch.Outbound
use opti_trade_engine.Ouch.Outbound.RoundTrip.{decode-encode_outbound}
use opti_trade_engine.Ouch.Outbound.Layout as OutboundTrip

abbrev token_7 : Token
token_7 = record {
  t0 = b'0';
  t1 = b'0';
  t2 = b'0';
  t3 = b'0';
  t4 = b'0';
  t5 = b'0';
  t6 = b'0';
  t7 = b'0';
  t8 = b'0';
  t9 = b'0';
  t10 = b'0';
  t11 = b'0';
  t12 = b'0';
  t13 = b'7';
}

abbrev short_sale : EnterOrder
short_sale = record {
  token = token_7;
  side = sell;
  short_sell = true;
  shares = 300;
  stock = record {
    c0 = b'A';
    c1 = b'A';
    c2 = b'P';
    c3 = b'L';
    c4 = b' ';
    c5 = b' ';
    c6 = b' ';
    c7 = b' ';
  };
  price = pos 1500000;
  time_in_force = 99999;
  firm = record { f0 = b' '; f1 = b' '; f2 = b' '; f3 = b' ' };
  display = b'Y';
  capacity = b'P';
  intermarket_sweep = b'N';
  min_qty = 0;
  cross_type = b'N';
  customer_type = b' ';
}

short_sale-Fits : InboundTrip.Fits (enter_order short_sale)
short_sale-Fits = (
  (omega arith, omega arith),
  (1500000, refl, omega arith),
  omega arith,
  omega arith,
  (λ e. absurd (ground (arith, e))),
)

decode-encode_inbound_example :
    (bs : Bytes) × (Inbound.encode (enter_order short_sale) 64 ≡ some bs)
    × (length bs ≡ InboundTrip.wire_length (enter_order short_sale))
    × (Inbound.decode bs ≡ delivered (enter_order short_sale))
unfolding InboundTrip.wire_length
decode-encode_inbound_example =
    decode-encode_inbound (enter_order short_sale) 64 short_sale-Fits (omega arith)

abbrev fill : Executed
fill = record {
  ts = 34200000000000;
  token = token_7;
  shares = 100;
  price = pos 1500000;
  liquidity = b'A';
  match = 9;
}

decode-encode_outbound_example :
    (bs : Bytes) × (Outbound.encode (executed fill) 40 ≡ some bs)
    × (length bs ≡ OutboundTrip.wire_length (executed fill))
    × (Outbound.decode bs ≡ delivered (executed fill))
unfolding OutboundTrip.wire_length
decode-encode_outbound_example =
    decode-encode_outbound (executed fill) 40
      (omega arith, omega arith, (1500000, refl, omega arith), omega arith) (omega arith)

to_id-from_id_example : to_id (from_id 40017) ≡ some 40017
to_id-from_id_example = to_id-from_id 40017 (omega arith)
