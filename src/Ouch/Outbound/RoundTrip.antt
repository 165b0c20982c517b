-- ===== src/Ouch/Outbound/RoundTrip.antt =====
-- include/optitrade/ouch/codec.hpp: the messages from the exchange that are encoded are decoded again.
use opti_trade_engine.Prelude.{ℕ, ◌≤◌, ◌≡◌, some, length}
use opti_trade_engine.Core.Wire.{Bytes}
use opti_trade_engine.Ouch.Messages.{Outbound, accepted, replaced, canceled, executed, rejected}
use opti_trade_engine.Ouch.Fields.{delivered}
use opti_trade_engine.Ouch.Outbound.{encode, decode}
use opti_trade_engine.Ouch.Outbound.Layout.{Fits, wire_length}
use opti_trade_engine.Ouch.Outbound.Reports.{
  canceled-Carries, executed-Carries, rejected-Carries, accepted-Carries,
}
use opti_trade_engine.Ouch.Outbound.Accepts.{replaced-Carries}

-- Every outbound message whose fields fit is encoded, in exactly its length, wherever there is room
-- for it, and decoding those bytes delivers that same message.
pub decode-encode_outbound :
    (m : Outbound) (room : ℕ)
    → Fits m
    → wire_length m ≤ room
    → (bs : Bytes) × (encode m room ≡ some bs)
      × (length bs ≡ wire_length m)
      × (decode bs ≡ delivered m)
unfolding encode wire_length
decode-encode_outbound (accepted m) room f k = accepted-Carries m room f k
decode-encode_outbound (replaced m) room f k = replaced-Carries m room f k
decode-encode_outbound (canceled m) room f k = canceled-Carries m room f k
decode-encode_outbound (executed m) room f k = executed-Carries m room f k
decode-encode_outbound (rejected m) room f k = rejected-Carries m room f k
