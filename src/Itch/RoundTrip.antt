-- ===== src/Itch/RoundTrip.antt =====
-- include/optitrade/itch/encoder.hpp against decoder.hpp: what is encoded is decoded again.
use opti_trade_engine.Prelude.{
  ℕ, ◌≡◌, refl, sym, ◌∙◌, ◌≢◌, ◌<◌, ◌≤◌, ◌^◌, Bool, true, false, [], some, length, ◌==◌,
  if◌then◌else◌,
}
use opti_trade_engine.Core.Types.{Side, buy, sell}
use opti_trade_engine.Core.Wire.{
  Bytes, load16, load32, load48, load64, store16, store32, store48, store64, load32-store32,
  load64-store64, bad_field,
}
use opti_trade_engine.Itch.Messages.{
  AddOrder, Message, system_event, stock_directory, add_order, order_executed, order_executed_price,
  order_cancel, order_delete, order_replace, trade, message_length,
}
use opti_trade_engine.Itch.Encoder.{
  encode, encode_add_order, fits_wire_price, put_header, put_symbol, put_mpid, put_price, side_char,
}
use opti_trade_engine.Itch.Decoder.{
  decode, decode_type, delivered, failed, no_mpid, read_header, read_symbol, read_price, read_side,
  decode_add_order,
}
use opti_trade_engine.Itch.Layout.{
  FitsHeader, read_header-put_header, FitsPrice, Fits, wire_length, Carries, price-back,
  nonzero_then, written_price,
}
use opti_trade_engine.Itch.Flow.{
  system_event-Carries, order_executed-Carries, order_cancel-Carries, order_delete-Carries,
  stock_directory-Carries, order_replace-Carries, order_executed_price-Carries,
}
use opti_trade_engine.Itch.Trades.{trade-Carries}

-- An order of the given side and attribution.
abbrev shaped : AddOrder → Side → Bool → AddOrder
shaped m sd b = record m { side = sd; has_attribution = b }

add_buy_named-Carries :
    (m : AddOrder) (room : ℕ)
    → FitsHeader m.h
    → m.ref < 2 ^ 64
    → m.shares < 2 ^ 32
    → m.shares ≢ 0
    → FitsPrice m.price
    → 40 ≤ room
    → Carries (add_order (shaped m buy true)) (encode_add_order (shaped m buy true) room)
unfolding decode decode_type message_length read_header read_symbol read_price read_side put_header
    put_symbol put_mpid put_price side_char load16 load32 load48 load64 store16 store32 store48
    store64 fits_wire_price decode_add_order encode_add_order wire_length
add_buy_named-Carries m room f r s z p k = (
  _,
  written_price room _ _ _ p k,
  refl,
  (λ i.
        if load32-store32 m.shares s i == 0
        then failed bad_field
        else delivered (
            add_order (record {
              h = read_header-put_header b'F' m.h [] f i;
              ref = load64-store64 m.ref r i;
              side = buy;
              shares = load32-store32 m.shares s i;
              symbol = m.symbol;
              price = price-back m.price p i;
              has_attribution = true;
              mpid = m.mpid;
            })))
      ∙ nonzero_then m.shares z,
)

add_buy_plain-Carries :
    (m : AddOrder) (room : ℕ)
    → FitsHeader m.h
    → m.ref < 2 ^ 64
    → m.shares < 2 ^ 32
    → m.shares ≢ 0
    → FitsPrice m.price
    → m.mpid ≡ no_mpid
    → 36 ≤ room
    → Carries (add_order (shaped m buy false)) (encode_add_order (shaped m buy false) room)
unfolding decode decode_type message_length read_header read_symbol read_price read_side put_header
    put_symbol put_mpid put_price side_char load16 load32 load48 load64 store16 store32 store48
    store64 fits_wire_price decode_add_order encode_add_order wire_length
add_buy_plain-Carries m room f r s z p q k = (
  _,
  written_price room _ _ _ p k,
  refl,
  (λ i.
        if load32-store32 m.shares s i == 0
        then failed bad_field
        else delivered (
            add_order (record {
              h = read_header-put_header b'A' m.h [] f i;
              ref = load64-store64 m.ref r i;
              side = buy;
              shares = load32-store32 m.shares s i;
              symbol = m.symbol;
              price = price-back m.price p i;
              has_attribution = false;
              mpid = sym q i;
            })))
      ∙ nonzero_then m.shares z,
)

add_sell_named-Carries :
    (m : AddOrder) (room : ℕ)
    → FitsHeader m.h
    → m.ref < 2 ^ 64
    → m.shares < 2 ^ 32
    → m.shares ≢ 0
    → FitsPrice m.price
    → 40 ≤ room
    → Carries (add_order (shaped m sell true)) (encode_add_order (shaped m sell true) room)
unfolding decode decode_type message_length read_header read_symbol read_price read_side put_header
    put_symbol put_mpid put_price side_char load16 load32 load48 load64 store16 store32 store48
    store64 fits_wire_price decode_add_order encode_add_order wire_length
add_sell_named-Carries m room f r s z p k = (
  _,
  written_price room _ _ _ p k,
  refl,
  (λ i.
        if load32-store32 m.shares s i == 0
        then failed bad_field
        else delivered (
            add_order (record {
              h = read_header-put_header b'F' m.h [] f i;
              ref = load64-store64 m.ref r i;
              side = sell;
              shares = load32-store32 m.shares s i;
              symbol = m.symbol;
              price = price-back m.price p i;
              has_attribution = true;
              mpid = m.mpid;
            })))
      ∙ nonzero_then m.shares z,
)

add_sell_plain-Carries :
    (m : AddOrder) (room : ℕ)
    → FitsHeader m.h
    → m.ref < 2 ^ 64
    → m.shares < 2 ^ 32
    → m.shares ≢ 0
    → FitsPrice m.price
    → m.mpid ≡ no_mpid
    → 36 ≤ room
    → Carries (add_order (shaped m sell false)) (encode_add_order (shaped m sell false) room)
unfolding decode decode_type message_length read_header read_symbol read_price read_side put_header
    put_symbol put_mpid put_price side_char load16 load32 load48 load64 store16 store32 store48
    store64 fits_wire_price decode_add_order encode_add_order wire_length
add_sell_plain-Carries m room f r s z p q k = (
  _,
  written_price room _ _ _ p k,
  refl,
  (λ i.
        if load32-store32 m.shares s i == 0
        then failed bad_field
        else delivered (
            add_order (record {
              h = read_header-put_header b'A' m.h [] f i;
              ref = load64-store64 m.ref r i;
              side = sell;
              shares = load32-store32 m.shares s i;
              symbol = m.symbol;
              price = price-back m.price p i;
              has_attribution = false;
              mpid = sym q i;
            })))
      ∙ nonzero_then m.shares z,
)

add_order-Carries :
    (m : AddOrder) (room : ℕ)
    → Fits (add_order m)
    → wire_length (add_order m) ≤ room
    → Carries (add_order m) (encode_add_order m room)
unfolding wire_length
add_order-Carries m room (f, r, s, z, p, q) k = carry m.side m.has_attribution q k
  where
    carry :
        (sd : Side) (b : Bool)
        → (b ≡ false → m.mpid ≡ no_mpid)
        → (if b then 40 else 36) ≤ room
        → Carries (add_order (shaped m sd b)) (encode_add_order (shaped m sd b) room)
    carry buy true q k = add_buy_named-Carries m room f r s z p k
    carry buy false q k = add_buy_plain-Carries m room f r s z p (q refl) k
    carry sell true q k = add_sell_named-Carries m room f r s z p k
    carry sell false q k = add_sell_plain-Carries m room f r s z p (q refl) k

-- Every message whose fields fit is encoded, in exactly its length, wherever there is room for
-- it, and decoding those bytes delivers that same message.
pub decode-encode :
    (m : Message) (room : ℕ)
    → Fits m
    → wire_length m ≤ room
    → (bs : Bytes) × (encode m room ≡ some bs)
      × (length bs ≡ wire_length m)
      × (decode bs ≡ delivered m)
unfolding encode
decode-encode (system_event m) room f k = system_event-Carries m room f k
decode-encode (stock_directory m) room f k = stock_directory-Carries m room f k
decode-encode (add_order m) room f k = add_order-Carries m room f k
decode-encode (order_executed m) room f k = order_executed-Carries m room f k
decode-encode (order_executed_price m) room f k = order_executed_price-Carries m room f k
decode-encode (order_cancel m) room f k = order_cancel-Carries m room f k
decode-encode (order_delete m) room f k = order_delete-Carries m room f k
decode-encode (order_replace m) room f k = order_replace-Carries m room f k
decode-encode (trade m) room f k = trade-Carries m room f k
