-- ===== src/Itch/Trades.antt =====
-- itch/encoder.hpp against decoder.hpp: the trade message.
use opti_trade_engine.Prelude.{ℕ, refl, ◌≤◌, []}
use opti_trade_engine.Core.Types.{buy, sell}
use opti_trade_engine.Core.Wire.{
  load16, load32, load48, load64, store16, store32, store48, store64, load32-store32,
  load64-store64,
}
use opti_trade_engine.Itch.Messages.{Trade, trade, message_length}
use opti_trade_engine.Itch.Encoder.{
  encode_trade, fits_wire_price, put_header, put_symbol, put_mpid, put_price, side_char,
}
use opti_trade_engine.Itch.Decoder.{
  decode, decode_type, delivered, read_header, read_symbol, read_price, read_side, decode_trade,
}
use opti_trade_engine.Itch.Layout.{
  read_header-put_header, Fits, wire_length, Carries, price-back, written_price,
}

trade_buy-Carries :
    (m : Trade) (room : ℕ)
    → Fits (trade m)
    → 44 ≤ room
    → Carries (trade (record m { side = buy })) (encode_trade (record m { side = buy }) room)
unfolding decode decode_type message_length read_header read_symbol read_price read_side put_header
    put_symbol put_mpid put_price side_char load16 load32 load48 load64 store16 store32 store48
    store64 fits_wire_price decode_trade encode_trade wire_length
trade_buy-Carries m room (f, r, s, p, t) k = (
  _,
  written_price room _ _ _ p k,
  refl,
  λ i. delivered (
      trade (record {
        h = read_header-put_header b'P' m.h [] f i;
        ref = load64-store64 m.ref r i;
        side = buy;
        shares = load32-store32 m.shares s i;
        symbol = m.symbol;
        price = price-back m.price p i;
        match = load64-store64 m.match t i;
      })),
)

trade_sell-Carries :
    (m : Trade) (room : ℕ)
    → Fits (trade m)
    → 44 ≤ room
    → Carries (trade (record m { side = sell })) (encode_trade (record m { side = sell }) room)
unfolding decode decode_type message_length read_header read_symbol read_price read_side put_header
    put_symbol put_mpid put_price side_char load16 load32 load48 load64 store16 store32 store48
    store64 fits_wire_price decode_trade encode_trade wire_length
trade_sell-Carries m room (f, r, s, p, t) k = (
  _,
  written_price room _ _ _ p k,
  refl,
  λ i. delivered (
      trade (record {
        h = read_header-put_header b'P' m.h [] f i;
        ref = load64-store64 m.ref r i;
        side = sell;
        shares = load32-store32 m.shares s i;
        symbol = m.symbol;
        price = price-back m.price p i;
        match = load64-store64 m.match t i;
      })),
)

pub trade-Carries :
    (m : Trade) (room : ℕ)
    → Fits (trade m)
    → wire_length (trade m) ≤ room
    → Carries (trade m) (encode_trade m room)
unfolding wire_length
trade-Carries m room fits k =
    elim m.side
      as (λ sd.
        Carries (trade (record m { side = sd })) (encode_trade (record m { side = sd }) room)) [
          | buy ↦ trade_buy-Carries m room fits k
          | sell ↦ trade_sell-Carries m room fits k
        ]
