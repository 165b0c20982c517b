-- ===== src/Itch/Flow.antt =====
-- itch/encoder.hpp against decoder.hpp: the messages that name an order, and the directory.
use opti_trade_engine.Prelude.{ℕ, refl, ◌≤◌, []}
use opti_trade_engine.Core.Wire.{
  load16, load32, load48, load64, store16, store32, store48, store64, load32-store32,
  load64-store64,
}
use opti_trade_engine.Itch.Messages.{
  SystemEvent, StockDirectory, OrderExecuted, OrderExecutedPrice, OrderCancel, OrderDelete,
  OrderReplace, system_event, stock_directory, order_executed, order_executed_price, order_cancel,
  order_delete, order_replace, message_length,
}
use opti_trade_engine.Itch.Encoder.{
  encode_system_event, encode_stock_directory, encode_order_executed, encode_order_executed_price,
  encode_order_cancel, encode_order_delete, encode_order_replace, fits_wire_price, put_header,
  put_symbol, put_mpid, put_price, side_char,
}
use opti_trade_engine.Itch.Decoder.{
  decode, decode_type, delivered, read_header, read_symbol, read_price, read_side,
  decode_system_event, decode_stock_directory, decode_order_executed, decode_order_executed_price,
  decode_order_cancel, decode_order_delete, decode_order_replace,
}
use opti_trade_engine.Itch.Layout.{
  read_header-put_header, Fits, wire_length, Carries, written_lem, price-back, flag, written_price,
}

pub system_event-Carries :
    (m : SystemEvent) (room : ℕ)
    → Fits (system_event m)
    → wire_length (system_event m) ≤ room
    → Carries (system_event m) (encode_system_event m room)
unfolding decode decode_type message_length read_header read_symbol read_price read_side put_header
    put_symbol put_mpid put_price side_char load16 load32 load48 load64 store16 store32 store48
    store64 fits_wire_price decode_system_event encode_system_event wire_length
system_event-Carries m room f k = (
  _,
  written_lem room _ _ k,
  refl,
  λ i. delivered (
      system_event
        (record { h = read_header-put_header b'S' m.h [] f i; event_code = m.event_code })),
)

pub order_executed-Carries :
    (m : OrderExecuted) (room : ℕ)
    → Fits (order_executed m)
    → wire_length (order_executed m) ≤ room
    → Carries (order_executed m) (encode_order_executed m room)
unfolding decode decode_type message_length read_header read_symbol read_price read_side put_header
    put_symbol put_mpid put_price side_char load16 load32 load48 load64 store16 store32 store48
    store64 fits_wire_price decode_order_executed encode_order_executed wire_length
order_executed-Carries m room (f, r, s, t) k = (
  _,
  written_lem room _ _ k,
  refl,
  λ i. delivered (
      order_executed (record {
        h = read_header-put_header b'E' m.h [] f i;
        ref = load64-store64 m.ref r i;
        shares = load32-store32 m.shares s i;
        match = load64-store64 m.match t i;
      })),
)

pub order_cancel-Carries :
    (m : OrderCancel) (room : ℕ)
    → Fits (order_cancel m)
    → wire_length (order_cancel m) ≤ room
    → Carries (order_cancel m) (encode_order_cancel m room)
unfolding decode decode_type message_length read_header read_symbol read_price read_side put_header
    put_symbol put_mpid put_price side_char load16 load32 load48 load64 store16 store32 store48
    store64 fits_wire_price decode_order_cancel encode_order_cancel wire_length
order_cancel-Carries m room (f, r, s) k = (
  _,
  written_lem room _ _ k,
  refl,
  λ i. delivered (
      order_cancel (record {
        h = read_header-put_header b'X' m.h [] f i;
        ref = load64-store64 m.ref r i;
        shares = load32-store32 m.shares s i;
      })),
)

pub order_delete-Carries :
    (m : OrderDelete) (room : ℕ)
    → Fits (order_delete m)
    → wire_length (order_delete m) ≤ room
    → Carries (order_delete m) (encode_order_delete m room)
unfolding decode decode_type message_length read_header read_symbol read_price read_side put_header
    put_symbol put_mpid put_price side_char load16 load32 load48 load64 store16 store32 store48
    store64 fits_wire_price decode_order_delete encode_order_delete wire_length
order_delete-Carries m room (f, r) k = (
  _,
  written_lem room _ _ k,
  refl,
  λ i. delivered (
      order_delete
        (record { h = read_header-put_header b'D' m.h [] f i; ref = load64-store64 m.ref r i })),
)

pub stock_directory-Carries :
    (m : StockDirectory) (room : ℕ)
    → Fits (stock_directory m)
    → wire_length (stock_directory m) ≤ room
    → Carries (stock_directory m) (encode_stock_directory m room)
unfolding decode decode_type message_length read_header read_symbol read_price read_side put_header
    put_symbol put_mpid put_price side_char load16 load32 load48 load64 store16 store32 store48
    store64 fits_wire_price decode_stock_directory encode_stock_directory wire_length
stock_directory-Carries m room (f, r, s) k = (
  _,
  written_lem room _ _ k,
  refl,
  λ i. delivered (
      stock_directory (record {
        h = read_header-put_header b'R' m.h [] f i;
        symbol = m.symbol;
        market_category = m.market_category;
        financial_status = m.financial_status;
        round_lot_size = load32-store32 m.round_lot_size r i;
        round_lots_only = m.round_lots_only;
        issue_classification = m.issue_classification;
        issue_subtype0 = m.issue_subtype0;
        issue_subtype1 = m.issue_subtype1;
        authenticity = m.authenticity;
        short_sale_threshold = m.short_sale_threshold;
        ipo_flag = m.ipo_flag;
        luld_tier = m.luld_tier;
        etp_flag = m.etp_flag;
        etp_leverage = load32-store32 m.etp_leverage s i;
        inverse = m.inverse;
      })),
)

pub order_replace-Carries :
    (m : OrderReplace) (room : ℕ)
    → Fits (order_replace m)
    → wire_length (order_replace m) ≤ room
    → Carries (order_replace m) (encode_order_replace m room)
unfolding decode decode_type message_length read_header read_symbol read_price read_side put_header
    put_symbol put_mpid put_price side_char load16 load32 load48 load64 store16 store32 store48
    store64 fits_wire_price decode_order_replace encode_order_replace wire_length
order_replace-Carries m room (f, r, q, s, p) k = (
  _,
  written_price room _ _ _ p k,
  refl,
  λ i. delivered (
      order_replace (record {
        h = read_header-put_header b'U' m.h [] f i;
        old_ref = load64-store64 m.old_ref r i;
        new_ref = load64-store64 m.new_ref q i;
        shares = load32-store32 m.shares s i;
        price = price-back m.price p i;
      })),
)

pub order_executed_price-Carries :
    (m : OrderExecutedPrice) (room : ℕ)
    → Fits (order_executed_price m)
    → wire_length (order_executed_price m) ≤ room
    → Carries (order_executed_price m) (encode_order_executed_price m room)
unfolding decode decode_type message_length read_header read_symbol read_price read_side put_header
    put_symbol put_mpid put_price side_char load16 load32 load48 load64 store16 store32 store48
    store64 fits_wire_price decode_order_executed_price encode_order_executed_price wire_length
order_executed_price-Carries m room (f, r, s, t, p) k = (
  _,
  written_price room _ _ _ p k,
  refl,
  λ i. delivered (
      order_executed_price (record {
        h = read_header-put_header b'C' m.h [] f i;
        ref = load64-store64 m.ref r i;
        shares = load32-store32 m.shares s i;
        match = load64-store64 m.match t i;
        printable = flag m.printable i;
        price = price-back m.price p i;
      })),
)
