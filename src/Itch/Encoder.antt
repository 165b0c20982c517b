-- ===== src/Itch/Encoder.antt =====
-- include/optitrade/itch/encoder.hpp. `room` is the size of the output span; the result is the
-- bytes written from its start, or none where the code returns 0 and writes nothing.
use opti_trade_engine.Prelude.{
  ℕ, ◌-◌, Bool, true, ◌&&◌, ◌||◌, not, [], ◌∷◌, ◌++◌, Option, none, some, ltb, if◌then◌else◌,
  length,
}
use opti_trade_engine.Prelude.Int.{pos, pos_part, leb_ℤ}
use opti_trade_engine.Core.Types.{Price, Side, buy, sell}
use opti_trade_engine.Core.Wire.{Bytes, store16, store32, store48, store64}
use opti_trade_engine.Itch.Messages.{
  Symbol, Header, SystemEvent, StockDirectory, Mpid, AddOrder, OrderExecuted, OrderExecutedPrice,
  OrderCancel, OrderDelete, OrderReplace, Trade, Message, system_event, stock_directory, add_order,
  order_executed, order_executed_price, order_cancel, order_delete, order_replace, trade,
  system_event_length, stock_directory_length, add_order_length, add_order_mpid_length,
  order_executed_length, order_executed_price_length, order_cancel_length, order_delete_length,
  order_replace_length, trade_length, frame_header_size,
}

unfoldable pub fits_wire_price : Price → Bool
fits_wire_price px = leb_ℤ (pos 0) px && leb_ℤ px (pos 0xffffffff)

unfoldable pub put_header : ℕ → Header → Bytes
unfolding store16 store48
put_header type h = type ∷ store16 h.locate ++ store16 h.tracking ++ store48 h.timestamp

unfoldable pub put_symbol : Symbol → Bytes
put_symbol s = s.c0 ∷ s.c1 ∷ s.c2 ∷ s.c3 ∷ s.c4 ∷ s.c5 ∷ s.c6 ∷ s.c7 ∷ []

unfoldable pub put_mpid : Mpid → Bytes
put_mpid m = m.m0 ∷ m.m1 ∷ m.m2 ∷ m.m3 ∷ []

-- Only called on a price that fits.
unfoldable pub put_price : Price → Bytes
unfolding store32
put_price px = store32 (pos_part px)

unfoldable pub side_char : Side → ℕ
side_char buy = b'B'
side_char sell = b'S'

-- `out.size() < len` or a field that has no wire form: nothing is written.
abbrev pub written : ℕ → ℕ → Bool → Bytes → Option Bytes
written room len fits bytes = if ltb room len || not fits then none else some bytes

unfoldable pub encode_system_event : SystemEvent → ℕ → Option Bytes
unfolding put_header
encode_system_event m room =
    written room system_event_length true (put_header b'S' m.h ++ m.event_code ∷ [])

unfoldable pub encode_stock_directory : StockDirectory → ℕ → Option Bytes
unfolding put_header put_symbol store32
encode_stock_directory m room = written room stock_directory_length true (
    put_header b'R' m.h
    ++ (put_symbol m.symbol
        ++ (m.market_category ∷ m.financial_status ∷ store32 m.round_lot_size
            ++ (m.round_lots_only
                  ∷ m.issue_classification
                  ∷ m.issue_subtype0
                  ∷ m.issue_subtype1
                  ∷ m.authenticity
                  ∷ m.short_sale_threshold
                  ∷ m.ipo_flag
                  ∷ m.luld_tier
                  ∷ m.etp_flag
                  ∷ store32 m.etp_leverage
                ++ m.inverse ∷ []))))

unfoldable pub encode_add_order : AddOrder → ℕ → Option Bytes
unfolding put_header put_symbol put_mpid put_price store32 store64 side_char fits_wire_price
encode_add_order m room =
    let len = if m.has_attribution then add_order_mpid_length else add_order_length in
    let type = if m.has_attribution then b'F' else b'A' in
    let mpid = if m.has_attribution then put_mpid m.mpid else [] in
    written room len (fits_wire_price m.price) (
      put_header type m.h
      ++ (store64 m.ref
          ++ (side_char m.side ∷ store32 m.shares
              ++ (put_symbol m.symbol ++ (put_price m.price ++ mpid)))))

unfoldable pub encode_order_executed : OrderExecuted → ℕ → Option Bytes
unfolding put_header store32 store64
encode_order_executed m room =
    written room order_executed_length true
      (put_header b'E' m.h ++ (store64 m.ref ++ (store32 m.shares ++ store64 m.match)))

unfoldable pub encode_order_executed_price : OrderExecutedPrice → ℕ → Option Bytes
unfolding put_header put_price store32 store64 fits_wire_price
encode_order_executed_price m room =
    written room order_executed_price_length (fits_wire_price m.price) (
      put_header b'C' m.h
      ++ (store64 m.ref
          ++ (store32 m.shares
              ++ (store64 m.match ++ ((if m.printable then b'Y' else b'N') ∷ put_price m.price)))))

unfoldable pub encode_order_cancel : OrderCancel → ℕ → Option Bytes
unfolding put_header store32 store64
encode_order_cancel m room =
    written room order_cancel_length true
      (put_header b'X' m.h ++ (store64 m.ref ++ store32 m.shares))

unfoldable pub encode_order_delete : OrderDelete → ℕ → Option Bytes
unfolding put_header store64
encode_order_delete m room =
    written room order_delete_length true (put_header b'D' m.h ++ store64 m.ref)

unfoldable pub encode_order_replace : OrderReplace → ℕ → Option Bytes
unfolding put_header put_price store32 store64 fits_wire_price
encode_order_replace m room = written room order_replace_length (fits_wire_price m.price) (
    put_header b'U' m.h
    ++ (store64 m.old_ref ++ (store64 m.new_ref ++ (store32 m.shares ++ put_price m.price))))

unfoldable pub encode_trade : Trade → ℕ → Option Bytes
unfolding put_header put_symbol put_price store32 store64 side_char fits_wire_price
encode_trade m room = written room trade_length (fits_wire_price m.price) (
    put_header b'P' m.h
    ++ (store64 m.ref
        ++ (side_char m.side ∷ store32 m.shares
            ++ (put_symbol m.symbol ++ (put_price m.price ++ store64 m.match)))))

unfoldable pub encode : Message → ℕ → Option Bytes
unfolding encode_system_event encode_stock_directory encode_add_order encode_order_executed
    encode_order_executed_price encode_order_cancel encode_order_delete encode_order_replace
    encode_trade
encode (system_event m) room = encode_system_event m room
encode (stock_directory m) room = encode_stock_directory m room
encode (add_order m) room = encode_add_order m room
encode (order_executed m) room = encode_order_executed m room
encode (order_executed_price m) room = encode_order_executed_price m room
encode (order_cancel m) room = encode_order_cancel m room
encode (order_delete m) room = encode_order_delete m room
encode (order_replace m) room = encode_order_replace m room
encode (trade m) room = encode_trade m room

unfoldable pub encode_framed : Message → ℕ → Option Bytes
unfolding encode store16
encode_framed m room =
    if ltb room frame_header_size then none else elim (encode m (room - frame_header_size)) [
      | none ↦ none
      | some bytes ↦ some (store16 (length bytes) ++ bytes)
    ]
