-- ===== src/Lib.antt =====
-- A model of the core of the OptiTrade engine, a trading system in C++: market data comes in as
-- MoldUDP64 datagrams, each a list of ITCH messages; the messages drive the order books of all
-- instruments; the order manager passes the orders of a strategy through the risk engine and sends
-- them to the exchange as OUCH messages, and the exchange's reports come back to it.
--
-- The files, with the source that each models, below include/optitrade:
--   Core/Types, Core/Wire, Core/Frames   core/types.hpp, core/endian.hpp, core/decode_status.hpp
--   Core/SlabPool   core/slab_pool.hpp: the constructor, allocate(), release() and live() of SlabPool,
--                   and a write through its operator[]
--   Core/SpscRing   core/spsc_ring.hpp: the class SpscRing, its calls cut into the atomic steps of
--                   a thread
--   Book/Ladder     book/order_book.hpp: SideBook, find_pos, and what add_order and take do to a side
--   Book/OrderBook  book/order_book.hpp: the class OrderBook, an operation for each member function
--                   that changes the book, and most queries
--   Book/MarketBooks  book/market_books.hpp: `on` is the overloaded on(), `reduce` and `drop_record`
--                   are reduce() and drop(), `insert_order` is insert_order()
--   Risk/Types, Risk/Engine  risk/limits.hpp, risk/reject.hpp, risk/risk_engine.hpp: the class
--                   RiskEngine, an operation for each member function that changes state, and
--                   most queries
--   Itch/Messages, Itch/Encoder, Itch/Decoder, Itch/Stream  itch/messages.hpp, itch/encoder.hpp,
--                   itch/decoder.hpp: encode() and decode() by message type, decode_stream()
--   Ouch/Messages, Ouch/Fields, Ouch/Token, Ouch/Inbound, Ouch/Outbound  ouch/messages.hpp,
--                   ouch/codec.hpp: a read and a write by message, decode_inbound(), decode_outbound()
--   Oms/Types, Oms/State, Oms/Manager  oms/types.hpp, oms/interfaces.hpp, oms/order_manager.hpp:
--                   the class OrderManager, its calls in Manager/Calls, its report
--                   handlers in Manager/Reports;
--                   Oms/Invariant, Oms/Ledger, Oms/Slots and Oms/Links are its invariant
--   Core/Table      the tables that stand for core/flat_hash_map.hpp in the order manager
--   Net/Mold64      net/mold64.hpp: for_each_message(), PacketBuilder, SequenceTracker
-- The children of these modules hold the proofs; Core/SlabPool/Tests, Core/SpscRing/Tests, Book/Tests,
-- Risk/Engine/Tests, Itch/Tests, Net/Tests, Ouch/Tests and Oms/Tests hold runs on concrete data.
--
-- State is a record, and an operation takes it and returns the new one with its result. Numbers of
-- the source are natural numbers or integers: a sum or difference of the wire formats wraps as it is
-- written there; quantities are held within 32 bits by the code's own guards, which are modelled; the
-- 64-bit counters of events (updates, overflows, applied messages, level ids) count without a bound,
-- which 64 bits do not reach in a trading day. The 128-bit sums of the risk engine are integers, and
-- its narrowing to 64 bits is `clamp64`. An array of two that is indexed by a side is a field for each
-- side. A span of bytes is a list, a memcpy into a span a splice of lists.
--
-- The loops are structural, but for those with fuel: the binary search takes the length of its window,
-- which falls by one at least in each round; decode_stream the length of the buffer, of which each
-- round takes two bytes at least; cancel_all() the length of the table of orders, which no list of
-- working orders exceeds; and bit_ceil() 63 doublings, which reach the largest capacity that is
-- allowed.
--
-- Of the order manager, what the gateway takes and what the two sources say is an argument of each
-- call, so each may answer in its own way; what was sent and what the listener was told is kept in the
-- state. The listener does not call back from inside a notification. The links of an entry stand in a
-- table beside the entries.
--
-- An acquire load in the ring may return any value that was stored since the last one that its thread
-- saw, and no older one; what a store with release published before is then seen too.
--
-- A FlatHashMap is an association list here: what is used of it is find, insert, erase and size.
-- Whether an allocation of a page or a book succeeds is an argument of each call that may allocate.
--
-- Not modelled: the prefetch hints, the sockets, the capture files, the applications, the tools, the
-- framed OUCH streams, the exchange simulator, the strategies and the engine that wires the parts
-- together.
pub mod Prelude
pub mod Core
pub mod Book
pub mod Risk
pub mod Itch
pub mod Net
pub mod Ouch
pub mod Oms
