-- ===== src/Itch.antt =====
-- include/optitrade/itch: the market data protocol.
pub mod Trades
pub mod Flow
pub mod Layout
pub mod Messages
pub mod Encoder
pub mod Decoder
pub mod RoundTrip
pub mod Stream
mod Tests
