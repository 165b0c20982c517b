-- ===== src/Net.antt =====
-- include/optitrade/net: the transport of the market data.
pub mod Mold64
mod Tests
