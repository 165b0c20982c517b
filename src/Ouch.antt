-- ===== src/Ouch.antt =====
-- include/optitrade/ouch: the order entry protocol.
pub mod Messages
pub mod Fields
pub mod Token
pub mod Inbound
pub mod Outbound
mod Tests
