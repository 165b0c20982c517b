-- ===== src/Risk.antt =====
-- include/optitrade/risk: pre-trade limits, the exposure ledger and the accounts.
pub mod Types
pub mod Engine
