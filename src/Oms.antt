-- ===== src/Oms.antt =====
-- include/optitrade/oms: the order manager.
pub mod State
pub mod Types
pub mod Manager
pub mod Ledger
pub mod Slots
pub mod Invariant
pub mod Links
pub mod Sweep
pub mod CancelAll
pub mod Runs
pub mod Dropped
pub mod Finality
pub mod Outcomes
pub mod Tests
