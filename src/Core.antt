-- ===== src/Core.antt =====
-- include/optitrade/core: the shared types and the byte order of the wire.
pub mod Types
pub mod Wire
pub mod Frames
pub mod Table
pub mod SpscRing
pub mod SlabPool
