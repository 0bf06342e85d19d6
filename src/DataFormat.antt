-- ===== src/DataFormat.antt =====
-- The data format library: DataFormat/src.
pub mod MemPool
