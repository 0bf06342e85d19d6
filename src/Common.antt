-- ===== src/Common.antt =====
-- The common library: Common/include/Common and Common/src.
pub mod Fifo
pub mod LineBuffer
pub mod SuffixNumber
