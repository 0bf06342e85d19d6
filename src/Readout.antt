-- ===== src/Readout.antt =====
-- The readout: Readout/src.
pub mod Aggregator
pub mod DataChecker
