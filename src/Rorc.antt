-- ===== src/Rorc.antt =====
-- RORC/: the readout card library, one child for each class that is modelled.
pub mod Error
pub mod Superpage
pub mod Queue
pub mod Dma
pub mod Pda
pub mod Dummy
pub mod Bits
pub mod Bar
pub mod BarAccessor
pub mod Cru
pub mod Crorc
pub mod CrorcCard
pub mod Sca
pub mod LinkMask
