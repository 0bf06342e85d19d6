-- ===== src/Rorc/Crorc.antt =====
-- RORC/src/Crorc/CrorcDmaChannel.cxx, with RORC/src/Crorc/ReadyFifo.h. The methods of class Crorc are
-- commands to the card. The card writes the entries of the ready FIFO while the driver runs, so a
-- read of an entry asks the card. Sleeps and log messages are left out.
pub mod State
pub mod Device
pub mod Transfer
pub mod Pages
pub mod Push
mod Tests
