-- ===== src/Rorc/CrorcCard.antt =====
-- Class Crorc and the flash functions of RORC/src/Crorc/Crorc.cxx, which drive a C-RORC by its
-- registers. Sleeping does nothing to the model.
pub mod Constants
pub mod Registers
pub mod Polling
pub mod Link
pub mod DataGenerator
pub mod Rules
pub mod Waits
pub mod Send
pub mod Commands
pub mod Word
pub mod Answer
pub mod Reset
pub mod ResetSiu
pub mod Loopback
pub mod Powers
pub mod Blocks
pub mod Receiver
pub mod EmptyFifos
pub mod Flash
pub mod Program
pub mod Serial
pub mod FlashWrites
pub mod FlashErase
pub mod FlashWords
pub mod FlashChunks
pub mod NotGood
pub mod FlashGrows
pub mod FlashSettle
pub mod FlashStuck
pub mod FlashProgram
pub mod SerialNumber
pub mod Status
pub mod PortStates
mod Tests
