-- ===== src/Lib.antt =====
-- A model of the readout software of the FLP prototype: the parts of it that decide what happens to
-- data and to the cards that deliver it, and what holds of them.
--
-- A card (C-RORC, CRU, or a dummy) writes data into the superpages of a buffer. A DMA channel (RORC/src)
-- hands free superpages to the card, sees which of them have arrived, and gives them back to the client in
-- the order of their arrival; all of a channel's methods run in one thread. The readout (Readout/src)
-- passes blocks of data between threads through the FIFO of the common library (Common/include/Common).
--
-- The files:
--   Base: tests, lists over the native numbers, int arithmetic, and outcomes: what a method leaves is
--     a result and a state, an exception and a state, or undefined behaviour (an index out of a vector,
--     the front of an empty queue, a value that was never written). boost::circular_buffer is a
--     parameter, CircularBuffer: its push_back() appends where there is room.
--   Common: the common library.
--     Fifo: Common/include/Common/Fifo.h; Fifo.Turns is the same code as steps of a writer and a reader
--       that take turns in any order, each up to its next access to what they share.
--     LineBuffer: Common/src/LineBuffer.cxx. What select() and read() give is a list of inputs; the loop over
--       the lines of one read has the size of the buffer as its fuel.
--     SuffixNumber: Common/include/Common/SuffixNumber.h and Common/src/SuffixNumber.cxx.
--   DataFormat: the data format library, DataFormat/src.
--     MemPool: MemPool.cxx, the pool of pages, with one call at a time.
--   Readout: the readout, Readout/src.
--     Aggregator: DataBlockAggregator.cxx, one round of its thread.
--     DataChecker: ConsumerDataChecker.cxx, with memory as a list of 32-bit words and a fuel for the pages.
--   Rorc: the readout cards, RORC/src.
--     Superpage, Error: include/ReadoutCard/Superpage.h, and the exceptions by their messages.
--     Queue: SuperpageQueue.h, the internal queues of the C-RORC channel.
--     Dma: DmaChannelPdaBase.cxx, the DMA state in front of the device, and the check of a superpage;
--       a subclass is a parameter. Opening: the constructors of DmaChannelBase.cxx and DmaChannelPdaBase.cxx.
--     Pda: PdaDmaBuffer.cxx and PdaBar.h, the scatter-gather list and the range check of a BAR.
--     Bits, Bar, BarAccessor: Utilities/Util.h, the register interface and Cru/BarAccessor.h. A card is
--       a parameter: it answers a read with any value and may refuse any access, given all accesses so
--       far.
--     Cru: Cru/CruDmaChannel.cxx, with the queues of the links and the ready queue.
--     Crorc: Crorc/CrorcDmaChannel.cxx and Crorc/ReadyFifo.h, as State, Device (what is sent to the card)
--       and Transfer (pages, arrivals and the calls of the client). The methods of class Crorc are commands; a
--       card answers them with any value and may refuse any, given all commands so far, and so are the
--       entries of the ready FIFO, which the card writes. A failed assertion counts as undefined.
--     CrorcCard: class Crorc and the flash functions of Crorc/Crorc.cxx, by their register accesses: Constants
--       (Crorc/Constants.h), Registers, Link (commands and status words, Crorc/StWord.h), DataGenerator,
--       Reset, Status (ddlInterpretIFSTW()), Flash, Program (programFlash()) and Serial (getSerial()). The
--       others are proofs: Polling and Waits on the loops that check the card up to a number of times,
--       Send, Commands and Answer on the protocol of the link, FlashWrites to FlashProgram on what is
--       written to the flash, NotGood to FlashStuck on when it counts as stuck.
--     Sca: CommandLineUtilities/AliceLowlevelFrontend/Sca.cxx, the slow-control adapter, as Flags (checkError()),
--       Items and Sequence (what one command does) and Gpio (initialize() and gpioWrite()).
--     LinkMask: Parameters.cxx, linkMaskFromString().
--     Dummy: Dummy/DummyDmaChannel.cxx.
--
-- Numbers of the types size_t, uintptr_t, uint32_t and uint8_t are natural numbers with the wrap-around
-- written out where a sum or a conversion can exceed them. The loops recur on the length of what they
-- go through, on a number of rounds known before, or on a fuel; the theorems say how much of it is enough.
--
-- Not modelled: log messages, sleeps, the PDA library, the operating system (locks, files, memory
-- mappings), floating-point conversions and the formatting of text.
pub mod Base
pub mod Common
pub mod DataFormat
pub mod Readout
pub mod Rorc
