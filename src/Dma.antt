-- ===== src/Dma.antt =====
-- fuzz_dma: the generator of random DMA engine programs and their expected transfers.
pub mod Rand
pub mod Schedule
pub mod Structure
pub mod Tree
pub mod Output
pub mod Program
pub mod Tests
pub mod Transfers
