-- ===== src/Dma.antt =====
-- dma: the drivers that copy a buffer by a DMA channel.
pub mod Engine
pub mod Samples
pub mod M2m
pub mod Mmap
pub mod Sg
pub mod Completion
