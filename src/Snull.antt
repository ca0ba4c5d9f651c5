-- ===== src/Snull.antt =====
-- snull/snull.c: two network devices that hand each other's packets over.
pub mod Types
pub mod Monad
pub mod Pool
pub mod Receive
pub mod Interrupt
pub mod Transmit
pub mod V2020
pub mod Config
pub mod Init
pub mod Returns
pub mod Inv
pub mod Deliver
pub mod System
pub mod Frame
pub mod Cache
pub mod Load
mod Samples
mod Tests
