-- ===== src/Keys.antt =====
-- wait_int_dev/sleep_module.c: key presses from an interrupt handler to a reader that sleeps.
pub mod Device
pub mod Queue
pub mod Fifo
pub mod Probe
mod Tests
