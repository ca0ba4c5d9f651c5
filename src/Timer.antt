-- ===== src/Timer.antt =====
-- timer_module/timer_module.c: an LED that a kernel timer blinks.
pub mod Device
pub mod Blink
pub mod Period
pub mod Unwind
mod Tests
