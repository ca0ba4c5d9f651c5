-- ===== src/Keyled.antt =====
-- keyled/keyled_rpi_class.c: LEDs in sysfs, one of which may blink, with a period set by two keys.
pub mod Device
pub mod Flags
pub mod Probe
pub mod Ranges
pub mod Unwind
mod Tests
