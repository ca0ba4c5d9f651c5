-- ===== src/IoExp.antt =====
-- i2c_io/i2c_io_expander.c: an expander of eight pins as a character device.
pub mod Device
pub mod Value
mod Tests
