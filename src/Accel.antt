-- ===== src/Accel.antt =====
-- accel/spi_accel.c: the driver of the ADXL345, an accelerometer that reports taps.
pub mod Device
pub mod Taps
pub mod Probe
pub mod Registers
pub mod Axes
pub mod Unwind
mod Tests
