-- ===== src/LedModule.antt =====
-- led_module/led_module.c: three LEDs, each with a character device.
pub mod Device
pub mod Value
pub mod Init
mod Tests
