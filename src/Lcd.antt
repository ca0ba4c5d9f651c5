-- ===== src/Lcd.antt =====
-- i2c_class/i2c_class.c: a driver of the LTC3206, which controls five LEDs of two displays.
pub mod Device
pub mod Nibbles
pub mod Brightness
pub mod Probe
mod Tests
