-- ===== src/Wifi.antt =====
-- dummy_wifi/virtualwifi.c: a wireless device that finds one network.
pub mod Device
pub mod Scan
pub mod System
pub mod Account
pub mod Context
mod Tests
