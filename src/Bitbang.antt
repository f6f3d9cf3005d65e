-- ===== src/Bitbang.antt =====
-- openwrt/kernel/soft_uart/bitbang: a UART bit-banged on two GPIO pins behind a character device.
pub mod State
pub mod Parity
pub mod Tx
pub mod Rx
pub mod Loopback
pub mod Device
pub mod System
pub mod Period
pub mod Init
pub mod Probe
mod Tests
