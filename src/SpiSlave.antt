-- ===== src/SpiSlave.antt =====
-- linux/kernel/slave-spi-driver: an SPI slave that takes packets off a serial line in a thread and
-- hands them to the readers of the bus through a ring of buffers.
pub mod Ring
pub mod State
pub mod Receive
pub mod Transfer
pub mod System
pub mod Setup
mod Tests
