-- ===== src/GpioUart.antt =====
-- openwrt/kernel/soft_uart/gpt/gpio_uart_tty.c: a UART bit-banged behind a tty. It sends by waiting
-- in place and receives by a timer.
pub mod State
pub mod Config
pub mod Tx
pub mod Rx
pub mod Setup
mod Tests
