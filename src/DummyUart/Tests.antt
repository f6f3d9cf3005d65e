-- ===== src/DummyUart/Tests.antt =====
-- The device cannot be registered.
use testings.Prelude.{true}
use testings.Kernel.Errno.{success, einval}
use testings.DummyUart.{Answers, nothing, Ended, bitbang_uart_probe, bitbang_uart_probe-Ended}

abbrev no_device : Answers
no_device = record {
  kzalloc = true;
  alloc_driver = true;
  register_driver = success;
  register_device = einval;
}

bitbang_uart_probe-Ended_example : Ended no_device (bitbang_uart_probe no_device nothing)
bitbang_uart_probe-Ended_example = bitbang_uart_probe-Ended no_device
