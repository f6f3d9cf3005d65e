-- ===== src/Lib.antt =====
-- Kernel drivers: UARTs made of GPIO pins and timers, under openwrt/kernel/soft_uart, character
-- devices on fifos and on a buffer, under openwrt/kernel/gpt, and an SPI slave, under
-- linux/kernel/slave-spi-driver. Besides them a proxy for packets, under python/udp_xor_proxy, and the
-- keys of a phone, under qt/qkeywin.
--
-- The parts and their files:
--
-- Bitbang: the driver of openwrt/kernel/soft_uart/bitbang. `BitbangUart` (Bitbang/State) is
-- `struct bitbang_uart` of uart.c, over any fifo. tx_timer_cb is Bitbang/Tx; rx_irq_handler and
-- rx_timer_cb are Bitbang/Rx; parity_even8 is Bitbang/Parity; bitbang_rx, bitbang_tx,
-- bitbang_uart_open and bitbang_uart_close, and the read and write of bitbang-main.c on top of
-- them, are Bitbang/Device; gpio_init, irq_init, bitbang_uart_init and bitbang_uart_exit are
-- Bitbang/Init; bitbang_probe and bitbang_remove, with the attributes and the proc entry that they
-- make and remove, are Bitbang/Probe; the bit times, with period_store and dbg_store of bitbang-sysfs.c and the module
-- parameter of bitbang-main.c, are Bitbang/Period. A callback of a timer is a function from a
-- state to the next one with what it does to the pin and what it returns; tx_run and rx_run
-- call it again for as long as it returns HRTIMER_RESTART. Bitbang/Loopback puts the levels of a
-- transmitter on the line of a receiver. Bitbang/System is the driver at large: a step is one
-- open, close, edge, timer call, read or write, in any order.
--
-- Kernel: what the drivers use of the kernel. kfifo is a parameter, the record of operations and
-- laws `Kfifo` (Kernel/Kfifo), which a bounded list can fill (Kernel/Kfifo/Bounded); so are the
-- copies from and to a user's buffer (Kernel/UserBuffer) and the flip buffer of a tty
-- (Kernel/FlipBuffer); the errno values are Kernel/Errno.
--
-- TxRing: the ring buffer of openwrt/kernel/soft_uart/gpt/tx_ring.c. TxRing/Queue compares it with
-- a bounded queue.
--
-- GpioUart: openwrt/kernel/soft_uart/gpt/gpio_uart_tty.c. gu_set_termios and the stores of its
-- attributes are GpioUart/Config; uart_tx_byte and gu_tty_write are GpioUart/Tx, a byte being the
-- levels that go out, each with the delay after it; rx_timer_cb is GpioUart/Rx, with the interval
-- by which it forwards its timer, and rx_timed calls it whenever that timer expires, on a line
-- with a level at each time, hrtimer_forward_now being a parameter; gpio_uart_init and
-- gpio_uart_exit are GpioUart/Setup.
--
-- GpiodUart: openwrt/kernel/soft_uart/gpt/gpio_uart_tty_gpiod.c. The receiver, the writes into a ring as
-- in TxRing and the settings are GpiodUart itself; gpio_uart_init and gpio_uart_exit are
-- GpiodUart/Setup.
--
-- KfifoRxtx: the character device of openwrt/kernel/gpt/kfifo_rxtx.c, over any fifo. The interrupt
-- handler, tx_work_fn and the file operations are KfifoRxtx itself; KfifoRxtx/Steps takes them in any
-- order; mydev_module_init and mydev_module_exit are KfifoRxtx/Setup.
--
-- KfifoDevice: the simpler device of openwrt/kernel/gpt/kfifo.c, whose one fifo is read and written.
-- mydev_init and mydev_exit are KfifoDevice/Setup.
--
-- SpiSlave: linux/kernel/slave-spi-driver/spi-slave-main.c. SpiSlave/Ring is the ring of packets, with
-- CIRC_CNT and CIRC_SPACE as a parameter; the thread, paketizer, receive_packet and rx_thrd_fn, is
-- SpiSlave/Receive; spi_imx_transfer, spi_imx_prepare_message and what the proc file resets are
-- SpiSlave/Transfer; spi_imx_probe and spi_imx_remove are SpiSlave/Setup. SpiSlave/System takes the
-- parts that hold the lock, the dwords that come in and the messages in any order, and keeps the
-- queue of the packets that the ring stands for.
--
-- UdpProxy: python/udp_xor_proxy/udp_xor_proxy_multi_cleanup.c. xor_buffer and the key are
-- UdpProxy/Xor; get_client and cleanup_thread are UdpProxy/Clients, over the clients with their
-- sockets; the loop of main is UdpProxy/Loop, whose steps, with those of the cleanup, come in any
-- order; parse_hostport is UdpProxy/Arguments. The threads of udp_xor_proxy.c, the program for one
-- client, are UdpProxy/Single.
--
-- SimplePdrv: openwrt/kernel/gpt/simple_pdrv_cdev_full.c. The attribute and the file operations are
-- SimplePdrv itself; SimplePdrv/Contents and SimplePdrv/Reads follow writes and reads by one file;
-- SimplePdrv/System takes stores and writes in any order; the probe and the loading of the module
-- are SimplePdrv/Setup.
--
-- TtyLoopback: openwrt/kernel/soft_uart/gpt/tty_loopback.c. lb_write and lb_set_termios are
-- TtyLoopback itself; lb_probe, with the pointer that it takes as an `int`, and lb_init are
-- TtyLoopback/Setup.
--
-- SoftuartTty: openwrt/kernel/soft_uart/gpt/softuart_tty.c, and DummyUart:
-- openwrt/kernel/soft_uart/dummy_uart/dummy_uart-main.c: what their probes claim and give back.
--
-- KeysManager: qt/qkeywin/KeysManager.cpp. startEdit, stopEdit, setShift and setEditButtons are
-- KeysManager/Edit; the key events and timerEvent are KeysManager/Keys. What the widgets and the
-- listeners get is a log, the last first; KeysManager/System takes the slots, the key events and
-- the timer in any order.
--
-- Prelude: names and lemmas that the others share.
--
-- Numbers are natural numbers, with the wrap-around of counters and positions written out: the
-- statistics of Bitbang are modulo 2 ^ 32, those of GpioUart modulo 2 ^ 64, those of SpiSlave one
-- or the other by their types, and open_count is a 32-bit pattern. Positions in a character, which
-- start at -1, are integers, as are the indices in the ring of SpiSlave. Characters of UdpProxy
-- are numbers below 256.
--
-- Each callback and each locked part runs at once, without interleaving inside it, and so does a
-- round of the loop of the proxy for several clients. Where a read, a write or a transfer waits,
-- the list of its waits says how each ends and which state it then finds, since others may have
-- changed it; `none` is a caller that is still blocked. Fuel is used by tx_run, as a number of
-- timer calls, of which a frame takes twelve at most, and by the loop of tx_work_fn, as a number
-- of rounds: one more than the fifo holds. The results about them say how much is enough. The
-- loops of receive_packet and rx_thrd_fn go through a list of what each round finds, and `none` is
-- a loop that goes on; the search for a free packet has a round for each of the 16384 flags, and
-- the loop of timerEvent one for each of the 20 keys.
--
-- Not modelled: log messages and tracing, what the proc files show, the latency of timers, the
-- registers of the SPI controller (spi-slave-hw.c) but for what they read, the arguments and the
-- sockets that the main functions of the proxies set up, the label and the connections of the
-- buttons of KeysManager, and the operations that only call the tty
-- layer. The hardware and the kernel appear by what they return: the level that a pin reads, the
-- result of requesting a pin or an interrupt, the signal that ends a wait, the socket that the
-- proxy gets and the datagrams in it. The other files of these directories and the rest of the
-- repository are separate programs.
pub mod Prelude
pub mod Kernel
pub mod Bitbang
pub mod TxRing
pub mod GpioUart
pub mod KfifoRxtx
pub mod KfifoDevice
pub mod SpiSlave
pub mod UdpProxy
pub mod KeysManager
pub mod SimplePdrv
pub mod TtyLoopback
pub mod GpiodUart
pub mod DummyUart
pub mod SoftuartTty
