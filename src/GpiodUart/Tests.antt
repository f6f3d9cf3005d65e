-- ===== src/GpiodUart/Tests.antt =====
-- A UART at 9600 baud with parity.
use testings.Prelude.{
  ◌++◌, ℕ, ◌≡◌, refl, true, false, some, List, [], ◌∷◌, length, replicate, inl, arith,
}
use testings.Prelude.Int.{pos}
use testings.Kernel.Errno.{success, einval}
use testings.TxRing.{TxRing}
use testings.GpiodUart.{
  GpiodUart, rx_timer_cb, rx_run, gu_tty_write, baud_store, stored, divides_by_zero,
}
use testings.Prelude.Bits.{bits_of}
use testings.GpiodUart.Frame.{ready, received, rx_run-received}
use testings.GpiodUart.Deaf.{IsEarly, heard, rx_run-heard}
use testings.GpiodUart.Filling.{Holds, none_yet, samples, writes, stores, Happens-Holds}
use testings.GpiodUart.Setup.{Answers, Ended, nothing, gpio_uart_init, gpio_uart_init-Ended}

abbrev empty_ring : TxRing
empty_ring = record { buf = replicate 512 0; head = 0; tail = 0 }

abbrev uart : GpiodUart
uart = record {
  baud = 9600;
  parity = 2;
  stopbits = 1;
  tx_enable = true;
  rx_enable = true;
  bit_period = 104166;
  tx_bytes = 0;
  rx_bytes = 0;
  framing_errors = 0;
  rx_busy = false;
  rx_byte = 0;
  rx_bitpos = pos 0;
  initialized = true;
  flip = [];
  tx_ring = empty_ring;
}

-- The frame of 0x41 with even parity.
abbrev levels : List ℕ
levels = 0 ∷ 1 ∷ 0 ∷ 0 ∷ 0 ∷ 0 ∷ 0 ∷ 1 ∷ 0 ∷ 0 ∷ 1 ∷ []

-- Without a parity, the same byte is received.
plain_run :
    (rx_run (0 ∷ 1 ∷ 0 ∷ 0 ∷ 0 ∷ 0 ∷ 0 ∷ 1 ∷ 0 ∷ 1 ∷ []) (record uart { parity = 0 })).flip
    ≡ 0x41 ∷ []
unfolding rx_run
plain_run = refl

rx_run-received_example :
    rx_run (0 ∷ (bits_of 0x41 ++ 1 ∷ [])) (ready uart) ≡ received (ready uart) 0x41 1
rx_run-received_example = rx_run-received uart 0x41 1 (omega arith)

rx_run-heard_example : (heard (rx_run levels uart) ≡ heard uart) × IsEarly (rx_run levels uart)
rx_run-heard_example = rx_run-heard levels uart (λ e. absurd (omega arith)) (inl refl)

store_run : baud_store (some 4294967296) uart ≡ divides_by_zero
unfolding baud_store
store_run = refl

abbrev slower : GpiodUart
slower = record uart { baud = 4800; bit_period = 208333 }

slower_stored : baud_store (some 4800) uart ≡ stored slower
unfolding baud_store
slower_stored = refl

empty-Holds : Holds [] empty_ring
empty-Holds = record {
  valid = record { storage = refl; head_in = omega arith; tail_in = omega arith };
  first = refl;
}

abbrev two_bytes : List ℕ
two_bytes = 1 ∷ 2 ∷ []

abbrev written : GpiodUart
written = (gu_tty_write two_bytes (rx_timer_cb slower 0).next).1

Happens-Holds_example :
    Holds two_bytes written.tx_ring × ((gu_tty_write two_bytes written).0 ≡ pos (length two_bytes))
Happens-Holds_example =
    Happens-Holds uart written two_bytes two_bytes empty-Holds
      (writes two_bytes (samples 0 (stores 4800 slower_stored none_yet)))

abbrev no_device : Answers
no_device = record {
  default_baud = 9600;
  kzalloc = true;
  alloc_driver = true;
  register_driver = success;
  register_device = einval;
  proc_create = true;
  kobject_create = true;
}

gpio_uart_init-Ended_example : Ended no_device (gpio_uart_init no_device nothing)
gpio_uart_init-Ended_example = gpio_uart_init-Ended no_device
