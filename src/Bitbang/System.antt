-- ===== src/Bitbang/System.antt =====
-- The driver as a whole: its operations in any order, each at once.
pub mod Timers
pub mod Invariant
use testings.Prelude.{ℕ, ◌<◌, ◌≡◌, ◌≢◌, Bool, true, false, List, []}
use testings.Kernel.Kfifo.{Kfifo}
use testings.Bitbang.State.{BitbangUart, fresh}
use testings.Bitbang.Tx.{Tick, tx_timer_cb}
use testings.Bitbang.Rx.{rx_irq_handler}
use testings.Bitbang.Loopback.{sample}
use testings.Bitbang.Device.{int_max, rx_copy, tx_copy, bitbang_uart_open, bitbang_uart_close}

module _ (K : Kfifo) where
  open K use {Fifo, User, contents, is_empty, is_full}

  -- The transmit timer expires.
  unfoldable pub tx_expire : BitbangUart Fifo → BitbangUart Fifo
  tx_expire d = let t : Tick Fifo = tx_timer_cb K d in record (t.next) { tx_timer = t.restart }

  -- A file is closed only while one is open; there are fewer than INT_MAX of them.
  pub data Step (d : BitbangUart Fifo) : BitbangUart Fifo → Type 0 where
    opened : d.open_count < int_max → Step d (bitbang_uart_open K d).1
    closed : 0 < d.open_count → Step d (bitbang_uart_close K d)
    edge : (v : ℕ) → d.irq_depth ≡ 0 → Step d (rx_irq_handler d v)
    tx_tick : d.tx_timer ≡ true → Step d (tx_expire d)
    rx_tick : (v : ℕ) → d.rx_timer ≡ true → Step d (sample K d v)
    reads : (u : User) (n : ℕ) → is_empty d.rx_fifo ≡ false → Step d (rx_copy K d u n).1
    writes : (u : User) (n : ℕ) → is_full d.tx_fifo ≡ false → Step d (tx_copy K d u n).1

  -- From the end of bitbang_uart_init, with an RX pin.
  pub data Reach : BitbangUart Fifo → Type 0 where
    start :
        (tx rx : Fifo) (tx_gpio rx_gpio : ℕ)
        → rx_gpio ≢ 0
        → contents tx ≡ []
        → contents rx ≡ []
        → Reach (fresh tx rx tx_gpio rx_gpio)
    later : {d e : BitbangUart Fifo} → Reach d → Step d e → Reach e
