-- ===== src/Bitbang/State.antt =====
-- `struct bitbang_uart`, `struct bitbang_chr` and `struct bitbang_stats` of uart.c and bitbang.h.
use testings.Prelude.{ℕ, ◌+◌, ◌%◌, ◌^◌, Bool, false, ◌==◌, if◌then◌else◌}
use testings.Prelude.Int.{ℤ, pos}

-- `int n; n++` as a bit pattern
abbrev pub incr : ℕ → ℕ
incr n = (n + 1) % 2 ^ 32

-- `value` is the field `data`.
pub record BitbangChr : Type 0 where
  pub idx : ℤ
  pub parity_bit : ℕ
  pub value : ℕ

pub record BitbangStats : Type 0 where
  pub tx_counter : ℕ
  pub rx_counter : ℕ
  pub rx_errs_start : ℕ
  pub rx_errs_stop : ℕ
  pub rx_errs_parity : ℕ

-- `F` is the type of the fifos. A timer is active from hrtimer_start until its callback returns
-- HRTIMER_NORESTART; `irq_depth`
-- counts the disable_irq calls that no enable_irq has undone: at 0 the line of the RX pin is on.
pub record BitbangUart (F : Type 0) : Type 0 where
  pub tx_timer : Bool
  pub rx_timer : Bool
  pub irq_depth : ℕ
  pub tx_fifo : F
  pub rx_fifo : F
  pub tx_chr : BitbangChr
  pub rx_chr : BitbangChr
  pub tx_gpio : ℕ
  pub rx_gpio : ℕ
  pub open_count : ℕ
  pub stats : BitbangStats

-- What devm_kzalloc and the end of bitbang_uart_init leave, with two empty fifos: all fields zero
-- but the pins and, if there is an RX pin, the one disable_irq of irq_init.
abbrev pub fresh : {F : Type 0} → F → F → ℕ → ℕ → BitbangUart F
fresh tx rx tx_gpio rx_gpio = record {
  tx_timer = false;
  rx_timer = false;
  irq_depth = if rx_gpio == 0 then 0 else 1;
  tx_fifo = tx;
  rx_fifo = rx;
  tx_chr = record { idx = pos 0; parity_bit = 0; value = 0 };
  rx_chr = record { idx = pos 0; parity_bit = 0; value = 0 };
  tx_gpio = tx_gpio;
  rx_gpio = rx_gpio;
  open_count = 0;
  stats = record {
    tx_counter = 0;
    rx_counter = 0;
    rx_errs_start = 0;
    rx_errs_stop = 0;
    rx_errs_parity = 0;
  };
}
