-- ===== src/GpioUart/State.antt =====
-- `struct gu_cfg`, `struct gu_stats` and the receiver's part of `struct gpio_uart`.
use testings.Prelude.{ℕ, ◌+◌, ◌%◌, ◌^◌, Bool, List}
use testings.Prelude.Int.{ℤ}

-- `u64 n; n++`
abbrev pub incr : ℕ → ℕ
incr n = (n + 1) % 2 ^ 64

-- With `bit_period`, which stands beside it in `struct gpio_uart`, in nanoseconds.
pub record GuCfg : Type 0 where
  pub baud : ℕ
  pub parity : ℕ
  pub stopbits : ℕ
  pub invert : Bool
  pub tx_enable : Bool
  pub rx_enable : Bool
  pub bit_period : ℕ

pub record GuStats : Type 0 where
  pub tx_bytes : ℕ
  pub rx_bytes : ℕ
  pub framing_errors : ℕ
  pub rx_errors : ℕ
  pub overrun_errors : ℕ

-- `initialized` is what tty_port_initialized says, and `flip` the characters that were given to the
-- tty, the oldest first.
pub record GpioUart : Type 0 where
  pub cfg : GuCfg
  pub st : GuStats
  pub rx_busy : Bool
  pub rx_byte : ℕ
  pub rx_bitpos : ℤ
  pub initialized : Bool
  pub flip : List ℕ
