-- ===== src/GpioUart/Config.antt =====
-- gu_set_termios and the attributes of gpio_uart_tty.c. They divide by the baud rate; `none` is a
-- division by zero.
use testings.Prelude.{
  ℕ, ◌/◌, ◌%◌, ◌^◌, ◌≡◌, ◌≢◌, ◌⊎◌, Bool, true, false, not, ◌&&◌, ◌||◌, Option, none, some, arith,
  ltb, ◌==◌, if◌then◌else◌,
}
use testings.Prelude.Int.{ℤ, pos, is_nonzero}
use testings.Kernel.Errno.{einval}
use testings.GpioUart.State.{GuCfg}

-- `ktime_set(0, NSEC_PER_SEC / baud)`
abbrev pub bit_time : ℕ → ℕ
bit_time baud = 1000000000 / baud

-- What termios asks for: tty_get_baud_rate, and the bits PARENB, PARODD and CSTOPB of `c_cflag`.
pub record Termios : Type 0 where
  pub baud_rate : ℕ
  pub parenb : Bool
  pub parodd : Bool
  pub cstopb : Bool

unfoldable pub gu_set_termios : Termios → GuCfg → GuCfg
gu_set_termios t c =
    let baud = if t.baud_rate == 0 then c.baud else t.baud_rate in
    record c {
      baud = baud;
      parity = if t.parenb then (if t.parodd then 1 else 2) else 0;
      stopbits = if t.cstopb then 2 else 1;
      bit_period = if baud == 0 then c.bit_period else bit_time baud;
    }

-- The attributes that can be written.
pub data Attr : Type 0 where
  baud parity stopbits tx_enable rx_enable : Attr

-- `cfg.baud` is an `unsigned int`, and `v` an `unsigned long`.
unfoldable pub baud_store : ℕ → GuCfg → Option GuCfg
baud_store v c =
    let baud = if v == 0 then c.baud else v % 2 ^ 32 in
    if baud == 0 then none else some (record c { baud = baud; bit_period = bit_time baud })

-- What a store of the number `v` returns and leaves.
unfoldable pub store_value : Attr → ℕ → ℕ → GuCfg → Option (ℤ × GuCfg)
unfolding baud_store
store_value baud v count c = elim (baud_store v c) [ none ↦ none | some d ↦ some (pos count, d) ]
store_value parity v count c = some (pos count, record c { parity = v % 256 })
store_value stopbits v count c =
    if ltb v 1 || ltb 2 v
    then some (einval, c)
    else some (pos count, record c { stopbits = v % 256 })
store_value tx_enable v count c = some (pos count, record c { tx_enable = not (v == 0) })
store_value rx_enable v count c = some (pos count, record c { rx_enable = not (v == 0) })

-- Where kstrtoul returns `ret` and stores `v`.
unfoldable pub store : Attr → ℤ → ℕ → ℕ → GuCfg → Option (ℤ × GuCfg)
unfolding store_value
store a ret v count c = if is_nonzero ret then some (einval, c) else store_value a v count c

-- gpio_uart_init: the module's parameter, or 9600 if it is 0.
unfoldable pub init_cfg : ℕ → GuCfg
init_cfg default_baud =
    let b = if default_baud == 0 then 9600 else default_baud in
    record {
      baud = b;
      parity = 0;
      stopbits = 1;
      invert = false;
      tx_enable = true;
      rx_enable = true;
      bit_period = bit_time b;
    }

-- The bit time is that of a baud rate that is not 0, and there are one or two stop bits.
pub record IsConfigured (c : GuCfg) : Type 0 where
  pub rated : c.baud ≢ 0
  pub timed : c.bit_period ≡ bit_time c.baud
  pub stops : (c.stopbits ≡ 1) ⊎ (c.stopbits ≡ 2)

-- A store to any attribute that returns leaves a sound configuration, whatever is written.
pub store-IsConfigured :
    (a : Attr) (ret : ℤ) (v count : ℕ) (c : GuCfg) {r : ℤ} {d : GuCfg}
    → IsConfigured c
    → store a ret v count c ≡ some (r, d)
    → IsConfigured d
unfolding store
store-IsConfigured baud ret v count c i h = ground arith
store-IsConfigured parity ret v count c i h = ground arith
store-IsConfigured stopbits ret v count c i h = ground arith
store-IsConfigured tx_enable ret v count c i h = ground arith
store-IsConfigured rx_enable ret v count c i h = ground arith

-- gu_set_termios keeps a sound configuration, whatever is asked for.
pub termios-IsConfigured :
    (t : Termios) (c : GuCfg) → IsConfigured c → IsConfigured (gu_set_termios t c)
unfolding gu_set_termios
termios-IsConfigured t c i = ground arith

init-IsConfigured : (n : ℕ) → IsConfigured (init_cfg n)
unfolding init_cfg
init-IsConfigured n = ground arith

-- A store to `baud` of a number other than 0 that is a multiple of 2 ^ 32 divides by zero; of any
-- other number it returns the count and leaves the rate (the old one for 0, else the number
-- modulo 2 ^ 32) with its bit time.
pub baud_store_lem :
    (v count : ℕ) (c : GuCfg)
    → IsConfigured c
    → store baud (pos 0) v count c ≡ (
        if not (v == 0) && v % 2 ^ 32 == 0
        then none
        else some (
          pos count,
          (if v == 0
              then c
              else record c { baud = v % 2 ^ 32; bit_period = bit_time (v % 2 ^ 32) }),
        ))
unfolding store
baud_store_lem v count c i = ground arith
