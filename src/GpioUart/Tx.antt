-- ===== src/GpioUart/Tx.antt =====
-- parity_bit_out, uart_tx_byte and gu_tty_write of gpio_uart_tty.c.
pub mod Waveform
use testings.Prelude.{
  ℕ, zero, suc, ◌+◌, ◌/◌, ◌%◌, ◌^◌, Bool, true, false, not, List, [], ◌∷◌, ◌++◌, ◌==◌,
  if◌then◌else◌,
}
use testings.Prelude.Int.{ℤ, pos}
use testings.Prelude.Bits.{popcount}
use testings.Kernel.Errno.{eio}
use testings.GpioUart.State.{GuCfg, GuStats, GpioUart, incr}

-- A level on the TX pin, and the udelay that follows it, in microseconds.
abbrev pub Pulse : Type 0
Pulse = ℕ × ℕ

-- set_tx_level; a level is 0 or 1.
abbrev pub set_tx_level : GuCfg → ℕ → ℕ
set_tx_level c v = if c.invert then (if v == 0 then 1 else 0) else v

unfoldable pub parity_bit_out : ℕ → ℕ → ℕ
parity_bit_out b mode =
    let pop = popcount b % 2 in
    if mode == 1
    then (if pop == 0 then 1 else 0)
    else if mode == 2
    then (if pop == 0 then 0 else 1)
    else 0

module _ (c : GuCfg) (us : ℕ) where
  pulse : ℕ → Pulse
  pulse v = (set_tx_level c v, us)

  -- `n` rounds of the loop over the data bits, from `i`.
  data_pulses : ℕ → ℕ → ℕ → List Pulse
  unfolding pulse
  data_pulses zero i b = []
  data_pulses (suc n) i b = pulse (b / 2 ^ i % 2) ∷ data_pulses n (i + 1) b

  parity_pulses : ℕ → List Pulse
  unfolding pulse
  parity_pulses b =
      let pop = popcount b % 2 in
      if c.parity == 0
      then []
      else pulse
          (if c.parity == 2 then (if pop == 0 then 0 else 1) else (if pop == 0 then 1 else 0))
        ∷ []

  stop_pulses : ℕ → List Pulse
  unfolding pulse
  stop_pulses zero = []
  stop_pulses (suc n) = pulse 1 ∷ stop_pulses n

-- What goes out, and the statistics afterwards.
unfoldable pub uart_tx_byte : GuCfg → ℕ → GuStats → List Pulse × GuStats
unfolding data_pulses parity_pulses stop_pulses
uart_tx_byte c b st =
    let us = 1000000 / c.baud in
    let sent =
      pulse c us 0
      ∷ (data_pulses c us 8 0 b ++ (parity_pulses c us b ++ stop_pulses c us c.stopbits)) in
    if not c.tx_enable
    then ([], st)
    else if c.baud == 0
    then ([], st)
    else (sent, record st { tx_bytes = incr st.tx_bytes })

-- The loop of gu_tty_write.
unfoldable pub tx_bytes : GuCfg → List ℕ → GuStats → List Pulse × GuStats
unfolding uart_tx_byte
tx_bytes c [] st = ([], st)
tx_bytes c (b ∷ bs) st =
    let (out, st') = uart_tx_byte c b st in
    let (rest, st'') = tx_bytes c bs st' in (out ++ rest, st'')

-- `count` is the length of `buf`.
unfoldable pub gu_tty_write : ℕ → List ℕ → GpioUart → ℤ × List Pulse × GpioUart
unfolding tx_bytes
gu_tty_write count buf g =
    let r = tx_bytes g.cfg buf g.st in
    if not g.cfg.tx_enable then (eio, [], g) else (pos count, r.0, record g { st = r.1 })
