-- ===== src/GpiodUart.antt =====
-- openwrt/kernel/soft_uart/gpt/gpio_uart_tty_gpiod.c: the GPIO UART whose writers fill a ring. The ring
-- is that of tx_ring.c, whose functions it repeats.
pub mod Tx
pub mod Frame
pub mod Deaf
pub mod Filling
pub mod Setup
mod Tests
use testings.Prelude.{
  ℕ, zero, suc, ◌/◌, ◌%◌, ◌^◌, Bool, true, false, Option, none, some, List, [], ◌∷◌, ◌++◌, length,
  ltb, not, ◌==◌, if◌then◌else◌,
}
use testings.Prelude.Int.{ℤ, pos, negsuc}
use testings.TxRing.{TxRing, tx_ring_put}
use testings.GpioUart.State.{incr}
use testings.GpioUart.Rx.{next_pos, or_bit}

-- `struct gpio_uart` with its configuration and statistics. `initialized` is what tty_port_initialized
-- says, and `flip` the characters that were given to the tty, the oldest first.
pub record GpiodUart : Type 0 where
  pub baud : ℕ
  pub parity : ℕ
  pub stopbits : ℕ
  pub tx_enable : Bool
  pub rx_enable : Bool
  pub bit_period : ℕ
  pub tx_bytes : ℕ
  pub rx_bytes : ℕ
  pub framing_errors : ℕ
  pub rx_busy : Bool
  pub rx_byte : ℕ
  pub rx_bitpos : ℤ
  pub initialized : Bool
  pub flip : List ℕ
  pub tx_ring : TxRing

-- The new state, and the interval by which hrtimer_forward_now moved the timer if it was called; each
-- call returns HRTIMER_RESTART.
pub record RxCall : Type 0 where
  pub next : GpiodUart
  pub forward : Option ℕ

-- The stop bit.
unfoldable pub rx_stop : GpiodUart → ℕ → GpiodUart
rx_stop g v =
    if not (v == 1)
    then record g { framing_errors = incr g.framing_errors; rx_busy = false }
    else if g.initialized
    then record g { flip = g.flip ++ g.rx_byte ∷ []; rx_bytes = incr g.rx_bytes; rx_busy = false }
    else record g { rx_busy = false }

-- Busy: the position has been moved on already.
unfoldable pub rx_sample : GpiodUart → ℤ → ℕ → RxCall
unfolding or_bit rx_stop
rx_sample g (pos n) v =
    let last = if g.parity == 0 then 8 else 9 in
    if ltb n 8
    then record { next = record g { rx_byte = or_bit g.rx_byte n v }; forward = some g.bit_period }
    else if ltb n last
    then record { next = record g { rx_busy = false }; forward = none }
    else record { next = rx_stop g v; forward = none }
rx_sample g (negsuc n) v = record { next = record g { rx_busy = false }; forward = none }

-- `v` is the level that get_rx_level reads.
unfoldable pub rx_timer_cb : GpiodUart → ℕ → RxCall
unfolding rx_sample
rx_timer_cb g v =
    let p = next_pos g.rx_bitpos in
    if not g.rx_enable
    then record { next = g; forward = none }
    else if not g.rx_busy
    then (if v == 0
        then record {
          next = record g { rx_busy = true; rx_bitpos = negsuc 0; rx_byte = 0 };
          forward = some (g.bit_period / 2);
        }
        else record { next = g; forward = some g.bit_period })
    else rx_sample (record g { rx_bitpos = p }) p v

-- The loop of gu_tty_write, which ignores what tx_ring_put returns.
unfoldable pub put_all : List ℕ → TxRing → TxRing
unfolding tx_ring_put
put_all [] r = r
put_all (b ∷ bs) r = put_all bs (tx_ring_put r b).1

unfoldable pub gu_tty_write : List ℕ → GpiodUart → ℤ × GpiodUart
unfolding put_all
gu_tty_write buf g = (pos (length buf), record g { tx_ring = put_all buf g.tx_ring })

abbrev pub nsec_per_sec : ℕ
nsec_per_sec = 1000000000

-- What gu_set_termios reads: tty_get_baud_rate, and whether PARENB, PARODD and CSTOPB are set.
pub record Termios : Type 0 where
  pub baud : ℕ
  pub parenb : Bool
  pub parodd : Bool
  pub cstopb : Bool

unfoldable pub gu_set_termios : Termios → GpiodUart → GpiodUart
gu_set_termios t g =
    let baud = if t.baud == 0 then g.baud else t.baud in
    record g {
      baud = baud;
      parity = if t.parenb then (if t.parodd then 1 else 2) else 0;
      stopbits = if t.cstopb then 2 else 1;
      bit_period = if baud == 0 then g.bit_period else nsec_per_sec / baud;
    }

-- -EINVAL, the division by zero, or the state with the new rate.
pub data Stored : Type 0 where
  refused divides_by_zero : Stored
  stored : GpiodUart → Stored

-- `v` is the `unsigned long` that kstrtoul reads, if it reads one.
unfoldable pub baud_store : Option ℕ → GpiodUart → Stored
baud_store none g = refused
baud_store (some v) g =
    let baud = if v == 0 then g.baud else v % 2 ^ 32 in
    if baud == 0
    then divides_by_zero
    else stored (record g { baud = baud; bit_period = nsec_per_sec / baud })

-- One call of the timer for each of the levels.
unfoldable pub rx_run : List ℕ → GpiodUart → GpiodUart
unfolding rx_timer_cb
rx_run [] g = g
rx_run (v ∷ vs) g = rx_run vs (rx_timer_cb g v).next
