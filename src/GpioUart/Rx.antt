-- ===== src/GpioUart/Rx.antt =====
-- rx_timer_cb of gpio_uart_tty.c: looks for a start bit, then takes one sample a call.
pub mod Frame
pub mod Early
use Prim.Native.Nat.{bit_or}
use testings.Prelude.{
  ℕ, zero, suc, ◌+◌, ◌*◌, ◌/◌, ◌%◌, ◌^◌, Bool, true, false, not, ◌&&◌, Option, none, some, List, [],
  ◌∷◌, ◌++◌, ltb, ◌==◌, if◌then◌else◌,
}
use testings.Prelude.Int.{ℤ, pos, negsuc}
use testings.GpioUart.State.{GuCfg, GuStats, GpioUart, incr}

-- What a call does: the new state, the interval by which hrtimer_forward_now moved the timer if it
-- was called, and whether it returns HRTIMER_RESTART.
pub record RxCall : Type 0 where
  pub next : GpioUart
  pub forward : Option ℕ
  pub restart : Bool

-- What gpiod_get_value reads is 0 or 1.
abbrev pub get_rx_level : GuCfg → ℕ → ℕ
get_rx_level c v = if c.invert then (if v == 0 then 1 else 0) else v

-- `rx_bitpos++`
abbrev pub next_pos : ℤ → ℤ
next_pos (pos n) = pos (n + 1)
next_pos (negsuc zero) = pos 0
next_pos (negsuc (suc n)) = negsuc n

-- `rx_byte |= (bit << rx_bitpos)`, on a u8.
unfoldable pub or_bit : ℕ → ℕ → ℕ → ℕ
or_bit byte n bit = bit_or byte (bit * 2 ^ n) % 256

-- Not busy: a low level is taken as the start bit.
unfoldable pub rx_look : GpioUart → ℕ → RxCall
rx_look g v =
    if v == 0
    then record {
      next = record g { rx_busy = true; rx_bitpos = negsuc 0; rx_byte = 0 };
      forward = some (g.cfg.bit_period / 2);
      restart = true;
    }
    else record { next = g; forward = none; restart = true }

-- The stop bit: the byte is delivered or a framing error counted.
unfoldable pub rx_stop : GpioUart → ℕ → GpioUart
rx_stop g v =
    if v == 1
    then record g {
      flip = if g.initialized then g.flip ++ g.rx_byte ∷ [] else g.flip;
      st = record g.st { rx_bytes = incr g.st.rx_bytes };
      rx_busy = false;
    }
    else record g {
      st = record g.st { framing_errors = incr g.st.framing_errors };
      rx_busy = false;
    }

-- The position has been moved on already.
unfoldable pub rx_sample : GpioUart → ℤ → ℕ → RxCall
unfolding or_bit rx_stop
rx_sample g (pos n) v =
    let wait = some g.cfg.bit_period in
    if ltb n 8
    then record {
      next = record g { rx_byte = or_bit g.rx_byte n v };
      forward = wait;
      restart = true;
    }
    else if not (g.cfg.parity == 0) && n == 8
    then record { next = g; forward = wait; restart = true }
    else record { next = rx_stop g v; forward = none; restart = true }
rx_sample g (negsuc n) v = record {
  next = record g { rx_busy = false };
  forward = none;
  restart = true;
}

-- `v` is the level that gpiod_get_value reads.
unfoldable pub rx_timer_cb : GpioUart → ℕ → RxCall
unfolding rx_look rx_sample
rx_timer_cb g v =
    let p = next_pos g.rx_bitpos in
    let level = get_rx_level g.cfg v in
    if not g.cfg.rx_enable
    then record { next = g; forward = none; restart = false }
    else if g.rx_busy
    then rx_sample (record g { rx_bitpos = p }) p level
    else rx_look g level

-- One call for each of the levels.
unfoldable pub rx_run : List ℕ → GpioUart → GpioUart
unfolding rx_timer_cb
rx_run [] g = g
rx_run (v ∷ vs) g = rx_run vs (rx_timer_cb g v).next

-- When the timer expires next that expires at `t`: `forward_now t i` is where hrtimer_forward_now, called
-- at that time, moves it with the interval `i`; if it is not called, HRTIMER_RESTART restarts the timer
-- as it is.
abbrev pub expires : (ℕ → ℕ → ℕ) → Option ℕ → ℕ → ℕ
expires forward_now none t = t
expires forward_now (some i) t = forward_now t i

-- `n` calls, the first when the timer expires at `t`, on a line with a level at each time.
unfoldable pub rx_timed : (ℕ → ℕ → ℕ) → ℕ → (ℕ → ℕ) → ℕ → GpioUart → GpioUart
unfolding rx_timer_cb
rx_timed forward_now zero line t g = g
rx_timed forward_now (suc n) line t g =
    let c = rx_timer_cb g (line t) in
    let rest = rx_timed forward_now n line (expires forward_now c.forward t) c.next in
    if c.restart then rest else c.next
