-- ===== src/Bitbang/System/Invariant.antt =====
-- What holds of the driver in every reachable state.
use testings.Prelude.{
  ℕ, ◌≤◌, ◌<◌, ◌≡◌, ◌⊎◌, inl, sym, subst, Bool, true, false, [], arith, if◌then◌else◌, ◌==◌,
}
use testings.Kernel.Kfifo.{Kfifo}
use testings.Bitbang.State.{BitbangUart}
use testings.Bitbang.Rx.{rx_irq_handler, rx_timer_cb}
use testings.Bitbang.Loopback.{sample}
use testings.Bitbang.Device.{int_max, rx_copy, tx_copy, bitbang_uart_open, bitbang_uart_close}
use testings.Bitbang.Device.Writes.{tx_copy-pending}
use testings.Bitbang.System.{
  Step, opened, closed, edge, tx_tick, rx_tick, reads, writes, tx_expire, Reach, start, later,
}
use testings.Bitbang.System.Timers.{
  InRange, RxSound, tx_timer_cb-range, tx_timer_cb-stops, rx_timer_cb-RxSound, tx_timer_cb-same,
  rx_timer_cb-same,
}

module _ (K : Kfifo) where
  open K use {Fifo, User, contents, get, get_byte, get_rest}

  -- `pending`: what waits to be sent has a timer that will send it. `enabled`: the interrupt is on
  -- while a file is open.
  pub record Inv (d : BitbangUart Fifo) : Type 0 where
    pub tx_range : InRange 10 d.tx_chr.idx
    pub pending : (contents d.tx_fifo ≡ []) ⊎ (d.tx_timer ≡ true)
    pub rx_sound : RxSound K d
    pub few : d.open_count ≤ int_max
    pub enabled : d.irq_depth ≡ (if d.open_count == 0 then 1 else 0)

  open-Inv : (d : BitbangUart Fifo) → d.open_count < int_max → Inv d → Inv (bitbang_uart_open K d).1
  unfolding bitbang_uart_open
  open-Inv d h i = ground arith

  close-Inv : (d : BitbangUart Fifo) → 0 < d.open_count → Inv d → Inv (bitbang_uart_close K d)
  unfolding bitbang_uart_close
  close-Inv d h i = ground arith

  edge-Inv : (d : BitbangUart Fifo) (v : ℕ) → Inv d → Inv (rx_irq_handler d v)
  unfolding rx_irq_handler
  edge-Inv d v i = ground arith

  tx_expire-Inv : (d : BitbangUart Fifo) → Inv d → Inv (tx_expire K d)
  unfolding tx_expire
  tx_expire-Inv d i =
      let (chr, count, depth) = tx_timer_cb-same K d in
      record {
        tx_range = tx_timer_cb-range K d i.tx_range;
        pending = tx_timer_cb-stops K d i.tx_range;
        rx_sound = record {
          range = subst (λ c. InRange 9 c.idx) (sym chr) (i.rx_sound.range);
          byte = subst (λ c. c.value < 256) (sym chr) (i.rx_sound.byte);
        };
        few = rw count (i.few);
        enabled = rw (count, depth) (i.enabled);
      }

  rx_expire-Inv :
      (d : BitbangUart Fifo) (v : ℕ) (t : Bool)
      → Inv d
      → Inv (record ((rx_timer_cb K d v).next) { rx_timer = t })
  rx_expire-Inv d v t i =
      let (chr, fifo, timer, count, depth) = rx_timer_cb-same K d v in
      let s = rx_timer_cb-RxSound K d v (i.rx_sound) in
      record {
        tx_range = rw chr (i.tx_range);
        pending = rw (fifo, timer) (i.pending);
        rx_sound = record { range = s.range; byte = s.byte };
        few = rw count (i.few);
        enabled = rw (count, depth) (i.enabled);
      }

  either-Inv : (b : Bool) {d e : BitbangUart Fifo} → Inv d → Inv e → Inv (if b then d else e)
  either-Inv true i j = i
  either-Inv false i j = j

  sample-Inv : (d : BitbangUart Fifo) (v : ℕ) → Inv d → Inv (sample K d v)
  unfolding sample
  sample-Inv d v i = either-Inv d.rx_timer (rx_expire-Inv d v (rx_timer_cb K d v).restart i) i

  read-Inv : (d : BitbangUart Fifo) (u : User) (n : ℕ) → Inv d → Inv (rx_copy K d u n).1
  unfolding rx_copy
  read-Inv d u n i = record {
    tx_range = i.tx_range;
    pending = i.pending;
    rx_sound = record { range = i.rx_sound.range; byte = i.rx_sound.byte };
    few = i.few;
    enabled = i.enabled;
  }

  write-Inv : (d : BitbangUart Fifo) (u : User) (n : ℕ) → Inv d → Inv (tx_copy K d u n).1
  unfolding tx_copy
  write-Inv d u n i = record {
    tx_range = i.tx_range;
    pending = tx_copy-pending K d u n (i.pending);
    rx_sound = record { range = i.rx_sound.range; byte = i.rx_sound.byte };
    few = i.few;
    enabled = i.enabled;
  }

  -- Every operation keeps the invariant.
  pub Step-Inv : {d e : BitbangUart Fifo} → Step K d e → Inv d → Inv e
  Step-Inv {d} (opened h) i = open-Inv d h i
  Step-Inv {d} (closed h) i = close-Inv d h i
  Step-Inv {d} (edge v h) i = edge-Inv d v i
  Step-Inv {d} (tx_tick h) i = tx_expire-Inv d i
  Step-Inv {d} (rx_tick v h) i = sample-Inv d v i
  Step-Inv {d} (reads u n h) i = read-Inv d u n i
  Step-Inv {d} (writes u n h) i = write-Inv d u n i

  -- So it holds from the start on: the positions in both characters are in range, so that neither
  -- callback takes its error branch; the byte being received is a byte; bytes that wait to be sent
  -- have an active timer; and the interrupt, where an RX pin is configured, is enabled exactly
  -- while a file is open.
  pub Reach-Inv : {d : BitbangUart Fifo} → Reach K d → Inv d
  Reach-Inv (start tx rx tx_gpio rx_gpio wired e f) = record {
    tx_range = omega arith;
    pending = inl e;
    rx_sound = record { range = omega arith; byte = omega arith };
    few = omega arith;
    enabled = ground arith;
  }
  Reach-Inv (later r s) = Step-Inv s (Reach-Inv r)
