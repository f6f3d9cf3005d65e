-- ===== src/Bitbang/Loopback.antt =====
-- The receiver of uart.c on a line: one level for each bit period, as rx_timer_cb samples it in
-- the middle of the bit. A falling edge raises the interrupt of the RX pin.
pub mod Cells
pub mod Frames
use testings.Prelude.{ℕ, Bool, true, not, ◌&&◌, List, [], ◌∷◌, ◌==◌, if◌then◌else◌}
use testings.Kernel.Kfifo.{Kfifo}
use testings.Bitbang.State.{BitbangUart}
use testings.Bitbang.Rx.{Tick, rx_irq_handler, rx_timer_cb}

module _ {F : Type 0} where
  -- IRQF_TRIGGER_FALLING: from a high level `p` to the low level `v`, if the line is enabled
  unfoldable pub on_edge : ℕ → BitbangUart F → ℕ → BitbangUart F
  on_edge p d v = if d.irq_depth == 0 && (not (p == 0) && v == 0) then rx_irq_handler d v else d

module _ (K : Kfifo) where
  open K use {Fifo}

  -- The timer, if it is active, calls back once in this bit period.
  unfoldable pub sample : BitbangUart Fifo → ℕ → BitbangUart Fifo
  sample d v =
      let t : Tick Fifo = rx_timer_cb K d v in
      if d.rx_timer then record (t.next) { rx_timer = t.restart } else d

  unfoldable pub hear : ℕ → BitbangUart Fifo → ℕ → BitbangUart Fifo
  unfolding sample on_edge
  hear p d v = sample (on_edge p d v) v

  -- `p` is the level before the first of the list.
  unfoldable pub listen : ℕ → BitbangUart Fifo → List ℕ → BitbangUart Fifo
  unfolding hear
  listen p d [] = d
  listen p d (v ∷ vs) = listen v (hear p d v) vs
