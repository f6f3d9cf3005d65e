-- ===== src/Bitbang/Device.antt =====
-- What the character device calls in uart.c: bitbang_rx, bitbang_tx, bitbang_uart_open and
-- bitbang_uart_close; and the file operations of bitbang-main.c on top of them.
pub mod Reads
pub mod Writes
use testings.Prelude.{
  ℕ, ◌+◌, ◌-◌, ◌%◌, ◌^◌, Bool, true, not, ◌&&◌, Option, none, some, List, [], ◌∷◌, ◌==◌,
  if◌then◌else◌,
}
use testings.Prelude.Int.{ℤ, pos, negsuc, is_nonzero}
use testings.Kernel.Errno.{success, eagain, erestartsys}
use testings.Kernel.Kfifo.{Kfifo, Transfer}
pub use testings.Kernel.Wait.{Wait, woken, interrupted}
use testings.Bitbang.State.{BitbangUart}

abbrev pub int_max : ℕ
int_max = 2 ^ 31 - 1

-- `ret ? ret : copied`
abbrev pub reply : {F : Type 0} → Transfer F → ℤ
reply t = if is_nonzero t.ret then t.ret else pos t.copied

module _ (K : Kfifo) where
  open K use {Fifo, User, is_empty, is_full, reset, to_user, from_user}

  -- bitbang_rx once there is a byte
  unfoldable pub rx_copy : BitbangUart Fifo → User → ℕ → ℤ × BitbangUart Fifo
  rx_copy d u n = let t = to_user d.rx_fifo u n in (reply t, record d { rx_fifo = t.fifo })

  -- `none`: the waits of the list are over and the caller is still blocked.
  unfoldable pub bitbang_rx :
      List (Wait (BitbangUart Fifo)) → BitbangUart Fifo → User → ℕ → Option (ℤ × BitbangUart Fifo)
  unfolding rx_copy
  bitbang_rx [] d u n = if is_empty d.rx_fifo then none else some (rx_copy d u n)
  bitbang_rx (woken e ∷ ws) d u n =
      let again = bitbang_rx ws e u n in if is_empty d.rx_fifo then again else some (rx_copy d u n)
  bitbang_rx (interrupted e ∷ ws) d u n =
      if is_empty d.rx_fifo then some (erestartsys, e) else some (rx_copy d u n)

  -- bitbang_tx once there is room: it starts the timer if it copied and the timer is not active.
  unfoldable pub tx_copy : BitbangUart Fifo → User → ℕ → ℤ × BitbangUart Fifo
  tx_copy d u n =
      let t = from_user d.tx_fifo u n in
      (
        reply t,
        record d {
          tx_fifo = t.fifo;
          tx_timer = if not (t.copied == 0) && not d.tx_timer then true else d.tx_timer;
        },
      )

  unfoldable pub bitbang_tx :
      List (Wait (BitbangUart Fifo)) → BitbangUart Fifo → User → ℕ → Option (ℤ × BitbangUart Fifo)
  unfolding tx_copy
  bitbang_tx [] d u n = if is_full d.tx_fifo then none else some (tx_copy d u n)
  bitbang_tx (woken e ∷ ws) d u n =
      let again = bitbang_tx ws e u n in if is_full d.tx_fifo then again else some (tx_copy d u n)
  bitbang_tx (interrupted e ∷ ws) d u n =
      if is_full d.tx_fifo then some (erestartsys, e) else some (tx_copy d u n)

  -- `nonblock` is O_NONBLOCK in the file's flags. The test looks at `d` without the lock; `e` is
  -- the state that bitbang_rx finds when it starts.
  unfoldable pub bitbang_read :
      Bool
      → List (Wait (BitbangUart Fifo))
      → BitbangUart Fifo
      → BitbangUart Fifo
      → User
      → ℕ
      → Option (ℤ × BitbangUart Fifo)
  unfolding bitbang_rx
  bitbang_read nonblock ws d e u n =
      if is_empty d.rx_fifo && nonblock then some (eagain, d) else bitbang_rx ws e u n

  unfoldable pub bitbang_write :
      Bool
      → List (Wait (BitbangUart Fifo))
      → BitbangUart Fifo
      → BitbangUart Fifo
      → User
      → ℕ
      → Option (ℤ × BitbangUart Fifo)
  unfolding bitbang_tx
  bitbang_write nonblock ws d e u n =
      if is_full d.tx_fifo && nonblock then some (eagain, d) else bitbang_tx ws e u n

  -- The first open empties the receive fifo, ends both characters and enables the interrupt
  -- (enable_irq on an enabled line warns and changes nothing).
  unfoldable pub bitbang_uart_open : BitbangUart Fifo → ℤ × BitbangUart Fifo
  bitbang_uart_open d =
      let count = if d.open_count == int_max then d.open_count else d.open_count + 1 in
      let first = record d {
        open_count = count;
        rx_fifo = reset d.rx_fifo;
        tx_chr = record d.tx_chr { idx = negsuc 0 };
        rx_chr = record d.rx_chr { idx = negsuc 0 };
        irq_depth = d.irq_depth - 1;
      } in
      (success, if d.open_count == 0 then first else record d { open_count = count })

  -- `atomic_dec_return(&d->open_count) == 0`, on bit patterns
  unfoldable pub bitbang_uart_close : BitbangUart Fifo → BitbangUart Fifo
  bitbang_uart_close d =
      let count = (d.open_count + 2 ^ 32 - 1) % 2 ^ 32 in
      if count == 0
      then record d { open_count = count; rx_fifo = reset d.rx_fifo; irq_depth = d.irq_depth + 1 }
      else record d { open_count = count }
