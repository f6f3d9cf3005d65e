-- ===== src/KfifoDevice.antt =====
-- openwrt/kernel/gpt/kfifo.c: a character device on one fifo, which the interrupt and the writers
-- fill and the readers empty.
pub mod Calls
pub mod Setup
mod Tests
use testings.Prelude.{ℕ, ◌%◌, Bool, true, false, not, if◌then◌else◌}
use testings.Prelude.Int.{ℤ, pos, is_nonzero}
use testings.Kernel.Errno.{eagain, erestartsys}
use testings.Kernel.Kfifo.{Kfifo, Transfer}
use testings.Kernel.Kfifo.Overwrite.{overwrite}
use testings.Kernel.Wait.{Wait, woken, interrupted}

-- `ret ? ret : copied`, with the fifo afterwards.
abbrev reply : {F : Type 0} → Transfer F → ℤ × F
reply t = (if is_nonzero t.ret then t.ret else pos t.copied, t.fifo)

-- The fifo is all the state that the operations change.
module _ (K : Kfifo) where
  open K use {Fifo, User, is_empty, is_full, to_user, from_user}

  -- `level` is what gpiod_get_value returns, cut to a byte.
  unfoldable pub mydev_irq_handler : Fifo → ℕ → Fifo
  mydev_irq_handler f level = overwrite K f (level % 256)

  -- `f` is the fifo that the test finds, `w` how the wait ends if there is one, and `g` the fifo when
  -- the lock is taken without a wait.
  unfoldable pub mydev_read : Bool → Wait Fifo → (f g : Fifo) → User → ℕ → ℤ × Fifo
  mydev_read nonblock w f g u n =
      let waited : ℤ × Fifo = elim w [
        | woken x ↦ reply (to_user x u n)
        | interrupted x ↦ (erestartsys, x)
      ] in
      if is_empty f then (if nonblock then (eagain, f) else waited) else reply (to_user g u n)

  unfoldable pub mydev_write : Bool → Wait Fifo → (f g : Fifo) → User → ℕ → ℤ × Fifo
  mydev_write nonblock w f g u n =
      let waited : ℤ × Fifo = elim w [
        | woken x ↦ reply (from_user x u n)
        | interrupted x ↦ (erestartsys, x)
      ] in
      if is_full f then (if nonblock then (eagain, f) else waited) else reply (from_user g u n)

  -- Whether POLLIN and POLLRDNORM, and whether POLLOUT and POLLWRNORM, are set.
  unfoldable pub mydev_poll : Fifo → Bool × Bool
  mydev_poll f = (not (is_empty f), not (is_full f))
