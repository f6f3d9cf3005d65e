-- ===== src/KfifoRxtx.antt =====
-- openwrt/kernel/gpt/kfifo_rxtx.c: a character device with two fifos. The interrupt fills the one
-- that is read, a work item drains the one that is written.
pub mod Steps
pub mod Calls
pub mod Setup
mod Tests
use testings.Prelude.{
  ℕ, zero, suc, ◌+◌, ◌-◌, ◌%◌, ◌^◌, Bool, true, false, not, Option, none, some, List, [], ◌∷◌, ◌++◌,
  ◌==◌, if◌then◌else◌,
}
use testings.Prelude.Int.{ℤ, pos, is_nonzero}
use testings.Kernel.Errno.{success, eagain, erestartsys}
use testings.Kernel.Kfifo.{Kfifo, Transfer}
use testings.Kernel.Kfifo.Overwrite.{overwrite}
use testings.Kernel.Wait.{Wait, woken, interrupted}

-- `struct mydev`. `irq_held` says whether the interrupt is requested, `tx_work` whether the work
-- item is scheduled; `hw` is what hw_tx_send_byte was given, the oldest first.
pub record Mydev (F : Type 0) : Type 0 where
  pub rx_fifo : F
  pub tx_fifo : F
  pub open_count : ℕ
  pub irq_held : Bool
  pub tx_work : Bool
  pub hw : List ℕ

abbrev pub int_max : ℕ
int_max = 2 ^ 31 - 1

-- `ret` if it is not 0, else `copied`.
abbrev reply : {F : Type 0} → Transfer F → ℤ
reply t = if is_nonzero t.ret then t.ret else pos t.copied

module _ (K : Kfifo) where
  open K use {Fifo, User, is_empty, is_full, get, to_user, from_user}

  -- `level` is what gpiod_get_value reads.
  unfoldable pub mydev_irq_handler : Mydev Fifo → ℕ → Mydev Fifo
  mydev_irq_handler d level = record d {
    rx_fifo = overwrite K d.rx_fifo (if level == 0 then 0 else 1);
  }

  -- At most `n` rounds of the loop.
  unfoldable pub drain : ℕ → Fifo → List ℕ → Fifo × List ℕ
  drain zero f sent = (f, sent)
  drain (suc n) f sent = elim (get f).0 [
    | none ↦ ((get f).1, sent)
    | some b ↦ drain n (get f).1 (sent ++ b ∷ [])
  ]

  -- The work item is not scheduled any more when it runs.
  unfoldable pub tx_work_fn : ℕ → Mydev Fifo → Mydev Fifo
  unfolding drain
  tx_work_fn n d =
      let r = drain n d.tx_fifo d.hw in record d { tx_fifo = r.0; hw = r.1; tx_work = false }

  -- with the lock held
  unfoldable pub read_copy : Mydev Fifo → User → ℕ → ℤ × Mydev Fifo
  read_copy d u n = let t = to_user d.rx_fifo u n in (reply t, record d { rx_fifo = t.fifo })

  -- `d` is the state that the test finds and `w` how the wait ends if there is one; `e` is the state
  -- when the lock is taken without a wait.
  unfoldable pub mydev_read :
      Bool → Wait (Mydev Fifo) → Mydev Fifo → Mydev Fifo → User → ℕ → ℤ × Mydev Fifo
  unfolding read_copy
  mydev_read nonblock w d e u n =
      let waited : ℤ × Mydev Fifo = elim w [
        | woken x ↦ read_copy x u n
        | interrupted x ↦ (erestartsys, x)
      ] in
      if n == 0
      then (success, d)
      else if is_empty d.rx_fifo
      then (if nonblock then (eagain, d) else waited)
      else read_copy e u n

  -- with the lock held, then schedule_work unless there was a fault
  unfoldable pub write_copy : Mydev Fifo → User → ℕ → ℤ × Mydev Fifo
  write_copy d u n =
      let t = from_user d.tx_fifo u n in
      (
        reply t,
        record d { tx_fifo = t.fifo; tx_work = if is_nonzero t.ret then d.tx_work else true },
      )

  -- The loop, from a state that its test finds; `lock` is the state in which the lock is taken, from
  -- the one that the last test found. `none`: still blocked after the waits of the list.
  unfoldable pub write_loop :
      Bool
      → List (Wait (Mydev Fifo))
      → (Mydev Fifo → Mydev Fifo)
      → Mydev Fifo
      → User
      → ℕ
      → Option (ℤ × Mydev Fifo)
  unfolding write_copy
  write_loop nonblock [] lock d u n =
      if is_full d.tx_fifo
      then (if nonblock then some (eagain, d) else none)
      else some (write_copy (lock d) u n)
  write_loop nonblock (woken e ∷ ws) lock d u n =
      let again = write_loop nonblock ws lock e u n in
      if is_full d.tx_fifo
      then (if nonblock then some (eagain, d) else again)
      else some (write_copy (lock d) u n)
  write_loop nonblock (interrupted e ∷ ws) lock d u n =
      if is_full d.tx_fifo
      then (if nonblock then some (eagain, d) else some (erestartsys, e))
      else some (write_copy (lock d) u n)

  unfoldable pub mydev_write :
      Bool
      → List (Wait (Mydev Fifo))
      → (Mydev Fifo → Mydev Fifo)
      → Mydev Fifo
      → User
      → ℕ
      → Option (ℤ × Mydev Fifo)
  unfolding write_loop
  mydev_write nonblock ws lock d u n =
      if n == 0 then some (success, d) else write_loop nonblock ws lock d u n

  -- Whether POLLIN and POLLRDNORM, and whether POLLOUT and POLLWRNORM, are set.
  unfoldable pub mydev_poll : Mydev Fifo → Bool × Bool
  mydev_poll d = (not (is_empty d.rx_fifo), not (is_full d.tx_fifo))

  -- `irq` is what request_irq returns.
  unfoldable pub mydev_open : ℤ → Mydev Fifo → ℤ × Mydev Fifo
  mydev_open irq d =
      let count = if d.open_count == int_max then d.open_count else d.open_count + 1 in
      if d.open_count == 0
      then (if is_nonzero irq
          then (irq, record d { open_count = count - 1 })
          else (success, record d { open_count = count; irq_held = true }))
      else (success, record d { open_count = count })

  -- cancel_work_sync takes a work item that has not run off the queue.
  unfoldable pub mydev_release : Mydev Fifo → Mydev Fifo
  mydev_release d =
      let count = (d.open_count + 2 ^ 32 - 1) % 2 ^ 32 in
      if count == 0
      then record d { open_count = count; irq_held = false; tx_work = false }
      else record d { open_count = count }
