-- ===== src/Kernel/Wait.antt =====
-- wait_event_interruptible.

-- How one wait ends, and the state that the caller then finds, which other threads and the interrupt
-- may have changed: it returns 0, or -ERESTARTSYS on a signal.
pub data Wait (S : Type 0) : Type 0 where
  woken : S → Wait S
  interrupted : S → Wait S
