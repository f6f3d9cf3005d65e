-- ===== src/SpiSlave/Transfer.antt =====
-- spi_imx_transfer, spi_imx_prepare_message, init_rx_thread and proc_status_show of spi-slave-main.c.
use testings.Prelude.{
  ℕ, ◌+◌, ◌-◌, ◌*◌, ◌%◌, ◌^◌, Bool, true, false, Option, none, some, List, [], ◌∷◌, map, ltb, ◌==◌,
  if◌then◌else◌,
}
use testings.Prelude.Int.{ℤ, pos, negsuc, is_nonzero}
use testings.Kernel.Errno.{success, efault, erestartsys}
use testings.Kernel.Wait.{Wait, woken, interrupted}
use testings.SpiSlave.Ring.{Circ, rxring_remove, rxring_clear}
use testings.SpiSlave.State.{SpiImxData, no_stats}

-- What a transfer returns, the dwords that it has written to `rx_buf`, and whether it returns with
-- `rx_lock` held.
pub record Transferred : Type 0 where
  pub ret : ℤ
  pub written : List ℕ
  pub locked : Bool
  pub device : SpiImxData

-- `swab32` is the kernel's.
module _ (C : Circ) (swab32 : ℕ → ℕ) where
  abbrev pub n_ready : SpiImxData → ℕ
  n_ready d = C.cnt d.rx_ring.head d.rx_ring.tail

  -- with the lock held and a packet ready
  unfoldable pub take_packet : SpiImxData → ℕ → Transferred
  take_packet d len = elim (d.rx_ring.buf d.rx_ring.tail) [
    | pos idx ↦ record {
      ret = pos len;
      written = map swab32 (d.packets idx);
      locked = false;
      device = record d { rx_ring = rxring_remove d.rx_ring };
    }
    | negsuc n ↦ record { ret = efault; written = []; locked = true; device = d }
  ]

  -- `none`: the waits of the list are over and the caller is still blocked.
  unfoldable pub spi_imx_transfer : List (Wait SpiImxData) → SpiImxData → ℕ → Option Transferred
  unfolding take_packet
  spi_imx_transfer [] d len = if n_ready d == 0 then none else some (take_packet d len)
  spi_imx_transfer (woken e ∷ ws) d len =
      let again = spi_imx_transfer ws e len in
      if n_ready d == 0 then again else some (take_packet d len)
  spi_imx_transfer (interrupted e ∷ ws) d len =
      if n_ready d == 0
      then some (record { ret = erestartsys; written = []; locked = false; device = e })
      else some (take_packet d len)

-- `created` is 0 or what IS_ERR finds in the thread.
unfoldable pub init_rx_thread : ℤ → SpiImxData → ℤ × SpiImxData
init_rx_thread created d =
    if is_nonzero created
    then (created, record d { rx_thrd = false })
    else (success, record d { rx_thrd = true })

-- What is shown is a formatted copy of the statistics.
unfoldable pub proc_status_show : SpiImxData → SpiImxData
proc_status_show d = record d { stats = record d.stats { max_ring_used = 0 } }

-- The difference of the jiffies is cut to an `unsigned`; `hz` is HZ.
unfoldable pub spi_imx_prepare_message : ℕ → ℕ → ℤ → SpiImxData → ℤ × SpiImxData
unfolding init_rx_thread
spi_imx_prepare_message hz now created d =
    let delta = (now + 2 ^ 64 - d.stats.last_message_jiffies) % 2 ^ 32 in
    let r = record d { stats = no_stats; rx_ring = rxring_clear d.rx_ring } in
    let d1 = if ltb (4 * hz) delta then r else d in
    let d2 = record d1 { stats = record d1.stats { last_message_jiffies = now } } in
    if d2.rx_thrd then (success, d2) else init_rx_thread created d2
