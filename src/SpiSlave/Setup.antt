-- ===== src/SpiSlave/Setup.antt =====
-- spi_imx_probe and spi_imx_remove of spi-slave-main.c: what they take and give back. What the calls
-- named devm_ take is given back by the kernel.
use testings.Prelude.{
  ℕ, ◌+◌, ◌-◌, ◌≡◌, ◌≢◌, ◌⊎◌, inl, inr, refl, sym, ap, ◌∙◌, Bool, true, false, not, ◌||◌, ◌==◌,
  if◌then◌else◌, arith,
}
use testings.Prelude.Int.{ℤ, is_nonzero, is_negative, negative_is_nonzero}
use testings.Kernel.Errno.{success, enomem}

-- `refs` counts the references to the controller that the driver holds: its memory has the
-- spi_imx_data, and is freed with the last. `packets` and `ring` are the buffers that are allocated,
-- `ecspi` says whether the hardware is enabled, `rx_thrd` whether the thread runs, and `stale`
-- whether the spi_imx_data was read after it was freed.
pub record Bound : Type 0 where
  pub refs : ℕ
  pub registered : Bool
  pub clk_per : Bool
  pub clk_ipg : Bool
  pub packets : Bool
  pub ring : Bool
  pub proc : Bool
  pub ecspi : Bool
  pub rx_thrd : Bool
  pub stale : Bool

abbrev pub unbound : Bound
unbound = record {
  refs = 0;
  registered = false;
  clk_per = false;
  clk_ipg = false;
  packets = false;
  ring = false;
  proc = false;
  ecspi = false;
  rx_thrd = false;
  stale = false;
}

-- What the kernel answers: the `int` that each call returns or that IS_ERR finds, and whether each
-- call that gives a pointer succeeds.
pub record Answers : Type 0 where
  pub spi_alloc_slave : Bool
  pub ioremap_resource : ℤ
  pub platform_get_irq : ℤ
  pub clk_get_ipg : ℤ
  pub clk_get_per : ℤ
  pub clk_enable_per : ℤ
  pub clk_enable_ipg : ℤ
  pub spi_bitbang_start : ℤ
  pub kzalloc_packets : Bool
  pub kzalloc_ring : Bool
  pub proc_create : Bool

-- The labels of spi_imx_probe, each of which falls through to the next.
abbrev pub out_master_put : Bound → Bound
out_master_put b = record b { refs = b.refs - 1 }

abbrev pub out_put_per : Bound → Bound
out_put_per b = out_master_put (record b { clk_per = false })

abbrev pub out_bitbang_start : Bound → Bound
out_bitbang_start b = out_put_per (record b { clk_ipg = false })

abbrev pub out_proc_create : Bound → Bound
out_proc_create b = out_bitbang_start (record b { packets = false; ring = false })

-- spi_bitbang_start takes a reference to the controller, and spi_bitbang_stop gives it back.
abbrev pub bitbang_started : Bound → Bound
bitbang_started b = record b { registered = true; refs = b.refs + 1 }

abbrev pub bitbang_stopped : Bound → Bound
bitbang_stopped b = record b { registered = false; refs = b.refs - 1 }

module _ (A : Answers) where
  -- spi_imx_probe once the controller is registered
  unfoldable pub probe_proc : Bound → ℤ × Bound
  probe_proc b =
      let e = record b { packets = A.kzalloc_packets; ring = A.kzalloc_ring } in
      if not A.proc_create
      then (enomem, out_proc_create e)
      else (A.spi_bitbang_start, record e { proc = true })

  -- spi_imx_probe once the first clock runs
  unfoldable pub probe_start : Bound → ℤ × Bound
  unfolding probe_proc
  probe_start b =
      let e = record b { clk_ipg = true; ecspi = true } in
      if is_nonzero A.clk_enable_ipg
      then (A.clk_enable_ipg, out_put_per b)
      else if is_nonzero A.spi_bitbang_start
      then (A.spi_bitbang_start, out_bitbang_start e)
      else probe_proc (bitbang_started e)

  -- spi_imx_probe once the controller is allocated
  unfoldable pub probe_clocks : Bound → ℤ × Bound
  unfolding probe_start
  probe_clocks b =
      if is_nonzero A.ioremap_resource
      then (A.ioremap_resource, out_master_put b)
      else if is_negative A.platform_get_irq
      then (A.platform_get_irq, out_master_put b)
      else if is_nonzero A.clk_get_ipg
      then (A.clk_get_ipg, out_master_put b)
      else if is_nonzero A.clk_get_per
      then (A.clk_get_per, out_master_put b)
      else if is_nonzero A.clk_enable_per
      then (A.clk_enable_per, out_master_put b)
      else probe_start (record b { clk_per = true })

  unfoldable pub spi_imx_probe : Bound → ℤ × Bound
  unfolding probe_clocks
  spi_imx_probe b =
      if not A.spi_alloc_slave then (enomem, b) else probe_clocks (record b { refs = 1 })

-- A read of the spi_imx_data.
abbrev pub touched : Bound → Bound
touched b = record b { stale = b.stale || (b.refs == 0) }

-- spi_imx_remove from RXRING_FREE on
unfoldable pub remove_buffers : Bound → Bound
remove_buffers b = record (touched (record (touched b) { ring = false })) { packets = false }

unfoldable pub spi_imx_remove : Bound → Bound
unfolding remove_buffers
spi_imx_remove b =
    let stopped = bitbang_stopped (record (touched b) { proc = false; rx_thrd = false }) in
    remove_buffers (out_master_put (record (touched stopped) { ecspi = false }))

-- The controller is still registered, its buffers and its clocks are not there.
abbrev pub stranded : Bound
stranded = record unbound { refs = 1; registered = true; ecspi = true }

-- What a probe that succeeds has taken.
abbrev pub bound : Answers → Bound
bound A = record {
  refs = 2;
  registered = true;
  clk_per = true;
  clk_ipg = true;
  packets = A.kzalloc_packets;
  ring = A.kzalloc_ring;
  proc = true;
  ecspi = true;
  rx_thrd = false;
  stale = false;
}

pub spi_imx_probe_lem :
    (A : Answers)
    → (spi_imx_probe A unbound ≡ (success, bound A))
      ⊎ (is_nonzero (spi_imx_probe A unbound).0 ≡ true)
        × ((spi_imx_probe A unbound).1
            ≡ record unbound { ecspi = (spi_imx_probe A unbound).1.ecspi })
      ⊎ (spi_imx_probe A unbound ≡ (enomem, stranded)) × (A.proc_create ≡ false)
unfolding spi_imx_probe
spi_imx_probe_lem A = ground (arith, negative_is_nonzero A.platform_get_irq)

remove_bound :
    (A : Answers) (running : Bool)
    → spi_imx_remove (record (bound A) { rx_thrd = running })
      ≡ record unbound { clk_per = true; clk_ipg = true; stale = true }
unfolding spi_imx_remove
remove_bound A running = refl

not_success : (z : ℤ) → is_nonzero z ≡ true → z ≢ success
not_success z h e = cc

-- After a probe that has returned 0, with the thread running or not: spi_imx_remove gives back all
-- but the two clocks, which stay enabled, and reads the spi_imx_data after it was freed.
pub spi_imx_remove_lem :
    (A : Answers) (running : Bool)
    → (spi_imx_probe A unbound).0 ≡ success
    → spi_imx_remove (record (spi_imx_probe A unbound).1 { rx_thrd = running })
      ≡ record unbound { clk_per = true; clk_ipg = true; stale = true }
spi_imx_remove_lem A running s = elim (spi_imx_probe_lem A) [
  | inl e ↦
      ap (λ (o : ℤ × Bound). spi_imx_remove (record o.1 { rx_thrd = running })) e
      ∙ remove_bound A running
  | inr (inl (n, rest)) ↦ absurd (not_success (spi_imx_probe A unbound).0 n s)
  | inr (inr (e, rest)) ↦ absurd (not_success enomem refl (sym (ap (λ (o : ℤ × Bound). o.0) e) ∙ s))
]
