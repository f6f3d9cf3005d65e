-- ===== src/Bitbang/Tests/Binding.antt =====
-- bitbang_probe and bitbang_remove at concrete answers of the kernel.
use testings.Prelude.{ℕ, ◌≡◌, ◌≢◌, ◌⊎◌, refl, [], arith, true, false, none, if◌then◌else◌}
use testings.Prelude.Int.{ℤ, pos, negsuc, is_nonzero}
use testings.Kernel.Kfifo.{Kfifo}
use testings.Kernel.Kfifo.Bounded.{list_fifo}
use testings.Bitbang.State.{BitbangUart, fresh}
use testings.Bitbang.Init.{Held, Platform, RefusesBusy}
use testings.Bitbang.Init.Claims.{SameHeld}
use testings.Bitbang.Probe.{Registered, DevAttr, has, Registry, bitbang_probe, Probed}
use testings.Bitbang.Probe.Unwinding.{RefusesTwice, only_dbg, probe_fails}

abbrev fifo : Kfifo
fifo = list_fifo 4 (omega arith)

abbrev nothing : Held
nothing = record { gpio = λ p. false; irq = false }

-- A kernel that refuses only what is taken, with this answer for the interrupt.
abbrev lenient : ℤ → Platform
lenient irq = record {
  alloc = true;
  request = λ h pin. if h.gpio pin then negsuc 15 else pos 0;
  direction_output = λ pin. pos 0;
  direction_input = λ pin. pos 0;
  to_irq = λ pin. pos 77;
  request_irq = λ n. irq;
}

lenient_refuses :
    (h : Held) (pin : ℕ) → h.gpio pin ≡ true → (if h.gpio pin then negsuc 15 else pos 0) ≢ pos 0
lenient_refuses h pin e q = ground arith

lenient-RefusesBusy : (irq : ℤ) → RefusesBusy (lenient irq)
lenient-RefusesBusy irq = record { refuses = lenient_refuses }

abbrev registry : Registry
registry = record {
  alloc = true;
  alloc_chrdev_region = pos 0;
  cdev_add = pos 0;
  class_create = pos 0;
  device_create = pos 0;
  device_create_file = λ r a. if has r a then negsuc 16 else pos 0;
  proc_create_data = true;
}

registry_refuses :
    (r : Registered) (a : DevAttr)
    → has r a ≡ true
    → is_nonzero (if has r a then negsuc 16 else pos 0) ≡ true
registry_refuses r a e = rw e refl

registry-RefusesTwice : RefusesTwice registry
registry-RefusesTwice = record { twice = registry_refuses }

-- What bitbang_probe does where nothing is registered.
abbrev probed : ℤ → Probed fifo
probed irq = bitbang_probe fifo registry (lenient irq) 530 532 10 0 [] [] (only_dbg false) nothing

-- The interrupt is refused with -EBUSY.
probe_fails_example :
    SameHeld nothing (probed (negsuc 15)).held
    × ((probed (negsuc 15)).uart ≡ none)
    × (((probed (negsuc 15)).regs ≡ only_dbg false) ⊎ ((probed (negsuc 15)).regs ≡ only_dbg true))
unfolding bitbang_probe
probe_fails_example =
    probe_fails fifo registry (lenient (negsuc 15)) (lenient-RefusesBusy (negsuc 15)) 530 532 10 0
      [] [] false nothing refl refl (λ e. cc)

abbrev opened : BitbangUart fifo.Fifo
opened = fresh [] [] 530 532

abbrev again : Probed fifo
again = bitbang_probe fifo registry (lenient (pos 0)) 530 532 10 0 [] [] (only_dbg true) nothing
