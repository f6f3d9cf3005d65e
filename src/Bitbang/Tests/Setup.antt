-- ===== src/Bitbang/Tests/Setup.antt =====
-- The set-up of the driver at concrete answers of the kernel.
use testings.Prelude.{ℕ, ◌≡◌, arith, true, false, ◌≢◌, if◌then◌else◌}
use testings.Prelude.Int.{ℤ, pos, negsuc}
use testings.Kernel.Kfifo.{Kfifo}
use testings.Kernel.Kfifo.Bounded.{list_fifo}
use testings.Bitbang.Period.{Timing, IsTimed}
use testings.Bitbang.Init.{Held, Platform, RefusesBusy}

abbrev four : Kfifo
four = list_fifo 4 (omega arith)

abbrev idle : Held
idle = record { gpio = λ p. false; irq = false }

-- A kernel that grants what is free, with these answers for the input direction and the interrupt.
abbrev granting : ℤ → ℤ → Platform
granting input irq = record {
  alloc = true;
  request = λ h pin. if h.gpio pin then negsuc 15 else pos 0;
  direction_output = λ pin. pos 0;
  direction_input = λ pin. input;
  to_irq = λ pin. pos 77;
  request_irq = λ n. irq;
}

granting_refuses :
    (h : Held) (pin : ℕ) → h.gpio pin ≡ true → (if h.gpio pin then negsuc 15 else pos 0) ≢ pos 0
granting_refuses h pin e q = ground arith

granting-RefusesBusy : (input irq : ℤ) → RefusesBusy (granting input irq)
granting-RefusesBusy input irq = record { refuses = granting_refuses }

abbrev ten_ms : Timing
ten_ms = record { period_ms = 10; period = 10000000; half_period = 5000000; dbg_lvl = 0 }

ten_ms-IsTimed : IsTimed ten_ms
ten_ms-IsTimed = omega arith
