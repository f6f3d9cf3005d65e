-- ===== src/SoftuartTty/Probe.antt =====
-- What suart_probe and suart_init leave.
use testings.Prelude.{
  ℕ, ◌-◌, ◌%◌, ◌^◌, ◌<◌, ◌≡◌, ◌⊎◌, refl, sym, ◌∙◌, Bool, true, false, not, ltb, arith, if_cases,
}
use testings.Prelude.Int.{ℤ, is_nonzero}
use testings.Kernel.Errno.{success, enomem}
use testings.TtyLoopback.Setup.{to_int}
use testings.SoftuartTty.{
  Claimed, nothing, everything, is_err_value, Answers, suart_probe, suart_remove, unloaded,
  suart_init, suart_exit,
}

-- The low 32 bits of an address are those of an error.
abbrev pub looks_bad : ℕ → Bool
looks_bad p = ltb (2 ^ 32 - 4096) (p % 2 ^ 32)

-- How suart_probe ends, by what the calls answer, in their order: the first one that fails decides.
pub data Ended (A : Answers) : ℤ × Claimed → Type 0 where
  no_driver : A.alloc_driver ≡ false → Ended A (enomem, nothing)
  unregistered :
      A.alloc_driver ≡ true
      → is_nonzero A.register_driver ≡ true
      → Ended A (A.register_driver, nothing)
  refused :
      A.alloc_driver ≡ true
      → is_nonzero A.register_driver ≡ false
      → looks_bad A.register_device ≡ true
      → is_nonzero (to_int A.register_device) ≡ true
      → Ended A (
        to_int A.register_device,
        record nothing { device = ltb A.register_device (2 ^ 64 - 4095) },
      )
  works :
      A.alloc_driver ≡ true
      → is_nonzero A.register_driver ≡ false
      → looks_bad A.register_device ≡ false
      → suart_remove everything ≡ nothing
      → Ended A (success, everything)

bad_value : (p : ℕ) → is_err_value (to_int p) ≡ looks_bad p
bad_value p = ground arith

bad_nonzero : (p : ℕ) → looks_bad p ≡ true → is_nonzero (to_int p) ≡ true
bad_nonzero p h = ground arith

good_device : (p : ℕ) → p < 2 ^ 64 → looks_bad p ≡ false → ltb p (2 ^ 64 - 4095) ≡ true
good_device p s h = ground arith

-- suart_probe returns ENOMEM, or the error of the registration of the driver, and has claimed nothing, if
-- the allocation of the driver or its registration fails. If they succeed, it takes the pointer that
-- registers the device as an error exactly if its low 32 bits are those of one, which they are for each
-- error: it then returns them as an `int`, which is not 0, and gives back the port, the tty driver and
-- its registration, but not the device if the pointer is one; and else it returns 0 with everything
-- claimed, which suart_remove gives back.
pub suart_probe-Ended : (A : Answers) → A.register_device < 2 ^ 64 → Ended A (suart_probe A nothing)
unfolding suart_probe suart_remove
suart_probe-Ended A h =
    if_cases (Ended A) (not A.alloc_driver) (λ e. no_driver (ground arith))
      (λ a.
        let driver : A.alloc_driver ≡ true = ground arith in
        if_cases (Ended A) (is_nonzero A.register_driver) (λ e. unregistered driver e)
          (λ d.
            if_cases (Ended A) (is_err_value (to_int A.register_device))
              (λ e.
                let bad = sym (bad_value A.register_device) ∙ e in
                refused driver d bad (bad_nonzero A.register_device bad))
              (λ e.
                let good = sym (bad_value A.register_device) ∙ e in
                rw (good_device A.register_device h good) (works driver d good refl))))

-- suart_init returns 0 and has registered both, which suart_exit takes back with the memory, or returns an
-- error and has claimed nothing.
suart_init_lem :
    (kzalloc : Bool) (pdev driver : ℤ)
    → (suart_init kzalloc pdev driver unloaded
          ≡ (success, record { memory = true; pdev = true; driver = true }))
        × (suart_exit (suart_init kzalloc pdev driver unloaded).1 ≡ unloaded)
      ⊎ (is_nonzero (suart_init kzalloc pdev driver unloaded).0 ≡ true)
        × ((suart_init kzalloc pdev driver unloaded).1 ≡ unloaded)
unfolding suart_init suart_exit
suart_init_lem kzalloc pdev driver = ground arith
