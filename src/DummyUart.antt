-- ===== src/DummyUart.antt =====
-- openwrt/kernel/soft_uart/dummy_uart/dummy_uart-main.c: a tty that takes what is written and drops it.
mod Tests
use testings.Prelude.{
  ◌⊎◌, ℕ, ◌&&◌, ◌||◌, ap, subst, sym, Bool-cases, inl, inr, ◌≡◌, refl, if_cases, Bool, true, false,
  not, List, length, arith, if◌then◌else◌,
}
use testings.Prelude.Int.{ℤ, pos, is_nonzero}
use testings.Kernel.Errno.{success, enomem}

-- `bitbang_data`, which belongs to the device, is left out: the tty driver, its port, its registration
-- and the device.
pub record Claimed : Type 0 where
  pub tty_drv : Bool
  pub port : Bool
  pub registered : Bool
  pub device : Bool

abbrev pub nothing : Claimed
nothing = record { tty_drv = false; port = false; registered = false; device = false }

abbrev pub everything : Claimed
everything = record { tty_drv = true; port = true; registered = true; device = true }

-- What each call returns, in the order of the calls; `register_device` is 0 or what IS_ERR finds.
pub record Answers : Type 0 where
  pub kzalloc : Bool
  pub alloc_driver : Bool
  pub register_driver : ℤ
  pub register_device : ℤ

-- What bitbang_write returns.
unfoldable pub bitbang_write : List ℕ → ℤ
bitbang_write buf = pos (length buf)

-- What bitbang_uart_probe makes of what bitbang_tty_init returns.
abbrev answer : ℤ × Claimed → ℤ × Claimed
answer r = if is_nonzero r.0 then (enomem, r.1) else (success, r.1)

module _ (A : Answers) where
  unfoldable pub bitbang_tty_init : Claimed → ℤ × Claimed
  bitbang_tty_init c =
      let with_port = record c { tty_drv = true; port = true } in
      if not A.alloc_driver
      then (enomem, c)
      else if is_nonzero A.register_driver
      then (A.register_driver, with_port)
      else if is_nonzero A.register_device
      then (A.register_device, with_port)
      else (success, record with_port { registered = true; device = true })

  unfoldable pub bitbang_uart_probe : Claimed → ℤ × Claimed
  unfolding bitbang_tty_init
  bitbang_uart_probe c = if not A.kzalloc then (enomem, c) else answer (bitbang_tty_init c)

unfoldable pub bitbang_uart_remove : Claimed → Claimed
bitbang_uart_remove c = record c { device = false; registered = false; port = false }

-- How bitbang_uart_probe ends.
pub data Ended (A : Answers) : ℤ × Claimed → Type 0 where
  clean : (A.kzalloc && A.alloc_driver) ≡ false → Ended A (enomem, nothing)
  leaves :
      (A.kzalloc && A.alloc_driver) ≡ true
      → (is_nonzero A.register_driver || is_nonzero A.register_device) ≡ true
      → Ended A (enomem, record nothing { tty_drv = true; port = true })
  works :
      (is_nonzero A.register_driver || is_nonzero A.register_device) ≡ false
      → bitbang_uart_remove everything ≡ record nothing { tty_drv = true }
      → Ended A (success, everything)

-- bitbang_uart_probe returns ENOMEM and has claimed nothing if there is no memory or no tty driver;
-- whatever error a registration gives, it returns ENOMEM and leaves the tty driver and the port; else it
-- returns 0, and bitbang_uart_remove then gives back everything but the tty driver.
pub bitbang_uart_probe-Ended : (A : Answers) → Ended A (bitbang_uart_probe A nothing)
unfolding bitbang_uart_probe bitbang_uart_remove
bitbang_uart_probe-Ended A =
    if_cases (Ended A) (not A.kzalloc) (λ e. clean (ground arith))
      (λ k.
        if_cases (λ r. Ended A (answer r)) (not A.alloc_driver) (λ e. clean (ground arith))
          (λ a.
            if_cases (λ r. Ended A (answer r)) (is_nonzero A.register_driver)
              (λ e. rw e (leaves (ground arith) (ground arith)))
              (λ d.
                if_cases (λ r. Ended A (answer r)) (is_nonzero A.register_device)
                  (λ e. rw e (leaves (ground arith) (ground arith)))
                  (λ e. works (ground arith) refl))))

-- The platform device and the driver.
pub record Loaded : Type 0 where
  pub pdev : Bool
  pub driver : Bool

abbrev pub unloaded : Loaded
unloaded = record { pdev = false; driver = false }

-- The arguments are what platform_device_register_simple, 0 or what IS_ERR finds, and
-- platform_driver_register return.
unfoldable pub init_module : ℤ → ℤ → Loaded → ℤ × Loaded
init_module pdev driver l =
    let with_pdev = record l { pdev = true } in
    if is_nonzero pdev
    then (pdev, l)
    else if is_nonzero driver
    then (driver, record with_pdev { pdev = false })
    else (success, record with_pdev { driver = true })

unfoldable pub exit_module : Loaded → Loaded
exit_module l = record l { driver = false; pdev = false }

-- init_module returns 0 and has registered both, which exit_module takes back, or returns an error and
-- has registered nothing.
init_module_lem :
    (pdev driver : ℤ)
    → (init_module pdev driver unloaded ≡ (success, record { pdev = true; driver = true }))
        × (exit_module (init_module pdev driver unloaded).1 ≡ unloaded)
      ⊎ (is_nonzero (init_module pdev driver unloaded).0 ≡ true)
        × ((init_module pdev driver unloaded).1 ≡ unloaded)
unfolding init_module exit_module
init_module_lem pdev driver = ground arith
