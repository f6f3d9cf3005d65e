-- ===== src/TtyLoopback/Setup.antt =====
-- lb_probe, lb_remove, lb_init and lb_exit: what they claim and give back.
use testings.Prelude.{
  ◌&&◌, ℕ, ◌-◌, ◌%◌, ◌^◌, ◌<◌, ◌≡◌, ◌⊎◌, Bool, true, false, not, ltb, arith, if◌then◌else◌,
}
use testings.Prelude.Int.{ℤ, pos, negsuc, is_nonzero}
use testings.Kernel.Errno.{success, enomem}

-- The structure that `LB` points to, the tty driver, its registration, the port that is set up, and the
-- device that is registered with it.
pub record Claimed : Type 0 where
  pub lb : Bool
  pub tty_drv : Bool
  pub registered : Bool
  pub port : Bool
  pub device : Bool

abbrev pub nothing : Claimed
nothing = record { lb = false; tty_drv = false; registered = false; port = false; device = false }

abbrev pub everything : Claimed
everything = record { lb = true; tty_drv = true; registered = true; port = true; device = true }

-- A pointer of 64 bits that is assigned to an `int`.
abbrev pub to_int : ℕ → ℤ
to_int p = let low = p % 2 ^ 32 in if ltb low (2 ^ 31) then pos low else negsuc (2 ^ 32 - 1 - low)

-- `!IS_ERR(p)`, of which the code has no test: the last 4095 addresses are errors.
abbrev pub is_device : ℕ → Bool
is_device p = ltb p (2 ^ 64 - 4095)

-- What each call returns, in the order of the calls; `register_device` is the pointer that
-- tty_port_register_device returns.
pub record Answers : Type 0 where
  pub kzalloc : Bool
  pub alloc_driver : Bool
  pub register_driver : ℤ
  pub register_device : ℕ

-- The labels of lb_probe, each of which falls through to the next.
abbrev err_free : Claimed → Claimed
err_free c = record c { lb = false }

abbrev err_put_driver : Claimed → Claimed
err_put_driver c = err_free (record c { tty_drv = false })

abbrev err_unregister : Claimed → Claimed
err_unregister c = err_put_driver (record c { registered = false })

module _ (A : Answers) where
  -- from tty_port_init on
  unfoldable pub probe_port : Claimed → ℤ × Claimed
  probe_port c =
      let c' = record c { port = true; device = is_device A.register_device } in
      let ret = to_int A.register_device in
      if is_nonzero ret then (ret, err_unregister c') else (success, c')

  unfoldable pub lb_probe : Claimed → ℤ × Claimed
  unfolding probe_port
  lb_probe c =
      let allocated = record c { lb = true } in
      let with_driver = record allocated { tty_drv = true } in
      if not A.kzalloc
      then (enomem, c)
      else if not A.alloc_driver
      then (enomem, err_free allocated)
      else if is_nonzero A.register_driver
      then (A.register_driver, err_put_driver with_driver)
      else probe_port (record with_driver { registered = true })

unfoldable pub lb_remove : Claimed → Claimed
lb_remove c =
    if not c.lb
    then c
    else record c { device = false; registered = false; tty_drv = false; port = false; lb = false }

-- Whether lb_probe comes to register the device.
abbrev pub comes_to_device : Answers → Bool
comes_to_device A = A.kzalloc && A.alloc_driver && not (is_nonzero A.register_driver)

-- What lb_probe returns where it does not.
abbrev pub early_error : Answers → ℤ
early_error A = if A.kzalloc && A.alloc_driver then A.register_driver else enomem

-- If an allocation or the registration of the driver fails, lb_probe returns the error and has claimed
-- nothing. If they all succeed, the low 32 bits of the pointer that registers the device decide: if they
-- are 0, it returns 0 and keeps everything, which lb_remove gives back; if not, it returns them as an
-- `int`, which is not 0, frees the driver and LB, and leaves the port that it has set up, and the device
-- too if the pointer is one, of which lb_remove then gives back nothing.
pub lb_probe_lem :
    (A : Answers)
    → (comes_to_device A ≡ false)
        × (is_nonzero (early_error A) ≡ true)
        × (lb_probe A nothing ≡ (early_error A, nothing))
      ⊎ (comes_to_device A ≡ true)
        × (A.register_device % 2 ^ 32 ≡ 0)
        × (lb_probe A nothing
            ≡ (success, record everything { device = is_device A.register_device }))
        × (lb_remove (lb_probe A nothing).1 ≡ nothing)
      ⊎ (comes_to_device A ≡ true)
        × (0 < A.register_device % 2 ^ 32)
        × (is_nonzero (to_int A.register_device) ≡ true)
        × (lb_probe A nothing ≡ (
          to_int A.register_device,
          record nothing { port = true; device = is_device A.register_device },
        ))
        × (lb_remove (lb_probe A nothing).1 ≡ (lb_probe A nothing).1)
unfolding lb_probe lb_remove
lb_probe_lem A = ground arith

-- The platform device and the driver.
pub record Loaded : Type 0 where
  pub pdev : Bool
  pub driver : Bool

abbrev pub unloaded : Loaded
unloaded = record { pdev = false; driver = false }

-- The arguments are what platform_device_register_simple, 0 or what IS_ERR finds, and
-- platform_driver_register return.
unfoldable pub lb_init : ℤ → ℤ → Loaded → ℤ × Loaded
lb_init pdev driver l =
    let with_pdev = record l { pdev = true } in
    if is_nonzero pdev
    then (pdev, l)
    else if is_nonzero driver
    then (driver, record with_pdev { pdev = false })
    else (success, record with_pdev { driver = true })

unfoldable pub lb_exit : Loaded → Loaded
lb_exit l = record l { driver = false; pdev = false }

-- lb_init returns 0 and has registered both, which lb_exit takes back, or returns an error and has
-- registered nothing.
lb_init_lem :
    (pdev driver : ℤ)
    → (lb_init pdev driver unloaded ≡ (success, record { pdev = true; driver = true }))
        × (lb_exit (lb_init pdev driver unloaded).1 ≡ unloaded)
      ⊎ (is_nonzero (lb_init pdev driver unloaded).0 ≡ true)
        × ((lb_init pdev driver unloaded).1 ≡ unloaded)
unfolding lb_init lb_exit
lb_init_lem pdev driver = ground arith
