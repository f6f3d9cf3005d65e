-- ===== src/SoftuartTty.antt =====
-- openwrt/kernel/soft_uart/gpt/softuart_tty.c: a tty that gives back what is written to it, with its
-- platform device.
pub mod Probe
mod Tests
use testings.Prelude.{
  ℕ, ◌-◌, ◌%◌, ◌^◌, ◌≤◌, ◌<◌, Bool, true, false, not, ◌&&◌, List, length, ltb, leb, if◌then◌else◌,
}
use testings.Prelude.Int.{ℤ, pos, negsuc, is_nonzero}
use testings.Kernel.Errno.{success, enomem}
use testings.Kernel.FlipBuffer.{FlipBuffer}
use testings.TtyLoopback.{insert_all}
use testings.TtyLoopback.Setup.{to_int}

-- What suart_write returns, and the port.
unfoldable pub suart_write : (F : FlipBuffer) → List ℕ → F.Port → ℤ × F.Port
suart_write F buf p = (pos (length buf), F.push (insert_all F buf p))

-- Of `struct suart`, and what is registered with the tty layer: the port that is set up, the tty driver,
-- its registration and the device.
pub record Claimed : Type 0 where
  pub port : Bool
  pub tty_drv : Bool
  pub registered : Bool
  pub device : Bool

abbrev pub nothing : Claimed
nothing = record { port = false; tty_drv = false; registered = false; device = false }

abbrev pub everything : Claimed
everything = record { port = true; tty_drv = true; registered = true; device = true }

-- IS_ERR_VALUE of an `int`: its sign is extended to the 64 bits of an address.
abbrev pub is_err_value : ℤ → Bool
is_err_value (pos n) = false
is_err_value (negsuc n) = ltb n 4095

-- What each call returns, in the order of the calls; `register_device` is the pointer that
-- tty_port_register_device returns.
pub record Answers : Type 0 where
  pub alloc_driver : Bool
  pub register_driver : ℤ
  pub register_device : ℕ

-- The labels of suart_probe, each of which falls through to the next.
abbrev err_port_destroy : Claimed → Claimed
err_port_destroy c = record c { port = false }

abbrev err_put_drv : Claimed → Claimed
err_put_drv c = err_port_destroy (record c { tty_drv = false })

abbrev err_unreg_tty_driver : Claimed → Claimed
err_unreg_tty_driver c = err_put_drv (record c { registered = false })

-- The device is registered where the pointer is none of the last 4095 addresses.
unfoldable pub suart_probe : Answers → Claimed → ℤ × Claimed
suart_probe A c =
    let with_port = record c { port = true } in
    let with_driver = record with_port { tty_drv = true } in
    let ret = to_int A.register_device in
    let asked = record with_driver {
      registered = true;
      device = ltb A.register_device (2 ^ 64 - 4095);
    } in
    if not A.alloc_driver
    then (enomem, err_port_destroy with_port)
    else if is_nonzero A.register_driver
    then (A.register_driver, err_put_drv with_driver)
    else if is_err_value ret
    then (ret, err_unreg_tty_driver asked)
    else (success, asked)

unfoldable pub suart_remove : Claimed → Claimed
suart_remove c = record c { device = false; registered = false; tty_drv = false; port = false }

-- The structure that `g_suart` points to, the platform device and the driver.
pub record Loaded : Type 0 where
  pub memory : Bool
  pub pdev : Bool
  pub driver : Bool

abbrev pub unloaded : Loaded
unloaded = record { memory = false; pdev = false; driver = false }

-- The arguments are whether kzalloc gives memory, what platform_device_register_simple, 0 or what IS_ERR
-- finds, and platform_driver_register return.
unfoldable pub suart_init : Bool → ℤ → ℤ → Loaded → ℤ × Loaded
suart_init kzalloc pdev driver l =
    let allocated = record l { memory = true } in
    let with_pdev = record allocated { pdev = true } in
    if not kzalloc
    then (enomem, l)
    else if is_nonzero pdev
    then (pdev, record allocated { memory = false })
    else if is_nonzero driver
    then (driver, record with_pdev { pdev = false; memory = false })
    else (success, record with_pdev { driver = true })

unfoldable pub suart_exit : Loaded → Loaded
suart_exit l = record l { driver = false; pdev = false; memory = false }
