-- ===== src/Bitbang/Probe.antt =====
-- bitbang_probe and bitbang_remove of bitbang-main.c, with bitbang_sysfs_init and
-- bitbang_sysfs_exit of bitbang-sysfs.c and bitbang_proc_init and bitbang_proc_exit of
-- bitbang-proc.c: what they register with the kernel and take back.
pub mod Unwinding
use testings.Prelude.{ℕ, Bool, true, false, not, Option, none, some, if◌then◌else◌}
use testings.Prelude.Int.{ℤ, pos, is_nonzero}
use testings.Kernel.Errno.{success, enomem}
use testings.Kernel.Kfifo.{Kfifo}
use testings.Bitbang.State.{BitbangUart}
use testings.Bitbang.Period.{Timing}
use testings.Bitbang.Init.{Held, Platform, Initialised, bitbang_uart_init, bitbang_uart_exit}

-- What is registered: `period` and `dbg` are the attributes of the platform device, which is there
-- before bitbang_probe and after bitbang_remove; `proc` says whether `proc_entry` is set.
pub record Registered : Type 0 where
  pub region : Bool
  pub cdev : Bool
  pub class : Bool
  pub device : Bool
  pub period : Bool
  pub dbg : Bool
  pub proc : Bool

pub data DevAttr : Type 0 where
  dev_attr_period dev_attr_dbg : DevAttr

abbrev pub has : Registered → DevAttr → Bool
has r dev_attr_period = r.period
has r dev_attr_dbg = r.dbg

-- How the kernel answers: the `int` that each call returns or that IS_ERR finds, and whether
-- devm_kzalloc and proc_create_data succeed.
pub record Registry : Type 0 where
  pub alloc : Bool
  pub alloc_chrdev_region : ℤ
  pub cdev_add : ℤ
  pub class_create : ℤ
  pub device_create : ℤ
  pub device_create_file : Registered → DevAttr → ℤ
  pub proc_create_data : Bool

module _ (R : Registry) where
  -- after the attribute `period`
  unfoldable pub sysfs_dbg : Registered → ℤ × Registered
  sysfs_dbg r =
      let ret = R.device_create_file r dev_attr_dbg in
      if is_nonzero ret then (ret, record r { period = false }) else (ret, record r { dbg = true })

  unfoldable pub bitbang_sysfs_init : Registered → ℤ × Registered
  unfolding sysfs_dbg
  bitbang_sysfs_init r =
      let ret = R.device_create_file r dev_attr_period in
      if is_nonzero ret then (ret, r) else sysfs_dbg (record r { period = true })

  unfoldable pub bitbang_proc_init : Registered → Registered
  bitbang_proc_init r = record r { proc = R.proc_create_data }

unfoldable pub bitbang_sysfs_exit : Registered → Registered
bitbang_sysfs_exit r = record r { period = false }

unfoldable pub bitbang_proc_exit : Registered → Registered
bitbang_proc_exit r = if r.proc then record r { proc = false } else r

-- The labels of bitbang_probe, each of which falls through to the next.
abbrev err_unregister_chrdev : Registered → Registered
err_unregister_chrdev r = record r { region = false }

abbrev err_cdev_del : Registered → Registered
err_cdev_del r = err_unregister_chrdev (record r { cdev = false })

abbrev err_class_destroy : Registered → Registered
err_class_destroy r = err_cdev_del (record r { class = false })

abbrev err_device_destroy : Registered → Registered
err_device_destroy r = err_class_destroy (record r { device = false })

unfoldable pub err_sysfs_remove : Registered → Registered
unfolding bitbang_sysfs_exit bitbang_proc_exit
err_sysfs_remove r = err_device_destroy (bitbang_sysfs_exit (bitbang_proc_exit r))

module _ (R : Registry) where
  -- bitbang_probe up to the call of bitbang_uart_init
  unfoldable pub probe_device : Registered → ℤ × Registered
  unfolding bitbang_sysfs_init bitbang_proc_init
  probe_device r =
      let s = bitbang_sysfs_init R (record r { device = true }) in
      if is_nonzero R.device_create
      then (R.device_create, err_class_destroy r)
      else if is_nonzero s.0
      then (s.0, err_device_destroy s.1)
      else (s.0, bitbang_proc_init R s.1)

  unfoldable pub probe_class : Registered → ℤ × Registered
  unfolding probe_device
  probe_class r =
      if is_nonzero R.class_create
      then (R.class_create, err_cdev_del r)
      else probe_device (record r { class = true })

  unfoldable pub probe_cdev : Registered → ℤ × Registered
  unfolding probe_class
  probe_cdev r =
      if is_nonzero R.cdev_add
      then (R.cdev_add, err_unregister_chrdev r)
      else probe_class (record r { cdev = true })

  unfoldable pub register : Registered → ℤ × Registered
  unfolding probe_cdev
  register r =
      if not R.alloc
      then (enomem, r)
      else if is_nonzero R.alloc_chrdev_region
      then (R.alloc_chrdev_region, r)
      else probe_cdev (record r { region = true })

module _ (K : Kfifo) where
  open K use {Fifo}

  -- What bitbang_probe returns and leaves.
  pub record Probed : Type 0 where
    pub ret : ℤ
    pub irq : ℕ
    pub regs : Registered
    pub held : Held
    pub uart : Option (BitbangUart Fifo × Timing)

  -- after everything is registered
  unfoldable pub probe_uart : Initialised K → Registered → Probed
  unfolding err_sysfs_remove
  probe_uart i r = record {
    ret = i.ret;
    irq = i.irq;
    regs = if is_nonzero i.ret then err_sysfs_remove r else r;
    held = i.held;
    uart = i.uart;
  }

  unfoldable pub bitbang_probe :
      Registry
      → Platform
      → (tx_gpio rx_gpio param dbg : ℕ) → Fifo
      → Fifo
      → Registered
      → Held
      → Probed
  unfolding register bitbang_uart_init probe_uart
  bitbang_probe R P tx_gpio rx_gpio param dbg tx rx r h =
      let s = register R r in
      let i = bitbang_uart_init K P tx_gpio rx_gpio param dbg tx rx h in
      if is_nonzero s.0
      then record { ret = s.0; irq = 0; regs = s.1; held = h; uart = none }
      else probe_uart i s.1

-- `irq` is `d->irq`.
unfoldable pub bitbang_remove :
    {F : Type 0} → BitbangUart F → ℕ → Registered → Held → BitbangUart F × Registered × Held
unfolding bitbang_uart_exit err_sysfs_remove
bitbang_remove d irq r h =
    let e = bitbang_uart_exit d irq h in
    (
      e.0,
      record (bitbang_sysfs_exit (bitbang_proc_exit r)) {
        device = false;
        class = false;
        cdev = false;
        region = false;
      },
      e.1,
    )
