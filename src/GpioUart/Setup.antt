-- ===== src/GpioUart/Setup.antt =====
-- gpio_uart_init and gpio_uart_exit of gpio_uart_tty.c: what they claim and give back.
use testings.Prelude.{ℕ, ◌≡◌, ◌⊎◌, Bool, true, false, not, ◌||◌, arith, if◌then◌else◌}
use testings.Prelude.Int.{ℤ, is_nonzero, is_negative}
use testings.Kernel.Errno.{success, einval, enomem}
use testings.GpioUart.State.{GuCfg}
use testings.GpioUart.Config.{init_cfg}
use testings.GpioUart.Tx.{set_tx_level}

-- The memory of `GU`, the running timer, the tty driver and its registration, the port, the tty
-- device, the proc entry, and the kobject with its group of attributes.
pub record Claimed : Type 0 where
  pub memory : Bool
  pub timer : Bool
  pub driver : Bool
  pub registered : Bool
  pub port : Bool
  pub device : Bool
  pub proc : Bool
  pub kobj : Bool
  pub group : Bool

abbrev pub nothing_but : Bool → Claimed
nothing_but port = record {
  memory = false;
  timer = false;
  driver = false;
  registered = false;
  port = port;
  device = false;
  proc = false;
  kobj = false;
  group = false;
}

-- What each call returns, in the order of the calls: whether it finds memory or a descriptor, or
-- its `int`; `register_device` is 0 or what IS_ERR finds.
pub record Answers : Type 0 where
  pub kzalloc : Bool
  pub tx_desc : Bool
  pub rx_desc : Bool
  pub direction_output : ℤ
  pub direction_input : ℤ
  pub alloc_driver : Bool
  pub register_driver : ℤ
  pub register_device : ℤ
  pub proc_create : Bool
  pub kobject_create : Bool
  pub create_group : ℤ

-- The labels of gpio_uart_init, each of which falls through to the next.
abbrev err_free : Claimed → Claimed
err_free c = record c { memory = false }

abbrev err_timer : Claimed → Claimed
err_timer c = err_free (record c { timer = false })

abbrev err_put_drv : Claimed → Claimed
err_put_drv c = err_timer (record c { driver = false })

abbrev err_unregister : Claimed → Claimed
err_unregister c = err_put_drv (record c { registered = false })

module _ (A : Answers) where
  -- The proc entry and the attributes may be missing.
  unfoldable pub init_files : Claimed → ℤ × Claimed
  init_files c = (
    success,
    record c {
      proc = A.proc_create;
      kobj = A.kobject_create;
      group = if A.kobject_create then not (is_nonzero A.create_group) else c.group;
    },
  )

  -- from alloc_tty_driver on
  unfoldable pub init_tty : Claimed → ℤ × Claimed
  unfolding init_files
  init_tty c =
      let c1 = record c { driver = true } in
      let c2 = record c1 { registered = true; port = true } in
      if not A.alloc_driver
      then (enomem, err_timer c)
      else if is_nonzero A.register_driver
      then (A.register_driver, err_put_drv c1)
      else if is_nonzero A.register_device
      then (A.register_device, err_unregister c2)
      else init_files (record c2 { device = true })

  -- from the test of the parameters `tx_gpio` and `rx_gpio` on
  unfoldable pub init_gpios : ℤ → ℤ → Claimed → ℤ × Claimed
  unfolding init_tty
  init_gpios tx_gpio rx_gpio c =
      if is_negative tx_gpio || is_negative rx_gpio
      then (einval, err_free c)
      else if not A.tx_desc || not A.rx_desc
      then (einval, err_free c)
      else if is_nonzero A.direction_output
      then (A.direction_output, err_free c)
      else if is_nonzero A.direction_input
      then (A.direction_input, err_free c)
      else init_tty (record c { timer = true })

  -- With the configuration that it sets.
  unfoldable pub gpio_uart_init : (tx_gpio rx_gpio : ℤ) → ℕ → Claimed → ℤ × Claimed × GuCfg
  unfolding init_gpios
  gpio_uart_init tx_gpio rx_gpio default_baud c =
      let r = init_gpios tx_gpio rx_gpio (record c { memory = true }) in
      if not A.kzalloc
      then (enomem, c, init_cfg default_baud)
      else (r.0, r.1, init_cfg default_baud)

-- With the level that it leaves on the TX pin. The group is removed if there is a kobject.
unfoldable pub gpio_uart_exit : GuCfg → Claimed → ℕ × Claimed
gpio_uart_exit cfg c = (
  set_tx_level cfg 0,
  record c {
    group = if c.kobj then false else c.group;
    kobj = if c.kobj then false else c.kobj;
    proc = if c.proc then false else c.proc;
    timer = false;
    device = false;
    registered = false;
    driver = false;
    port = false;
    memory = false;
  },
)

-- A gpio_uart_init that fails leaves nothing claimed but, where tty_register_device is what failed,
-- the port; one that succeeds runs the timer, has the driver, the port and the device, and
-- gpio_uart_exit then gives back all of it.
pub gpio_uart_init_lem :
    (A : Answers) (tx_gpio rx_gpio : ℤ) (default_baud : ℕ) (cfg : GuCfg)
    → let r = gpio_uart_init A tx_gpio rx_gpio default_baud (nothing_but false) in
      (is_nonzero r.0 ≡ true)
        × ((r.1 ≡ nothing_but false) ⊎ (r.1 ≡ nothing_but true) × (r.0 ≡ A.register_device))
      ⊎ (r.0 ≡ success)
        × (r.1.timer ≡ true)
        × (r.1.registered ≡ true)
        × (r.1.port ≡ true)
        × (r.1.device ≡ true)
        × ((gpio_uart_exit cfg r.1).1 ≡ nothing_but false)
unfolding gpio_uart_init gpio_uart_exit
gpio_uart_init_lem A tx_gpio rx_gpio default_baud cfg = ground arith
