-- ===== src/GpiodUart/Setup.antt =====
-- gpio_uart_init and gpio_uart_exit: what they claim and give back.
use testings.Prelude.{
  ◌<◌, ℕ, ◌≡◌, refl, if_cases, Bool, true, false, not, ◌==◌, arith, if◌then◌else◌,
}
use testings.Prelude.Int.{ℤ, is_nonzero}
use testings.Kernel.Errno.{success, enomem}

-- The structure that `GU` points to, the timer, the tty driver, its registration, the port that is set
-- up, the device, the proc file and the kobject with its attribute.
pub record Claimed : Type 0 where
  pub gu : Bool
  pub rx_timer : Bool
  pub tty_drv : Bool
  pub registered : Bool
  pub port : Bool
  pub device : Bool
  pub proc : Bool
  pub kobj : Bool

abbrev pub nothing : Claimed
nothing = record {
  gu = false;
  rx_timer = false;
  tty_drv = false;
  registered = false;
  port = false;
  device = false;
  proc = false;
  kobj = false;
}

-- What each call returns, in the order of the calls, after the module parameter; `register_device` is 0
-- or what IS_ERR finds.
pub record Answers : Type 0 where
  pub default_baud : ℕ
  pub kzalloc : Bool
  pub alloc_driver : Bool
  pub register_driver : ℤ
  pub register_device : ℤ
  pub proc_create : Bool
  pub kobject_create : Bool

-- What becomes of the module: the value that is returned with what is claimed, or a crash.
pub data Ends : Type 0 where
  divides_by_zero null_pointer : Ends
  returns : ℤ → Claimed → Ends

module _ (A : Answers) where
  -- from the allocation of the driver on
  unfoldable pub init_tty : Claimed → Ends
  init_tty c =
      let registered = record c { tty_drv = true; registered = true } in
      let ready = record registered { port = true } in
      if not A.alloc_driver
      then null_pointer
      else if is_nonzero A.register_driver
      then returns A.register_driver (record c { tty_drv = true })
      else if is_nonzero A.register_device
      then returns A.register_device ready
      else returns success
          (record ready { device = true; proc = A.proc_create; kobj = A.kobject_create })

  unfoldable pub gpio_uart_init : Claimed → Ends
  unfolding init_tty
  gpio_uart_init c =
      if not A.kzalloc
      then returns enomem c
      else if A.default_baud == 0
      then divides_by_zero
      else init_tty (record c { gu = true; rx_timer = true })

unfoldable pub gpio_uart_exit : Claimed → Claimed
gpio_uart_exit c = record c {
  kobj = if c.kobj then false else c.kobj;
  proc = if c.proc then false else c.proc;
  rx_timer = false;
  device = false;
  registered = false;
  tty_drv = false;
  port = false;
  gu = false;
}

-- What is left where the driver is not registered, and where the device is not.
abbrev pub driver_left : Claimed
driver_left = record nothing { gu = true; rx_timer = true; tty_drv = true }

abbrev pub port_left : Claimed
port_left = record driver_left { registered = true; port = true }

abbrev pub all_claimed : Bool → Bool → Claimed
all_claimed proc kobj = record port_left { device = true; proc = proc; kobj = kobj }

exit_all : (proc kobj : Bool) → gpio_uart_exit (all_claimed proc kobj) ≡ nothing
unfolding gpio_uart_exit
exit_all true true = refl
exit_all true false = refl
exit_all false true = refl
exit_all false false = refl

-- How gpio_uart_init ends, by what the calls answer, in their order: the first one that fails decides.
pub data Ended (A : Answers) : Ends → Type 0 where
  out_of_memory : A.kzalloc ≡ false → Ended A (returns enomem nothing)
  rate_zero : A.kzalloc ≡ true → A.default_baud ≡ 0 → Ended A divides_by_zero
  no_driver : A.kzalloc ≡ true → 0 < A.default_baud → A.alloc_driver ≡ false → Ended A null_pointer
  unregistered :
      A.kzalloc ≡ true
      → 0 < A.default_baud
      → A.alloc_driver ≡ true
      → is_nonzero A.register_driver ≡ true
      → Ended A (returns A.register_driver driver_left)
  no_device :
      A.kzalloc ≡ true
      → 0 < A.default_baud
      → A.alloc_driver ≡ true
      → is_nonzero A.register_driver ≡ false
      → is_nonzero A.register_device ≡ true
      → Ended A (returns A.register_device port_left)
  works :
      A.kzalloc ≡ true
      → 0 < A.default_baud
      → A.alloc_driver ≡ true
      → is_nonzero A.register_driver ≡ false
      → is_nonzero A.register_device ≡ false
      → gpio_uart_exit (all_claimed A.proc_create A.kobject_create) ≡ nothing
      → Ended A (returns success (all_claimed A.proc_create A.kobject_create))

-- gpio_uart_init returns ENOMEM and has claimed nothing if there is no memory; else it divides by zero if
-- the default rate is 0; else it uses a null pointer if the driver cannot be allocated; else, if a
-- registration fails, it returns the error of the first that does, with the timer running, the memory and
-- the driver claimed, and the driver registered and the port set up if it is that of the device; and else
-- it returns 0 with everything claimed, and gpio_uart_exit gives everything back, whether there is a proc
-- file and a kobject or not.
pub gpio_uart_init-Ended : (A : Answers) → Ended A (gpio_uart_init A nothing)
unfolding gpio_uart_init
gpio_uart_init-Ended A =
    if_cases (Ended A) (not A.kzalloc) (λ e. out_of_memory (ground arith))
      (λ a.
        let memory : A.kzalloc ≡ true = ground arith in
        if_cases (Ended A) (A.default_baud == 0) (λ e. rate_zero memory (ground arith))
          (λ b.
            let rate : 0 < A.default_baud = ground arith in
            if_cases (Ended A) (not A.alloc_driver) (λ e. no_driver memory rate (ground arith))
              (λ c.
                let driver : A.alloc_driver ≡ true = ground arith in
                if_cases (Ended A) (is_nonzero A.register_driver)
                  (λ e. unregistered memory rate driver e)
                  (λ d.
                    if_cases (Ended A) (is_nonzero A.register_device)
                      (λ e. no_device memory rate driver d e)
                      (λ f.
                        works memory rate driver d f (exit_all A.proc_create A.kobject_create))))))
