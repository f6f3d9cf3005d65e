-- ===== src/KfifoDevice/Setup.antt =====
-- mydev_init and mydev_exit: what they claim and give back.
use testings.Prelude.{◌≡◌, ◌⊎◌, Bool, true, false, not, arith, if◌then◌else◌}
use testings.Prelude.Int.{ℤ, is_nonzero, is_negative, negative_is_nonzero}
use testings.Kernel.Errno.{success, enomem}

-- The memory of `gdev`, the pin, the interrupt, and the character device with its number.
pub record Claimed : Type 0 where
  pub memory : Bool
  pub gpio : Bool
  pub irq : Bool
  pub chrdev : Bool

abbrev pub nothing : Claimed
nothing = record { memory = false; gpio = false; irq = false; chrdev = false }

abbrev pub everything : Claimed
everything = record { memory = true; gpio = true; irq = true; chrdev = true }

-- What each call returns, in the order of the calls; `gpiod_get` is 0 or what IS_ERR finds.
pub record Answers : Type 0 where
  pub kzalloc : Bool
  pub gpiod_get : ℤ
  pub to_irq : ℤ
  pub request_irq : ℤ
  pub register_chrdev : ℤ

-- The labels of mydev_init, each of which falls through to the next.
abbrev err_free : Claimed → Claimed
err_free c = record c { memory = false }

abbrev err_gpio : Claimed → Claimed
err_gpio c = err_free (record c { gpio = false })

abbrev err_irq : Claimed → Claimed
err_irq c = err_gpio (record c { irq = false })

module _ (A : Answers) where
  -- from gpiod_to_irq on
  unfoldable pub init_irq : Claimed → ℤ × Claimed
  init_irq c =
      let c' = record c { irq = true } in
      if is_negative A.to_irq
      then (A.to_irq, err_gpio c)
      else if is_nonzero A.request_irq
      then (A.request_irq, err_gpio c)
      else if is_negative A.register_chrdev
      then (A.register_chrdev, err_irq c')
      else (success, record c' { chrdev = true })

  unfoldable pub mydev_init : Claimed → ℤ × Claimed
  unfolding init_irq
  mydev_init c =
      let c' = record c { memory = true } in
      if not A.kzalloc
      then (enomem, c)
      else if is_nonzero A.gpiod_get
      then (A.gpiod_get, err_free c')
      else init_irq (record c' { gpio = true })

unfoldable pub mydev_exit : Claimed → Claimed
mydev_exit c = record c { chrdev = false; irq = false; gpio = false; memory = false }

-- mydev_init returns 0 and has claimed everything, which mydev_exit then gives back, or returns an
-- error and has claimed nothing.
pub mydev_init_lem :
    (A : Answers)
    → (mydev_init A nothing ≡ (success, everything))
        × (mydev_exit (mydev_init A nothing).1 ≡ nothing)
      ⊎ (is_nonzero (mydev_init A nothing).0 ≡ true) × ((mydev_init A nothing).1 ≡ nothing)
unfolding mydev_init mydev_exit
mydev_init_lem A =
    ground (arith, negative_is_nonzero A.to_irq, negative_is_nonzero A.register_chrdev)
