-- ===== src/KfifoRxtx/Setup.antt =====
-- mydev_module_init and mydev_module_exit: what they claim and give back.
use testings.Prelude.{List, ℕ, ◌≡◌, ◌⊎◌, refl, Bool, true, false, not, arith, ltb, if◌then◌else◌}
use testings.Prelude.Int.{ℤ, is_nonzero, is_negative, negative_is_nonzero}
use testings.Kernel.Errno.{success, enomem}
use testings.Kernel.Kfifo.{Kfifo}
use testings.KfifoRxtx.{Mydev}
use testings.KfifoRxtx.Steps.{Reach, Reach-IsConserving}

-- The memory of `gdev` and of its fifos, the pin, the device numbers and the character device.
pub record Claimed : Type 0 where
  pub dev : Bool
  pub rx_fifo : Bool
  pub tx_fifo : Bool
  pub gpio : Bool
  pub region : Bool
  pub cdev : Bool

abbrev pub nothing : Claimed
nothing = record {
  dev = false;
  rx_fifo = false;
  tx_fifo = false;
  gpio = false;
  region = false;
  cdev = false;
}

abbrev pub everything : Claimed
everything = record {
  dev = true;
  rx_fifo = true;
  tx_fifo = true;
  gpio = true;
  region = true;
  cdev = true;
}

-- What each call returns, in the order of the calls; `gpiod_get` is 0 or what IS_ERR finds.
pub record Answers : Type 0 where
  pub kzalloc : Bool
  pub alloc_rx : ℤ
  pub alloc_tx : ℤ
  pub gpiod_get : ℤ
  pub to_irq : ℤ
  pub alloc_region : ℤ
  pub cdev_add : ℤ

-- The labels of mydev_module_init, each of which falls through to the next.
abbrev err_free : Claimed → Claimed
err_free c = record c { dev = false }

abbrev err_free_rx : Claimed → Claimed
err_free_rx c = err_free (record c { rx_fifo = false })

abbrev err_free_tx : Claimed → Claimed
err_free_tx c = err_free_rx (record c { tx_fifo = false })

abbrev err_put_gpio : Claimed → Claimed
err_put_gpio c = err_free_tx (record c { gpio = false })

abbrev err_chrdev : Claimed → Claimed
err_chrdev c = err_put_gpio (record c { region = false })

module _ (A : Answers) where
  -- from alloc_chrdev_region on
  unfoldable pub init_cdev : Claimed → ℤ × Claimed
  init_cdev c =
      let c' = record c { region = true } in
      if is_nonzero A.alloc_region
      then (A.alloc_region, err_put_gpio c)
      else if is_nonzero A.cdev_add
      then (A.cdev_add, err_chrdev c')
      else (success, record c' { cdev = true })

  -- from gpiod_get on
  unfoldable pub init_gpio : Claimed → ℤ × Claimed
  unfolding init_cdev
  init_gpio c =
      let c' = record c { gpio = true } in
      if is_nonzero A.gpiod_get
      then (A.gpiod_get, err_free_tx c)
      else if is_negative A.to_irq
      then (A.to_irq, err_put_gpio c')
      else init_cdev c'

  unfoldable pub mydev_module_init : Claimed → ℤ × Claimed
  unfolding init_gpio
  mydev_module_init c =
      let c1 = record c { dev = true } in
      let c2 = record c1 { rx_fifo = true } in
      if not A.kzalloc
      then (enomem, c)
      else if is_nonzero A.alloc_rx
      then (A.alloc_rx, err_free c1)
      else if is_nonzero A.alloc_tx
      then (A.alloc_tx, err_free_rx c2)
      else init_gpio (record c2 { tx_fifo = true })

-- `c.dev` stands for the test of `gdev`.
unfoldable pub mydev_module_exit : {F : Type 0} → Mydev F → Claimed → Mydev F × Claimed
mydev_module_exit d c =
    let closed = if ltb 0 d.open_count then record d { irq_held = false; tx_work = false } else d in
    if not c.dev then (d, c) else (
      closed,
      record c {
        cdev = false;
        region = false;
        gpio = false;
        rx_fifo = false;
        tx_fifo = false;
        dev = false;
      },
    )

-- mydev_module_init returns 0 and has claimed everything, or returns an error and has claimed
-- nothing.
pub module_init_lem :
    (A : Answers)
    → (mydev_module_init A nothing ≡ (success, everything))
      ⊎ (is_nonzero (mydev_module_init A nothing).0 ≡ true)
        × ((mydev_module_init A nothing).1 ≡ nothing)
unfolding mydev_module_init
module_init_lem A = ground (arith, negative_is_nonzero A.to_irq)

-- mydev_module_exit, in any state that the operations reach, gives back everything, the interrupt
-- included, and leaves no work item scheduled.
pub exit_lem :
    (K : Kfifo) {d : Mydev (K.Fifo)} {ws : List ℕ}
    → Reach K d ws
    → ((mydev_module_exit d everything).1 ≡ nothing)
      × ((mydev_module_exit d everything).0.irq_held ≡ false)
      × ((mydev_module_exit d everything).0.tx_work ≡ false)
unfolding mydev_module_exit
exit_lem K {d} r =
    let i = Reach-IsConserving K r in (refl, ground (arith, i.held), ground (arith, i.idle))
