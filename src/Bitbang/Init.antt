-- ===== src/Bitbang/Init.antt =====
-- gpio_init, irq_init, bitbang_uart_init and bitbang_uart_exit of uart.c: what they claim from the
-- kernel and give back.
pub mod Claims
use testings.Prelude.{ℕ, ◌≡◌, ◌≢◌, Bool, true, false, not, Option, none, some, ◌==◌, if◌then◌else◌}
use testings.Prelude.Int.{ℤ, pos, negsuc, is_nonzero, is_negative}
use testings.Kernel.Errno.{success, enxio, enomem}
use testings.Kernel.Kfifo.{Kfifo}
use testings.Bitbang.State.{BitbangUart, fresh}
use testings.Bitbang.Period.{Timing, init_period}

-- The pins that are requested, and whether the interrupt of the RX pin is.
pub record Held : Type 0 where
  pub gpio : ℕ → Bool
  pub irq : Bool

-- How the kernel answers, as the `int` that each call returns; `alloc` says whether devm_kzalloc
-- finds memory.
pub record Platform : Type 0 where
  pub alloc : Bool
  pub request : Held → ℕ → ℤ
  pub direction_output : ℕ → ℤ
  pub direction_input : ℕ → ℤ
  pub to_irq : ℕ → ℤ
  pub request_irq : ℕ → ℤ

-- gpio_request refuses a pin that is requested.
pub record RefusesBusy (P : Platform) : Type 0 where
  pub refuses : (h : Held) (pin : ℕ) → h.gpio pin ≡ true → P.request h pin ≢ success

abbrev pub set_gpio : ℕ → Bool → Held → Held
set_gpio pin b h = record h { gpio = λ p. if p == pin then b else h.gpio p }

-- gpio_free, and `if (pin) gpio_free(pin)`
abbrev pub gpio_free : ℕ → Held → Held
gpio_free pin h = set_gpio pin false h

abbrev pub free_if_set : ℕ → Held → Held
free_if_set pin h = if pin == 0 then h else gpio_free pin h

module _ (P : Platform) where
  unfoldable pub gpio_init : ℕ → Bool → Held → ℤ × Held
  gpio_init pin out h =
      if is_nonzero (P.request h pin)
      then (enxio, h)
      else (if out then P.direction_output pin else P.direction_input pin, set_gpio pin true h)

  -- With the number that is stored in `d->irq`, which stays 0 on failure.
  unfoldable pub irq_init : ℕ → Held → ℤ × ℕ × Held
  irq_init rx h = elim (P.to_irq rx) [
    | negsuc n ↦ (negsuc n, 0, h)
    | pos irq ↦
        if is_nonzero (P.request_irq irq)
        then (P.request_irq irq, 0, h)
        else (success, irq, record h { irq = true })
  ]

  -- After both pins: the interrupt, and both pins back if it cannot be had.
  unfoldable pub init_irq : ℕ → ℕ → Held → ℤ × ℕ × Held
  unfolding irq_init
  init_irq tx rx h =
      if rx == 0
      then (success, 0, h)
      else let r = irq_init rx h in
        if is_nonzero r.0 then (r.0, 0, free_if_set tx (gpio_free rx r.2)) else r

  -- After the RX pin: the TX pin, and the RX pin back if it cannot be had.
  unfoldable pub init_tx : ℕ → ℕ → Held → ℤ × ℕ × Held
  unfolding init_irq gpio_init
  init_tx tx rx h =
      if tx == 0
      then init_irq tx rx h
      else let r = gpio_init tx true h in
        if is_nonzero r.0 then (r.0, 0, free_if_set rx r.1) else init_irq tx rx r.1

  unfoldable pub init_pins : ℕ → ℕ → Held → ℤ × ℕ × Held
  unfolding init_tx gpio_init
  init_pins tx rx h =
      if rx == 0
      then init_tx tx rx h
      else let r = gpio_init rx false h in
        if is_nonzero r.0 then (r.0, 0, r.1) else init_tx tx rx r.1

-- The pins and the interrupt that bitbang_uart_exit gives back: `d->irq` is tested, and an
-- interrupt freed, only if there is an RX pin.
unfoldable pub release : ℕ → ℕ → ℕ → Held → Held
release tx rx irq h =
    let h' =
      if rx == 0 then h else gpio_free rx (if irq == 0 then h else record h { irq = false }) in
    free_if_set tx h'

-- hrtimer_cancel of both timers, then the release; `irq` is `d->irq`.
unfoldable pub bitbang_uart_exit : {F : Type 0} → BitbangUart F → ℕ → Held → BitbangUart F × Held
unfolding release
bitbang_uart_exit d irq h =
    (record d { tx_timer = false; rx_timer = false }, release d.tx_gpio d.rx_gpio irq h)

module _ (K : Kfifo) where
  open K use {Fifo, reset}

  -- What bitbang_uart_init returns, holds and leaves in `priv->uart`; `tx` and `rx` are the fifos
  -- as devm_kzalloc gives them, which INIT_KFIFO empties.
  pub record Initialised : Type 0 where
    pub ret : ℤ
    pub irq : ℕ
    pub held : Held
    pub uart : Option (BitbangUart Fifo × Timing)

  unfoldable pub bitbang_uart_init :
      Platform → (tx_gpio rx_gpio param dbg : ℕ) → Fifo → Fifo → Held → Initialised
  unfolding init_pins init_period
  bitbang_uart_init P tx_gpio rx_gpio param dbg tx rx h =
      let r = init_pins P tx_gpio rx_gpio h in
      if not P.alloc then record { ret = enomem; irq = 0; held = h; uart = none } else record {
        ret = r.0;
        irq = r.1;
        held = r.2;
        uart =
            if is_nonzero r.0
            then none
            else some (fresh (reset tx) (reset rx) tx_gpio rx_gpio, init_period param dbg);
      }
