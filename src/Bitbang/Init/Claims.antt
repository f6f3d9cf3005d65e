-- ===== src/Bitbang/Init/Claims.antt =====
-- What bitbang_uart_init holds afterwards, on every path.
use testings.Prelude.{
  ℕ, zero, suc, Bool-cases, inl, inr, ◌≡◌, ◌≢◌, ◌⊎◌, refl, sym, ap, ◌∙◌, none, some, true, false,
  arith, ◌||◌, not, ◌&&◌, ◌==◌, if◌then◌else◌,
}
use testings.Prelude.Int.{ℤ, pos, negsuc, is_nonzero}
use testings.Kernel.Errno.{success, enomem}
use mathlib.Core.Bool.{false≢true}
use testings.Kernel.Kfifo.{Kfifo}
use testings.Bitbang.State.{fresh}
use testings.Bitbang.Period.{init_period}
use testings.Bitbang.Init.{
  Held, Platform, RefusesBusy, set_gpio, bitbang_uart_init, init_irq, init_tx, init_pins, release,
}

-- Every pin is requested as it was before, and so is the interrupt.
abbrev pub SameHeld : Held → Held → Type 0
SameHeld h k = ((p : ℕ) → k.gpio p ≡ h.gpio p) × (k.irq ≡ h.irq)

success_of : (z : ℤ) → is_nonzero z ≡ false → z ≡ success
success_of (pos zero) e = refl
success_of (pos (suc n)) e = cc
success_of (negsuc n) e = cc

pub failure_of : (z : ℤ) → z ≢ success → is_nonzero z ≡ true
failure_of (pos zero) n = absurd (n refl)
failure_of (pos (suc k)) n = refl
failure_of (negsuc k) n = refl

module _ (P : Platform) (B : RefusesBusy P) where
  -- What is requested anew was free.
  was_free : (h : Held) (pin : ℕ) → is_nonzero (P.request h pin) ≡ false → h.gpio pin ≡ false
  was_free h pin e = elim (Bool-cases (h.gpio pin)) [
    | inl busy ↦ absurd (B.refuses h pin busy (success_of (P.request h pin) e))
    | inr free ↦ free
  ]

  init_irq-undone :
      (tx rx : ℕ) (h : Held)
      → is_nonzero (init_irq P tx rx h).0 ≡ true
      → ((p : ℕ)
          → (init_irq P tx rx h).2.gpio p
            ≡ (if p == rx || p == tx && not (tx == 0) then false else h.gpio p))
        × ((init_irq P tx rx h).2.irq ≡ h.irq)
        × (rx ≢ 0)
  unfolding init_irq
  init_irq-undone tx rx h e = (λ p. ground arith, ground arith, ground arith)

  -- Where the TX pin could be had but not the interrupt, and where it could not be had.
  init_tx-undone :
      (tx rx : ℕ) (h : Held)
      → P.direction_output tx ≡ success
      → is_nonzero (init_tx P tx rx h).0 ≡ true
      → ((p : ℕ)
          → (init_tx P tx rx h).2.gpio p ≡ (if p == rx && not (rx == 0) then false else h.gpio p))
        × ((init_tx P tx rx h).2.irq ≡ h.irq)
  unfolding init_tx
  init_tx-undone tx rx h out e = (λ p. ground (arith, was_free h tx), ground (arith, was_free h tx))

  init_pins-undone :
      (tx rx : ℕ) (h : Held)
      → P.direction_output tx ≡ success
      → P.direction_input rx ≡ success
      → is_nonzero (init_pins P tx rx h).0 ≡ true
      → SameHeld h (init_pins P tx rx h).2
  unfolding init_pins
  init_pins-undone tx rx h out dir e =
      let rx_free = was_free h rx in
      let tx_free = was_free h tx in
      let tx_free' = was_free (set_gpio rx true h) tx in
      (λ p. ground (arith, rx_free, tx_free, tx_free'), ground (arith, rx_free, tx_free, tx_free'))

  init_pins-held :
      (tx rx : ℕ) (h : Held)
      → is_nonzero (init_pins P tx rx h).0 ≡ false
      → ((p : ℕ)
          → (init_pins P tx rx h).2.gpio p
            ≡ (if p == rx && not (rx == 0) || p == tx && not (tx == 0) then true else h.gpio p))
        × ((init_pins P tx rx h).2.irq ≡ (if rx == 0 then h.irq else true))
  unfolding init_pins
  init_pins-held tx rx h e = (λ p. ground arith, ground arith)

  pub exit_undoes :
      (tx rx : ℕ) (h : Held)
      → is_nonzero (init_pins P tx rx h).0 ≡ false
      → h.irq ≡ false
      → (rx ≡ 0) ⊎ ((init_pins P tx rx h).1 ≢ 0)
      → SameHeld h (release tx rx (init_pins P tx rx h).1 (init_pins P tx rx h).2)
  unfolding release init_pins
  exit_undoes tx rx h e off valid =
      let rx_free = was_free h rx in
      let tx_free = was_free h tx in
      let tx_free' = was_free (set_gpio rx true h) tx in
      (λ p. ground (arith, rx_free, tx_free, tx_free'), ground arith)

  direction_fails :
      (tx rx : ℕ) (h : Held)
      → rx ≢ 0
      → P.request h rx ≡ success
      → is_nonzero (P.direction_input rx) ≡ true
      → ((init_pins P tx rx h).0 ≢ success)
        × (h.gpio rx ≡ false)
        × ((init_pins P tx rx h).2.gpio rx ≡ true)
  unfolding init_pins
  direction_fails tx rx h wired req failed =
      let asked : is_nonzero (P.request h rx) ≡ false = ap is_nonzero req in
      let same : (init_pins P tx rx h).0 ≡ P.direction_input rx = ground arith in
      (
        λ q. false≢true (sym (ap is_nonzero (sym same ∙ q)) ∙ failed),
        was_free h rx asked,
        ground arith,
      )

pub enomem-ne-success : enomem ≢ success
enomem-ne-success e = cc

module _ (K : Kfifo) (P : Platform) (B : RefusesBusy P) where
  open K use {Fifo, reset}

  -- Where the directions of the pins can be set, a bitbang_uart_init that fails leaves every pin
  -- and the interrupt as they were and no UART behind.
  pub init_fails_clean :
      (tx_gpio rx_gpio param dbg : ℕ) (tx rx : Fifo) (h : Held)
      → P.direction_output tx_gpio ≡ success
      → P.direction_input rx_gpio ≡ success
      → (bitbang_uart_init K P tx_gpio rx_gpio param dbg tx rx h).ret ≢ success
      → SameHeld h (bitbang_uart_init K P tx_gpio rx_gpio param dbg tx rx h).held
        × ((bitbang_uart_init K P tx_gpio rx_gpio param dbg tx rx h).uart ≡ none)
  unfolding bitbang_uart_init
  init_fails_clean tx_gpio rx_gpio param dbg tx rx h out dir e = elim (Bool-cases P.alloc) [
    | inl memory ↦ rw memory (
        let failed = failure_of (init_pins P tx_gpio rx_gpio h).0 (λ q. e (rw memory q)) in
        (init_pins-undone P B tx_gpio rx_gpio h out dir failed, rw failed refl))
    | inr full ↦ rw full ((λ p. refl, refl), refl)
  ]

  -- A bitbang_uart_init that succeeds holds the pins that are configured, and the interrupt if
  -- there is an RX pin, and leaves an idle UART with empty fifos and the period of the module's
  -- parameter.
  pub init_succeeds :
      (tx_gpio rx_gpio param dbg : ℕ) (tx rx : Fifo) (h : Held)
      → (bitbang_uart_init K P tx_gpio rx_gpio param dbg tx rx h).ret ≡ success
      → ((p : ℕ)
          → (bitbang_uart_init K P tx_gpio rx_gpio param dbg tx rx h).held.gpio p ≡ (
              if p == rx_gpio && not (rx_gpio == 0) || p == tx_gpio && not (tx_gpio == 0)
              then true
              else h.gpio p))
        × ((bitbang_uart_init K P tx_gpio rx_gpio param dbg tx rx h).held.irq
            ≡ (if rx_gpio == 0 then h.irq else true))
        × ((bitbang_uart_init K P tx_gpio rx_gpio param dbg tx rx h).uart
            ≡ some (fresh (reset tx) (reset rx) tx_gpio rx_gpio, init_period param dbg))
  unfolding bitbang_uart_init
  init_succeeds tx_gpio rx_gpio param dbg tx rx h e = elim (Bool-cases P.alloc) [
    | inl memory ↦
        let done : (init_pins P tx_gpio rx_gpio h).0 ≡ success = (rw memory at e) in
        let ended : is_nonzero (init_pins P tx_gpio rx_gpio h).0 ≡ false = ap is_nonzero done in
        let held = init_pins-held P B tx_gpio rx_gpio h ended in
        rw memory (held.0, held.1, rw ended refl)
    | inr full ↦ absurd (enomem-ne-success (rw full at e))
  ]

  -- Where the direction of the RX pin cannot be set, bitbang_uart_init fails and keeps the pin that
  -- it has requested.
  pub init_leaks_pin :
      (tx_gpio rx_gpio param dbg : ℕ) (tx rx : Fifo) (h : Held)
      → P.alloc ≡ true
      → rx_gpio ≢ 0
      → P.request h rx_gpio ≡ success
      → P.direction_input rx_gpio ≢ success
      → ((bitbang_uart_init K P tx_gpio rx_gpio param dbg tx rx h).ret ≢ success)
        × (h.gpio rx_gpio ≡ false)
        × ((bitbang_uart_init K P tx_gpio rx_gpio param dbg tx rx h).held.gpio rx_gpio ≡ true)
  unfolding bitbang_uart_init
  init_leaks_pin tx_gpio rx_gpio param dbg tx rx h memory wired req dir =
      let failed = failure_of (P.direction_input rx_gpio) dir in
      let pins = direction_fails P B tx_gpio rx_gpio h wired req failed in
      rw memory (pins.0, pins.1, pins.2)
