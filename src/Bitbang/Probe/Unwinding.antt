-- ===== src/Bitbang/Probe/Unwinding.antt =====
-- What is left registered by a bitbang_probe that fails, and after bitbang_remove.
use mathlib.Core.Bool.{false≢true}
use testings.Prelude.{
  ℕ, ◌≡◌, ◌≢◌, ◌⊎◌, inl, inr, refl, sym, ap, ap₂, subst, ◌∙◌, Bool, true, false, Option, none, some,
  arith, Bool-cases,
}
use testings.Prelude.Int.{ℤ, pos, is_nonzero}
use testings.Kernel.Errno.{success}
use testings.Kernel.Kfifo.{Kfifo}
use testings.Bitbang.State.{BitbangUart, fresh}
use testings.Bitbang.Period.{Timing, init_period}
use testings.Bitbang.Init.{Held, Platform, RefusesBusy, init_pins, bitbang_uart_init, release}
use testings.Bitbang.Init.Claims.{
  SameHeld, failure_of, exit_undoes, init_succeeds, enomem-ne-success, init_fails_clean,
}
use testings.Bitbang.Probe.{
  Registered, DevAttr, dev_attr_dbg, has, Registry, register, err_sysfs_remove, bitbang_probe,
  bitbang_remove,
}

-- device_create_file refuses an attribute that is there.
pub record RefusesTwice (R : Registry) : Type 0 where
  pub twice :
      (r : Registered) (a : DevAttr) → has r a ≡ true → is_nonzero (R.device_create_file r a) ≡ true

-- Nothing registered, but perhaps the attribute dbg.
abbrev pub only_dbg : Bool → Registered
only_dbg b = record {
  region = false;
  cdev = false;
  class = false;
  device = false;
  period = false;
  dbg = b;
  proc = false;
}

abbrev all_with : Bool → Registered
all_with p = record {
  region = true;
  cdev = true;
  class = true;
  device = true;
  period = true;
  dbg = true;
  proc = p;
}

module _ (R : Registry) where
  register-fails :
      (b : Bool)
      → is_nonzero (register R (only_dbg b)).0 ≡ true
      → (register R (only_dbg b)).1 ≡ only_dbg b
  unfolding register
  register-fails b e = ground arith

  register-done :
      (b : Bool)
      → is_nonzero (register R (only_dbg b)).0 ≡ false
      → (register R (only_dbg b)).1 ≡ all_with R.proc_create_data
  unfolding register
  register-done b e = ground arith

  register-refused : RefusesTwice R → is_nonzero (register R (only_dbg true)).0 ≡ true
  unfolding register
  register-refused T =
      let there : is_nonzero (R.device_create_file (all_with false) dev_attr_dbg) ≡ true =
        T.twice (all_with false) dev_attr_dbg refl in
      ground arith

undone : (p : Bool) → err_sysfs_remove (all_with p) ≡ only_dbg true
unfolding err_sysfs_remove
undone true = refl
undone false = refl

removed :
    {F : Type 0} (d : BitbangUart F) (irq : ℕ) (p : Bool) (h : Held)
    → (bitbang_remove d irq (all_with p) h).1 ≡ only_dbg true
unfolding bitbang_remove
removed d irq true h = refl
removed d irq false h = refl

irq_valid :
    (P : Platform) (tx rx : ℕ) (h : Held)
    → P.to_irq rx ≢ pos 0
    → is_nonzero (init_pins P tx rx h).0 ≡ false
    → (rx ≡ 0) ⊎ ((init_pins P tx rx h).1 ≢ 0)
unfolding init_pins
irq_valid P tx rx h valid e = ground arith

abbrev from_some : {F T : Type 0} → BitbangUart F → Option (BitbangUart F × T) → BitbangUart F
from_some d none = d
from_some d (some (x, t)) = x

module _ (K : Kfifo) (P : Platform) where
  open K use {Fifo}

  uart_init-pins :
      (tx_gpio rx_gpio param dbg : ℕ) (tx rx : Fifo) (h : Held)
      → (bitbang_uart_init K P tx_gpio rx_gpio param dbg tx rx h).ret ≡ success
      → (is_nonzero (init_pins P tx_gpio rx_gpio h).0 ≡ false)
        × ((bitbang_uart_init K P tx_gpio rx_gpio param dbg tx rx h).irq
            ≡ (init_pins P tx_gpio rx_gpio h).1)
        × ((bitbang_uart_init K P tx_gpio rx_gpio param dbg tx rx h).held
            ≡ (init_pins P tx_gpio rx_gpio h).2)
  unfolding bitbang_uart_init
  uart_init-pins tx_gpio rx_gpio param dbg tx rx h e = elim (Bool-cases P.alloc) [
    | inl memory ↦ rw memory (ap is_nonzero (rw memory at e), refl, refl)
    | inr full ↦ absurd (enomem-ne-success (rw full at e))
  ]

nonzero_of : (z : ℤ) → is_nonzero z ≡ true → z ≢ success
nonzero_of z e n = false≢true (sym (ap is_nonzero n) ∙ e)

module _ (K : Kfifo) (R : Registry) (P : Platform) where
  open K use {Fifo, reset}

  -- From nothing registered, or only the attribute dbg: where the directions of the pins can be
  -- set, a bitbang_probe that fails leaves the pins and the interrupt as they were, no UART, and
  -- nothing registered but perhaps the attribute dbg.
  pub probe_fails :
      RefusesBusy P
      → (tx_gpio rx_gpio param dbg : ℕ) (tx rx : Fifo) (b : Bool) (h : Held)
      → P.direction_output tx_gpio ≡ success
      → P.direction_input rx_gpio ≡ success
      → (bitbang_probe K R P tx_gpio rx_gpio param dbg tx rx (only_dbg b) h).ret ≢ success
      → SameHeld h (bitbang_probe K R P tx_gpio rx_gpio param dbg tx rx (only_dbg b) h).held
        × ((bitbang_probe K R P tx_gpio rx_gpio param dbg tx rx (only_dbg b) h).uart ≡ none)
        × (((bitbang_probe K R P tx_gpio rx_gpio param dbg tx rx (only_dbg b) h).regs ≡ only_dbg b)
            ⊎ ((bitbang_probe K R P tx_gpio rx_gpio param dbg tx rx (only_dbg b) h).regs
                ≡ only_dbg true))
  unfolding bitbang_probe
  probe_fails B tx_gpio rx_gpio param dbg tx rx b h out dir e =
      elim (Bool-cases (is_nonzero (register R (only_dbg b)).0)) [
        | inl early ↦ rw early (((λ p. refl), refl), refl, inl (register-fails R b early))
        | inr on ↦
            let bad : (bitbang_uart_init K P tx_gpio rx_gpio param dbg tx rx h).ret ≢ success =
              λ q. e (rw on q) in
            let clean = init_fails_clean K P B tx_gpio rx_gpio param dbg tx rx h out dir bad in
            rw on (
              clean.0,
              clean.1,
              inr (
                  rw (failure_of (bitbang_uart_init K P tx_gpio rx_gpio param dbg tx rx h).ret bad)
                    (ap err_sysfs_remove (register-done R b on) ∙ undone R.proc_create_data)),
            )
      ]

  -- Where only the attribute dbg is registered and the kernel refuses to create an attribute twice,
  -- bitbang_probe fails and changes nothing.
  pub probe_refused :
      RefusesTwice R
      → (tx_gpio rx_gpio param dbg : ℕ) (tx rx : Fifo) (h : Held)
      → ((bitbang_probe K R P tx_gpio rx_gpio param dbg tx rx (only_dbg true) h).ret ≢ success)
        × ((bitbang_probe K R P tx_gpio rx_gpio param dbg tx rx (only_dbg true) h).regs
            ≡ only_dbg true)
        × ((bitbang_probe K R P tx_gpio rx_gpio param dbg tx rx (only_dbg true) h).held ≡ h)
  unfolding bitbang_probe
  probe_refused T tx_gpio rx_gpio param dbg tx rx h =
      let refused = register-refused R T in
      rw refused
        (nonzero_of (register R (only_dbg true)).0 refused, register-fails R true refused, refl)

  -- From nothing registered, or only the attribute dbg, and a free interrupt whose number is not 0:
  -- bitbang_remove after a bitbang_probe that has succeeded leaves the pins and the interrupt as
  -- they were, the timers stopped, and nothing registered but the attribute dbg.
  pub remove_leaves_dbg :
      RefusesBusy P
      → (tx_gpio rx_gpio param dbg : ℕ) (tx rx : Fifo) (b : Bool) (h : Held) (d : BitbangUart Fifo)
        (t : Timing)
      → h.irq ≡ false
      → P.to_irq rx_gpio ≢ pos 0
      → (bitbang_probe K R P tx_gpio rx_gpio param dbg tx rx (only_dbg b) h).ret ≡ success
      → (bitbang_probe K R P tx_gpio rx_gpio param dbg tx rx (only_dbg b) h).uart ≡ some (d, t)
      → let probed = bitbang_probe K R P tx_gpio rx_gpio param dbg tx rx (only_dbg b) h in
        let out = bitbang_remove d probed.irq probed.regs probed.held in
        (out.1 ≡ only_dbg true)
        × SameHeld h out.2
        × (out.0.tx_timer ≡ false)
        × (out.0.rx_timer ≡ false)
  unfolding bitbang_probe bitbang_remove
  remove_leaves_dbg B tx_gpio rx_gpio param dbg tx rx b h d t free valid e u =
      elim (Bool-cases (is_nonzero (register R (only_dbg b)).0)) [
        | inl early ↦ absurd (nonzero_of (register R (only_dbg b)).0 early (rw early at e))
        | inr on ↦
            let i = bitbang_uart_init K P tx_gpio rx_gpio param dbg tx rx h in
            let p = bitbang_probe K R P tx_gpio rx_gpio param dbg tx rx (only_dbg b) h in
            let pins = init_pins P tx_gpio rx_gpio h in
            let done : i.ret ≡ success = (rw on at e) in
            let made : p.uart
                ≡ some (fresh (reset tx) (reset rx) tx_gpio rx_gpio, init_period param dbg) =
              rw on (init_succeeds K P B tx_gpio rx_gpio param dbg tx rx h done).2 in
            let regs : p.regs ≡ all_with R.proc_create_data =
              rw on (rw (ap is_nonzero done) (register-done R b on)) in
            let by_pins = uart_init-pins K P tx_gpio rx_gpio param dbg tx rx h done in
            let irq : p.irq ≡ pins.1 = rw on by_pins.1 in
            let held : p.held ≡ pins.2 = rw on by_pins.2 in
            let back =
              exit_undoes P B tx_gpio rx_gpio h by_pins.0 free
                (irq_valid P tx_gpio rx_gpio h valid by_pins.0) in
            let same : release d.tx_gpio d.rx_gpio p.irq p.held
                ≡ release tx_gpio rx_gpio pins.1 pins.2 =
              ap (λ x. release x.tx_gpio x.rx_gpio p.irq p.held) (ap (from_some d) (sym u ∙ made))
              ∙ ap₂ (release tx_gpio rx_gpio) irq held in
            (
              ap (λ r. (bitbang_remove d p.irq r p.held).1) regs
                  ∙ removed d p.irq R.proc_create_data p.held,
              subst (SameHeld h) (sym same) back,
              refl,
              refl,
            )
      ]
