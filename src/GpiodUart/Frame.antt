-- ===== src/GpiodUart/Frame.antt =====
-- What the receiver makes of the levels of a frame without parity.
use testings.Prelude.{
  ℕ, ◌<◌, ◌≡◌, refl, ap, ◌∙◌, true, false, ◌&&◌, [], ◌∷◌, ◌++◌, arith, ◌==◌, if◌then◌else◌,
}
use testings.Prelude.Int.{pos}
use testings.Prelude.Bits.{bits_of}
use testings.GpioUart.State.{incr}
use testings.GpioUart.Rx.Frame.{or_bits, or_bits_of}
use testings.GpiodUart.{GpiodUart, rx_stop, rx_run}

-- Enabled and idle, with no parity.
abbrev pub ready : GpiodUart → GpiodUart
ready g = record g { rx_enable = true; rx_busy = false; parity = 0 }

-- The receiver after a frame of `b` whose stop bit is `s`.
abbrev pub received : GpiodUart → ℕ → ℕ → GpiodUart
received g b s = record g {
  rx_busy = false;
  rx_byte = b;
  rx_bitpos = pos 8;
  flip = if s == 1 && g.initialized then g.flip ++ b ∷ [] else g.flip;
  rx_bytes = if s == 1 && g.initialized then incr g.rx_bytes else g.rx_bytes;
  framing_errors = if s == 1 then g.framing_errors else incr g.framing_errors;
}

-- The levels one by one, up to the stop bit.
sampled :
    (g : GpiodUart) (a b c d e f h i s : ℕ)
    → rx_run (0 ∷ a ∷ b ∷ c ∷ d ∷ e ∷ f ∷ h ∷ i ∷ s ∷ []) (ready g)
      ≡ rx_stop
          (record (ready g) {
            rx_busy = true;
            rx_byte = or_bits 0 0 (a ∷ b ∷ c ∷ d ∷ e ∷ f ∷ h ∷ i ∷ []);
            rx_bitpos = pos 8;
          })
          s
unfolding rx_run
sampled g a b c d e f h i s = refl

rx_stop_lem :
    (g : GpiodUart) (b s : ℕ)
    → rx_stop (record (ready g) { rx_busy = true; rx_byte = b; rx_bitpos = pos 8 }) s
      ≡ received (ready g) b s
unfolding rx_stop
rx_stop_lem g b s = ground arith

-- A receiver that is enabled and idle, without parity, and samples the frame of a byte, has the byte and
-- is idle again; for a high stop bit it has given the byte to the tty and counted it, if that is
-- initialized, and for a low one it has counted a framing error.
pub rx_run-received :
    (g : GpiodUart) (b s : ℕ)
    → b < 256
    → rx_run (0 ∷ (bits_of b ++ s ∷ [])) (ready g) ≡ received (ready g) b s
rx_run-received g b s h =
    sampled g _ _ _ _ _ _ _ _ s
    ∙ ap (λ x. rx_stop (record (ready g) { rx_busy = true; rx_byte = x; rx_bitpos = pos 8 }) s)
        (or_bits_of b h)
    ∙ rx_stop_lem g b s
