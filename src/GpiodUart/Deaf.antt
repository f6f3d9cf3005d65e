-- ===== src/GpiodUart/Deaf.antt =====
-- The receiver where a parity is set.
use testings.Prelude.{
  ℕ, ◌≡◌, ◌≢◌, ◌⊎◌, refl, sym, ap, ◌∙◌, Bool, true, false, List, [], ◌∷◌, arith, ltb,
}
use testings.Prelude.Int.{ℤ, pos, negsuc}
use testings.GpiodUart.{GpiodUart, rx_timer_cb, rx_run}

-- The position is that of a data bit, or in front of them.
abbrev early : ℤ → Bool
early (pos n) = ltb n 8
early (negsuc n) = true

-- Idle, or not beyond the data bits.
abbrev pub IsEarly : GpiodUart → Type 0
IsEarly g = (g.rx_busy ≡ false) ⊎ (early g.rx_bitpos ≡ true)

-- What the reader and the statistics show of the receiver, and its parity.
abbrev pub heard : GpiodUart → ℕ × ℕ × List ℕ × ℕ
heard g = (g.rx_bytes, g.framing_errors, g.flip, g.parity)

timer-heard :
    (g : GpiodUart) (v : ℕ)
    → g.parity ≢ 0
    → IsEarly g
    → (heard (rx_timer_cb g v).next ≡ heard g) × IsEarly (rx_timer_cb g v).next
unfolding rx_timer_cb
timer-heard g v p e = ground arith

-- While a parity is set, whatever levels the timer finds, a receiver that is idle or at a data bit gives
-- no byte to the tty and counts neither a byte nor a framing error: it stops at the parity bit.
pub rx_run-heard :
    (vs : List ℕ) (g : GpiodUart)
    → g.parity ≢ 0
    → IsEarly g
    → (heard (rx_run vs g) ≡ heard g) × IsEarly (rx_run vs g)
unfolding rx_run
rx_run-heard [] g p e = (refl, e)
rx_run-heard (v ∷ vs) g p e =
    let g' = (rx_timer_cb g v).next in
    let one = timer-heard g v p e in
    let kept : g'.parity ≡ g.parity = ap (λ h. h.3) one.0 in
    let rest = rx_run-heard vs g' (λ z. p (sym kept ∙ z)) one.1 in (rest.0 ∙ one.0, rest.1)
