-- ===== src/GpiodUart/Tx.antt =====
-- uart_tx_byte, which nothing calls.
use testings.Prelude.{
  ℕ, zero, suc, ◌+◌, ◌/◌, ◌%◌, ◌^◌, ◌≤◌, ◌≡◌, ◌≢◌, refl, true, false, not, ◌||◌, List, [], ◌∷◌,
  ◌++◌, map, replicate, arith, ◌==◌, if◌then◌else◌,
}
use testings.Prelude.Bits.{popcount}
use testings.GpioUart.State.{incr}
use testings.GpioUart.Tx.{Pulse}
use testings.GpioUart.Tx.Waveform.{frame, parity_bits}
use testings.GpiodUart.{GpiodUart}

-- The levels of the loop over the data bits, in `n` rounds from `i` on.
abbrev data_levels : ℕ → ℕ → ℕ → List ℕ
data_levels zero i b = []
data_levels (suc n) i b = (b / 2 ^ i % 2) ∷ data_levels n (i + 1) b

abbrev parity_levels : ℕ → ℕ → List ℕ
parity_levels parity b =
    let pop = popcount b % 2 in
    if parity == 0
    then []
    else (if parity == 2 then (if pop == 0 then 0 else 1) else (if pop == 0 then 1 else 0)) ∷ []

-- The levels on the pin, each with the udelay after it, in microseconds.
unfoldable pub uart_tx_byte : ℕ → GpiodUart → List Pulse × GpiodUart
uart_tx_byte b g =
    let us = 1000000 / g.baud in
    let sent = 0 ∷ (data_levels 8 0 b ++ (parity_levels g.parity b ++ replicate g.stopbits 1)) in
    if not g.tx_enable || (g.baud == 0)
    then ([], g)
    else (map (λ v. (v, us)) sent, record g { tx_bytes = incr g.tx_bytes })

parity_levels_lem : (mode b : ℕ) → mode ≤ 2 → parity_levels mode b ≡ parity_bits mode b
parity_levels_lem zero b h = refl
parity_levels_lem (suc zero) b h = ground arith
parity_levels_lem (suc (suc zero)) b h = ground arith
parity_levels_lem (suc (suc (suc n))) b h = absurd (omega arith)

-- Where sending is enabled, the rate is not 0 and the parity mode is one of the three, uart_tx_byte puts
-- the frame of the byte on the pin, with the bit time after every level, and counts the byte.
uart_tx_byte-frame :
    (b : ℕ) (g : GpiodUart)
    → g.tx_enable ≡ true
    → g.baud ≢ 0
    → g.parity ≤ 2
    → uart_tx_byte b g ≡ (
      map (λ v. (v, 1000000 / g.baud)) (frame g.parity g.stopbits b),
      record g { tx_bytes = incr g.tx_bytes },
    )
unfolding uart_tx_byte
uart_tx_byte-frame b g on rated mode =
    let test : (not g.tx_enable || (g.baud == 0)) ≡ false = ground arith in
    rw (test, parity_levels_lem g.parity b mode) refl
