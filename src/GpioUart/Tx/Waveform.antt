-- ===== src/GpioUart/Tx/Waveform.antt =====
-- The waveform of a byte: a start bit, the bits of the byte, a parity bit if one is asked for, and
-- the stop bits, each as long as the baud rate says.
use testings.Prelude.{
  ℕ, zero, suc, ◌+◌, ◌/◌, ◌%◌, ◌≤◌, ◌≡◌, ◌≢◌, inl, inr, refl, ap, true, false, List, [], ◌∷◌, ◌++◌,
  map, map-append, arith, length, replicate, ◌==◌, if◌then◌else◌, Bool-cases,
}
use testings.Prelude.Int.{pos}
use testings.Prelude.Bits.{bits_of, popcount}
use testings.Kernel.Errno.{eio}
use testings.GpioUart.State.{GuCfg, GuStats, GpioUart, incr}
use testings.GpioUart.Tx.{
  Pulse, set_tx_level, pulse, data_pulses, parity_pulses, stop_pulses, uart_tx_byte, tx_bytes,
  gu_tty_write,
}

-- 1 for odd parity makes the number of ones odd, 2 for even parity makes it even.
abbrev pub parity_bits : ℕ → ℕ → List ℕ
parity_bits zero b = []
parity_bits (suc zero) b = (popcount b + 1) % 2 ∷ []
parity_bits (suc (suc n)) b = popcount b % 2 ∷ []

-- The bits of a frame, by the parity mode and the number of stop bits.
abbrev pub frame : ℕ → ℕ → ℕ → List ℕ
frame mode stops b = 0 ∷ (bits_of b ++ (parity_bits mode b ++ replicate stops 1))

abbrev pub pulses : GuCfg → List ℕ → List Pulse
pulses c = map (λ v. (set_tx_level c v, 1000000 / c.baud))

stop_pulses-map :
    (c : GuCfg) (us n : ℕ) → stop_pulses c us n ≡ map (λ v. (set_tx_level c v, us)) (replicate n 1)
unfolding stop_pulses
stop_pulses-map c us zero = refl
stop_pulses-map c us (suc n) = ap (◌∷◌ (pulse c us 1)) (stop_pulses-map c us n)

even_level : (n : ℕ) → (if n % 2 == 0 then 0 else 1) ≡ n % 2
even_level n = ground arith

odd_level : (n : ℕ) → (if n % 2 == 0 then 1 else 0) ≡ (n + 1) % 2
odd_level n = ground arith

module _ (c : GuCfg) (us b : ℕ) where
  abbrev levels : List ℕ → List Pulse
  levels = map (λ v. (set_tx_level c v, us))

  parity_pulses-map :
      (m : ℕ) → c.parity ≡ m → m ≤ 2 → parity_pulses c us b ≡ levels (parity_bits m b)
  unfolding parity_pulses
  parity_pulses-map zero e h = rw e
  parity_pulses-map (suc zero) e h = rw e (ap (λ v. pulse c us v ∷ []) (odd_level (popcount b)))
  parity_pulses-map (suc (suc zero)) e h =
      rw e (ap (λ v. pulse c us v ∷ []) (even_level (popcount b)))
  parity_pulses-map (suc (suc (suc m))) e h = ground arith

  sent_levels :
      c.parity ≤ 2
      → pulse c us 0
          ∷ (data_pulses c us 8 0 b ++ (parity_pulses c us b ++ stop_pulses c us c.stopbits))
        ≡ levels (frame c.parity c.stopbits b)
  unfolding data_pulses
  sent_levels h = rw (parity_pulses-map c.parity refl h) (
      rw (stop_pulses-map c us c.stopbits) (
        rw (
          map-append {B = Pulse} (λ v. (set_tx_level c v, us)) (parity_bits c.parity b)
            (replicate c.stopbits 1))))

unequal : (n : ℕ) → n ≢ 0 → (n == 0) ≡ false
unequal n h = ground arith

-- Where sending is enabled, the rate is not 0 and the parity mode is one of the three, uart_tx_byte
-- puts the frame of the byte on the pin, inverted if asked for, with the bit time after every
-- level, and counts the byte modulo 2 ^ 64.
pub uart_tx_byte_lem :
    (c : GuCfg) (b : ℕ) (st : GuStats)
    → c.tx_enable ≡ true
    → c.baud ≢ 0
    → c.parity ≤ 2
    → uart_tx_byte c b st
      ≡ (pulses c (frame c.parity c.stopbits b), record st { tx_bytes = incr st.tx_bytes })
unfolding uart_tx_byte
uart_tx_byte_lem c b st on rated mode = rw on (
    rw (unequal c.baud rated) (
      ap (λ x. (x, record st { tx_bytes = incr st.tx_bytes }))
        (sent_levels c (1000000 / c.baud) b mode)))

-- The bytes that have been counted after `n` more.
abbrev pub counted : ℕ → ℕ → ℕ
counted zero t = t
counted (suc n) t = counted n (incr t)

abbrev pub frames : GuCfg → List ℕ → List Pulse
frames c [] = []
frames c (b ∷ bs) = pulses c (frame c.parity c.stopbits b) ++ frames c bs

tx_bytes_lem :
    (c : GuCfg) (buf : List ℕ) (st : GuStats)
    → c.tx_enable ≡ true
    → c.baud ≢ 0
    → c.parity ≤ 2
    → tx_bytes c buf st ≡ (frames c buf, record st { tx_bytes = counted (length buf) st.tx_bytes })
unfolding tx_bytes
tx_bytes_lem c [] st on rated mode = refl
tx_bytes_lem c (b ∷ bs) st on rated mode =
    rw (uart_tx_byte_lem c b st on rated mode)
      (rw (tx_bytes_lem c bs (record st { tx_bytes = incr st.tx_bytes }) on rated mode))

-- Where the rate is not 0 and the parity mode is one of the three, gu_tty_write returns -EIO and
-- changes nothing if sending is disabled; else it sends the frames of all the bytes in order,
-- returns their number, counts each of them, and touches nothing but that count.
pub gu_tty_write_lem :
    (buf : List ℕ) (g : GpioUart)
    → g.cfg.baud ≢ 0
    → g.cfg.parity ≤ 2
    → gu_tty_write (length buf) buf g ≡ (
        if g.cfg.tx_enable
        then (
          pos (length buf),
          frames g.cfg buf,
          record g { st = record g.st { tx_bytes = counted (length buf) g.st.tx_bytes } },
        )
        else (eio, [], g))
unfolding gu_tty_write
gu_tty_write_lem buf g rated mode = elim (Bool-cases g.cfg.tx_enable) [
  | inl on ↦ rw (tx_bytes_lem g.cfg buf g.st on rated mode) (simp on)
  | inr off ↦ rw off
]
