-- ===== src/GpioUart/Rx/Early.antt =====
-- Where the samples of a frame fall: rx_timer_cb goes half a bit on from the call that finds the
-- start bit, and a whole bit from there.
use native.Mathlib.Nat.{add-mul-div_left, div-eq_of_lt}
use testings.Prelude.{
  zero, suc, sym, some, if◌then◌else◌, ℕ, ◌+◌, ◌*◌, ◌/◌, ◌%◌, ◌≤◌, ◌<◌, ◌≡◌, refl, ap, ap₂, ◌∙◌,
  true, false, List, [], ◌∷◌, map, arith, get_or,
}
use testings.Prelude.Int.{pos, negsuc}
use testings.Prelude.Bits.{bits_of, agree, byte_table}
use testings.GpioUart.State.{GuCfg, GpioUart}
use testings.GpioUart.Tx.{set_tx_level}
use testings.GpioUart.Tx.Waveform.{frame}
use testings.GpioUart.Rx.{get_rx_level, or_bit, rx_timer_cb, rx_run, rx_timed, expires}
use testings.GpioUart.Rx.Frame.{
  or_bits, busy_at, received, start_lem, data_lem, stop_lem, get_rx_level-set_tx_level,
  reads-drives, drives,
}

-- The level of the wire a time `t` after a frame without parity has begun, for bits of `period`.
abbrev pub wire : GuCfg → ℕ → ℕ → ℕ → ℕ
wire c b period t = set_tx_level c (get_or (frame 0 c.stopbits b) (t / period) 1)

-- What nine samples read, the first at `s` and each a bit after the one before.
abbrev pub grid : GuCfg → ℕ → ℕ → ℕ → List ℕ
grid c b period s =
    map (λ k. wire c b period (s + period * k)) (0 ∷ 1 ∷ 2 ∷ 3 ∷ 4 ∷ 5 ∷ 6 ∷ 7 ∷ 8 ∷ [])

grid_bit : (s period k : ℕ) → s < period → (s + period * k) / period ≡ k
grid_bit s period k h =
    add-mul-div_left s k (omega arith) ∙ ap (λ x. x + k) (div-eq_of_lt h) ∙ omega arith

grid-start :
    (c : GuCfg) (b period s : ℕ) → s < period → grid c b period s ≡ drives c (0 ∷ bits_of b)
grid-start c b period s h = go (0 ∷ 1 ∷ 2 ∷ 3 ∷ 4 ∷ 5 ∷ 6 ∷ 7 ∷ 8 ∷ [])
  where
    go :
        (ks : List ℕ)
        → map (λ k. wire c b period (s + period * k)) ks
          ≡ map (λ k. set_tx_level c (get_or (frame 0 c.stopbits b) k 1)) ks
    go [] = refl
    go (k ∷ ks) =
        ap₂ ◌∷◌
          (ap (λ i. set_tx_level c (get_or (frame 0 c.stopbits b) i 1)) (grid_bit s period k h))
          (go ks)

abbrev low_quotients : ℕ → List ℕ
low_quotients b = b / 1 ∷ b / 2 ∷ b / 4 ∷ b / 8 ∷ b / 16 ∷ b / 32 ∷ b / 64 ∷ []

abbrev low_bits : ℕ → List ℕ
low_bits b = map (λ x. x % 2) (low_quotients b)

doubled : (b : ℕ) → b < 256 → or_bits 0 0 (0 ∷ low_bits b) ≡ 2 * b % 256
unfolding agree or_bit
doubled = byte_table (λ b. or_bits 0 0 (0 ∷ low_bits b)) (λ b. 2 * b % 256) refl

-- Where an idle receiver without parity is called at a time `t` in the first half of the start bit
-- of a frame whose bits last its own bit time, samples next at a time `s` at most half a bit later,
-- and then once a bit, it takes the start bit for the first data bit: it has twice the byte modulo
-- 256, and the highest bit of the byte counts as the stop bit.
pub rx_run_early :
    (g : GpioUart) (b t s : ℕ)
    → g.cfg.rx_enable ≡ true
    → g.rx_busy ≡ false
    → g.cfg.parity ≡ 0
    → b < 256
    → t < g.cfg.bit_period / 2
    → s ≤ t + g.cfg.bit_period / 2
    → rx_run (wire g.cfg b g.cfg.bit_period t ∷ grid g.cfg b g.cfg.bit_period s) g
      ≡ received g (2 * b % 256) (b / 128 % 2)
unfolding rx_run
rx_run_early g b t s on idle plain hb early next =
    let low = set_tx_level g.cfg 0 in
    let last = set_tx_level g.cfg (b / 128 % 2) in
    ap₂ (λ v vs. rx_run (v ∷ vs) g)
      (ap (λ i. set_tx_level g.cfg (get_or (frame 0 g.cfg.stopbits b) i 1))
        (div-eq_of_lt (omega arith)))
      (grid-start g.cfg b g.cfg.bit_period s (omega arith))
    ∙ ap (rx_run (drives g.cfg (0 ∷ bits_of b)))
        (start_lem g on low idle (get_rx_level-set_tx_level g.cfg 0 (omega arith)))
    ∙ data_lem g on low (drives g.cfg (low_bits b)) (last ∷ []) refl
    ∙ ap (λ x. rx_run (last ∷ []) (busy_at g x (pos 7)))
        (ap (or_bits 0 0) (reads-drives g.cfg (0 ∷ low_quotients b)) ∙ doubled b hb)
    ∙ stop_lem g on (2 * b % 256) last plain
    ∙ ap (received g (2 * b % 256)) (get_rx_level-set_tx_level g.cfg (b / 128 % 2) (omega arith))

-- Enabled, and without parity.
abbrev enabled : GpioUart → GpioUart
enabled g = record g { cfg = record g.cfg { rx_enable = true; parity = 0 } }

enabled_lem : (g : GpioUart) → g.cfg.rx_enable ≡ true → g.cfg.parity ≡ 0 → g ≡ enabled g
enabled_lem g on plain =
    ap (λ b. record g { cfg = record g.cfg { rx_enable = b } }) on
    ∙ ap (λ p. record g { cfg = record g.cfg { rx_enable = true; parity = p } }) plain

-- What `n` calls read, of which each but the last moves the timer on by `p`, the first at `s`.
abbrev steps : (ℕ → ℕ → ℕ) → (ℕ → ℕ) → ℕ → ℕ → ℕ → List ℕ
steps forward_now line p zero s = []
steps forward_now line p (suc n) s = line s ∷ steps forward_now line p n (forward_now s p)

steps-add :
    (forward_now : ℕ → ℕ → ℕ) (line : ℕ → ℕ) (p n s : ℕ)
    → ((t : ℕ) → forward_now t p ≡ t + p)
    → steps forward_now line p n s ≡ steps ◌+◌ line p n s
steps-add forward_now line p zero s h = refl
steps-add forward_now line p (suc n) s h =
    ap (λ t. line s ∷ steps forward_now line p n t) (h s)
    ∙ ap (λ xs. line s ∷ xs) (steps-add forward_now line p n (s + p) h)

timed_data :
    (forward_now : ℕ → ℕ → ℕ) (g : GpioUart) (line : ℕ → ℕ) (s : ℕ)
    → rx_timed forward_now 9 line s (busy_at (enabled g) 0 (negsuc 0))
      ≡ rx_run (steps forward_now line g.cfg.bit_period 9 s) (busy_at (enabled g) 0 (negsuc 0))
unfolding rx_timed rx_run
timed_data forward_now g line s = refl

steps-grid :
    (line : ℕ → ℕ) (p s : ℕ)
    → steps ◌+◌ line p 9 s ≡ map (λ k. line (s + p * k)) (0 ∷ 1 ∷ 2 ∷ 3 ∷ 4 ∷ 5 ∷ 6 ∷ 7 ∷ 8 ∷ [])
steps-grid line p s =
    let e0 : s + p * 0 ≡ s = omega arith in
    let e1 : s + p * 1 ≡ s + p = omega arith in
    let e2 : s + p * 2 ≡ s + p + p = omega arith in
    let e3 : s + p * 3 ≡ s + p + p + p = omega arith in
    let e4 : s + p * 4 ≡ s + p + p + p + p = omega arith in
    let e5 : s + p * 5 ≡ s + p + p + p + p + p = omega arith in
    let e6 : s + p * 6 ≡ s + p + p + p + p + p + p = omega arith in
    let e7 : s + p * 7 ≡ s + p + p + p + p + p + p + p = omega arith in
    let e8 : s + p * 8 ≡ s + p + p + p + p + p + p + p + p = omega arith in
    rw (e0, e1, e2, e3, e4, e5, e6, e7, e8) refl

timed_busy :
    (forward_now : ℕ → ℕ → ℕ) (g : GpioUart) (line : ℕ → ℕ) (s : ℕ)
    → g.cfg.rx_enable ≡ true
    → g.cfg.parity ≡ 0
    → ((t : ℕ) → forward_now t g.cfg.bit_period ≡ t + g.cfg.bit_period)
    → rx_timed forward_now 9 line s (busy_at g 0 (negsuc 0))
      ≡ rx_run (steps ◌+◌ line g.cfg.bit_period 9 s) (busy_at g 0 (negsuc 0))
timed_busy forward_now g line s on plain moves =
    let e = enabled_lem g on plain in
    let p = g.cfg.bit_period in
    ap (λ x. rx_timed forward_now 9 line s (busy_at x 0 (negsuc 0))) e
    ∙ timed_data forward_now g line s
    ∙ ap (λ x. rx_run (steps forward_now line p 9 s) (busy_at x 0 (negsuc 0))) (sym e)
    ∙ ap (λ vs. rx_run vs (busy_at g 0 (negsuc 0))) (steps-add forward_now line p 9 s moves)

-- The call that finds the start bit moves the timer on by half a bit.
start_call :
    (g : GpioUart) (v : ℕ)
    → g.cfg.rx_enable ≡ true
    → g.rx_busy ≡ false
    → get_rx_level g.cfg v ≡ 0
    → rx_timer_cb g v ≡ record {
      next = busy_at g 0 (negsuc 0);
      forward = some (g.cfg.bit_period / 2);
      restart = true;
    }
unfolding rx_timer_cb
start_call g v on idle low = ground arith

timed_start :
    (forward_now : ℕ → ℕ → ℕ) (g : GpioUart) (line : ℕ → ℕ) (t n : ℕ)
    → g.cfg.rx_enable ≡ true
    → g.rx_busy ≡ false
    → get_rx_level g.cfg (line t) ≡ 0
    → rx_timed forward_now (suc n) line t g
      ≡ rx_timed forward_now n line (forward_now t (g.cfg.bit_period / 2)) (busy_at g 0 (negsuc 0))
unfolding rx_timed
timed_start forward_now g line t n on idle low =
    ap
      (λ c.
        if c.restart
        then rx_timed forward_now n line (expires forward_now c.forward t) c.next
        else c.next)
      (start_call g (line t) on idle low)

-- A frame without parity begins on the line at the time 0, its bits as long as the bit time of an idle
-- receiver without parity, whose timer expires in the first half of the start bit; hrtimer_forward_now,
-- called when the timer expires, moves it on by an interval that is not 0. When its next ten calls, each
-- at the time to which the one before has moved the timer on, are over, the receiver has taken the start
-- bit for the first data bit: it has twice the byte modulo 256, and the highest bit of the byte counts
-- as the stop bit.
pub rx_timed_early :
    (forward_now : ℕ → ℕ → ℕ) (g : GpioUart) (b t : ℕ)
    → ((s i : ℕ) → 0 < i → forward_now s i ≡ s + i)
    → g.cfg.rx_enable ≡ true
    → g.rx_busy ≡ false
    → g.cfg.parity ≡ 0
    → b < 256
    → t < g.cfg.bit_period / 2
    → rx_timed forward_now 10 (wire g.cfg b g.cfg.bit_period) t g
      ≡ received g (2 * b % 256) (b / 128 % 2)
unfolding rx_run
rx_timed_early forward_now g b t moves on idle plain hb early =
    let p = g.cfg.bit_period in
    let line = wire g.cfg b p in
    let s = t + p / 2 in
    let low : get_rx_level g.cfg (line t) ≡ 0 =
      ap (λ i. get_rx_level g.cfg (set_tx_level g.cfg (get_or (frame 0 g.cfg.stopbits b) i 1)))
        (div-eq_of_lt (omega arith))
      ∙ get_rx_level-set_tx_level g.cfg 0 (omega arith) in
    timed_start forward_now g line t 9 on idle low
    ∙ ap (λ x. rx_timed forward_now 9 line x (busy_at g 0 (negsuc 0)))
        (moves t (p / 2) (omega arith))
    ∙ timed_busy forward_now g line s on plain (λ x. moves x p (omega arith))
    ∙ ap (λ vs. rx_run vs (busy_at g 0 (negsuc 0))) (steps-grid line p s)
    ∙ ap (rx_run (grid g.cfg b p s)) (sym (start_lem g on (line t) idle low))
    ∙ rx_run_early g b t s on idle plain hb early (omega arith)
