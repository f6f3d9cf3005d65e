-- ===== src/GpioUart/Rx/Frame.antt =====
-- What the receiver makes of the levels of a frame.
use testings.Prelude.{
  ℕ, ◌+◌, ◌/◌, ◌%◌, ◌≤◌, ◌<◌, ◌≡◌, ◌≢◌, refl, ap, ap₂, ◌∙◌, true, false, ◌&&◌, List, [], ◌∷◌, ◌++◌,
  map, length, arith, ◌==◌, if◌then◌else◌, Bool-cases, inl, inr,
}
use testings.Prelude.Int.{ℤ, pos, negsuc}
use testings.Prelude.Bits.{bits_of, agree, byte_table}
use testings.GpioUart.State.{GuCfg, GpioUart, incr}
use testings.GpioUart.Tx.{set_tx_level}
use testings.GpioUart.Rx.{get_rx_level, or_bit, rx_timer_cb, rx_run}

abbrev pub or_bits : ℕ → ℕ → List ℕ → ℕ
or_bits x n [] = x
or_bits x n (v ∷ vs) = or_bits (or_bit x n v) (n + 1) vs

pub or_bits_of : (b : ℕ) → b < 256 → or_bits 0 0 (bits_of b) ≡ b
unfolding agree or_bit
or_bits_of = byte_table (λ b. or_bits 0 0 (bits_of b)) (λ b. b) refl

-- A busy receiver that has sampled `n` bits.
abbrev pub busy_at : GpioUart → ℕ → ℤ → GpioUart
busy_at g x i = record g { rx_busy = true; rx_byte = x; rx_bitpos = i }

-- The other end of the wire: what set_tx_level drives is what get_rx_level reads.
pub get_rx_level-set_tx_level : (c : GuCfg) (v : ℕ) → v < 2 → get_rx_level c (set_tx_level c v) ≡ v
get_rx_level-set_tx_level c v h = ground arith

abbrev pub reads : GuCfg → List ℕ → List ℕ
reads c = map (get_rx_level c)

abbrev pub drives : GuCfg → List ℕ → List ℕ
drives c = map (set_tx_level c)

pub reads-drives :
    (c : GuCfg) (xs : List ℕ) → reads c (drives c (map (λ x. x % 2) xs)) ≡ map (λ x. x % 2) xs
reads-drives c [] = refl
reads-drives c (x ∷ xs) =
    ap₂ ◌∷◌ (get_rx_level-set_tx_level c (x % 2) (omega arith)) (reads-drives c xs)

abbrev pub quotients : ℕ → List ℕ
quotients b = b / 1 ∷ b / 2 ∷ b / 4 ∷ b / 8 ∷ b / 16 ∷ b / 32 ∷ b / 64 ∷ b / 128 ∷ []

abbrev bits_of_tail : ℕ → List ℕ
bits_of_tail b = map (λ x. x % 2) (b / 2 ∷ b / 4 ∷ b / 8 ∷ b / 16 ∷ b / 32 ∷ b / 64 ∷ b / 128 ∷ [])

-- The samples of a frame: the parity level only if there is a parity mode.
abbrev pub samples : ℕ → ℕ → ℕ → ℕ → List ℕ
samples mode b q s = 0 ∷ (bits_of b ++ (if mode == 0 then s ∷ [] else q ∷ s ∷ []))

-- The receiver after a frame of `b` whose stop bit is `s`.
abbrev pub received : GpioUart → ℕ → ℕ → GpioUart
received g b s = record g {
  rx_busy = false;
  rx_byte = b;
  rx_bitpos = if g.cfg.parity == 0 then pos 8 else pos 9;
  flip = if s == 1 && g.initialized then g.flip ++ b ∷ [] else g.flip;
  st =
      if s == 1
      then record g.st { rx_bytes = incr g.st.rx_bytes }
      else record g.st { framing_errors = incr g.st.framing_errors };
}

module _ (g : GpioUart) (on : g.cfg.rx_enable ≡ true) where
  pub start_lem :
      (v : ℕ)
      → g.rx_busy ≡ false
      → get_rx_level g.cfg v ≡ 0
      → (rx_timer_cb g v).next ≡ busy_at g 0 (negsuc 0)
  unfolding rx_timer_cb
  start_lem v idle low = ground arith

  bit_zero :
      (x v : ℕ)
      → (rx_timer_cb (busy_at g x (negsuc 0)) v).next
        ≡ busy_at g (or_bit x 0 (get_rx_level g.cfg v)) (pos 0)
  unfolding rx_timer_cb
  bit_zero x v = ground arith

  bit_lem :
      (x n v : ℕ)
      → n < 7
      → (rx_timer_cb (busy_at g x (pos n)) v).next
        ≡ busy_at g (or_bit x (n + 1) (get_rx_level g.cfg v)) (pos (n + 1))
  unfolding rx_timer_cb
  bit_lem x n v h = ground arith

  bits_lem :
      (vs ws : List ℕ) (x n : ℕ)
      → n + length vs ≤ 7
      → rx_run (vs ++ ws) (busy_at g x (pos n))
        ≡ rx_run ws (busy_at g (or_bits x (n + 1) (reads g.cfg vs)) (pos (n + length vs)))
  unfolding rx_run
  bits_lem [] ws x n h = ap (λ k. rx_run ws (busy_at g x (pos k))) (omega arith)
  bits_lem (v ∷ vs) ws x n h =
      ap (rx_run (vs ++ ws)) (bit_lem x n v (omega arith))
      ∙ bits_lem vs ws (or_bit x (n + 1) (get_rx_level g.cfg v)) (n + 1) (omega arith)
      ∙ ap (λ k. rx_run ws (busy_at g (or_bits x (n + 1) (reads g.cfg (v ∷ vs))) (pos k)))
          (omega arith)

  pub stop_lem :
      (b v : ℕ)
      → g.cfg.parity ≡ 0
      → (rx_timer_cb (busy_at g b (pos 7)) v).next ≡ received g b (get_rx_level g.cfg v)
  unfolding rx_timer_cb
  stop_lem b v none = ground arith

  parity_lem :
      (b q v : ℕ)
      → g.cfg.parity ≢ 0
      → rx_run (q ∷ v ∷ []) (busy_at g b (pos 7)) ≡ received g b (get_rx_level g.cfg v)
  unfolding rx_run rx_timer_cb
  parity_lem b q v some = ground arith

  -- After the start bit, eight samples make the byte.
  pub data_lem :
      (v : ℕ) (vs ws : List ℕ)
      → length vs ≡ 7
      → rx_run (v ∷ (vs ++ ws)) (busy_at g 0 (negsuc 0))
        ≡ rx_run ws (busy_at g (or_bits 0 0 (reads g.cfg (v ∷ vs))) (pos 7))
  unfolding rx_run
  data_lem v vs ws h =
      ap (rx_run (vs ++ ws)) (bit_zero 0 v)
      ∙ bits_lem vs ws (or_bit 0 0 (get_rx_level g.cfg v)) 0 (omega arith)
      ∙ ap (λ k. rx_run ws (busy_at g (or_bits 0 0 (reads g.cfg (v ∷ vs))) (pos k))) (omega arith)

  end_lem :
      (b q s : ℕ)
      → s < 2
      → rx_run
          (drives g.cfg (if g.cfg.parity == 0 then s ∷ [] else q ∷ s ∷ []))
          (busy_at g b (pos 7))
        ≡ received g b s
  unfolding rx_run
  end_lem b q s h = elim (Bool-cases (g.cfg.parity == 0)) [
    | inl e ↦
        ap (λ t. rx_run (drives g.cfg (if t then s ∷ [] else q ∷ s ∷ [])) (busy_at g b (pos 7))) e
        ∙ stop_lem b (set_tx_level g.cfg s) (ground arith)
        ∙ ap (received g b) (get_rx_level-set_tx_level g.cfg s h)
    | inr e ↦
        ap (λ t. rx_run (drives g.cfg (if t then s ∷ [] else q ∷ s ∷ [])) (busy_at g b (pos 7))) e
        ∙ parity_lem b (set_tx_level g.cfg q) (set_tx_level g.cfg s) (ground arith)
        ∙ ap (received g b) (get_rx_level-set_tx_level g.cfg s h)
  ]

  -- An idle receiver that is enabled and samples the frame of a byte, as set_tx_level drives it,
  -- has the byte, is idle again, and for a high stop bit has counted it and given it to the tty if
  -- that is initialized, for a low one has counted a framing error; the parity level does not
  -- matter.
  pub rx_run_lem :
      (b q s : ℕ)
      → g.rx_busy ≡ false
      → b < 256
      → s < 2
      → rx_run (drives g.cfg (samples g.cfg.parity b q s)) g ≡ received g b s
  unfolding rx_run
  rx_run_lem b q s idle hb hs =
      let rest = if g.cfg.parity == 0 then s ∷ [] else q ∷ s ∷ [] in
      let bits = drives g.cfg (bits_of b) in
      ap (rx_run (bits ++ drives g.cfg rest))
        (start_lem (set_tx_level g.cfg 0) idle (get_rx_level-set_tx_level g.cfg 0 (omega arith)))
      ∙ data_lem (set_tx_level g.cfg (b / 1 % 2)) (drives g.cfg (bits_of_tail b))
          (drives g.cfg rest) refl
      ∙ ap (λ x. rx_run (drives g.cfg rest) (busy_at g x (pos 7)))
          (ap (or_bits 0 0) (reads-drives g.cfg (quotients b)) ∙ or_bits_of b hb)
      ∙ end_lem b q s hs
