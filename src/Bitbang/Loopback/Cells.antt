-- ===== src/Bitbang/Loopback/Cells.antt =====
-- What the receiver does in each bit period of a frame.
use testings.Prelude.{
  ℕ, suc, ◌+◌, ◌%◌, ◌≤◌, ◌<◌, ◌≡◌, ◌≢◌, ap, ◌∙◌, Bool, true, false, not, ◌&&◌, List, [], ◌∷◌, ◌++◌,
  arith, length, ◌==◌, Bool-cases, inl, inr,
}
use testings.Prelude.Int.{pos, negsuc}
use testings.Kernel.Kfifo.{Kfifo}
use testings.Bitbang.State.{BitbangUart}
use testings.Bitbang.Rx.{Tick, insert_bit, rx_irq_handler, rx_timer_cb, rx_case, rx_checked}
use testings.Bitbang.Rx.Frame.{
  insert_bits, stop_timer, checked, at_stop, parity_agrees, parity_good,
}
use testings.Bitbang.Loopback.{on_edge, sample, hear, listen}

-- Ready for a start edge.
pub record IsListening {F : Type 0} (d : BitbangUart F) : Type 0 where
  pub idle : d.rx_chr.idx ≡ negsuc 0
  pub stopped : d.rx_timer ≡ false
  pub enabled : d.irq_depth ≡ 0
  pub wired : d.rx_gpio ≢ 0
  pub byte : d.rx_chr.value < 256

abbrev pub last_or : ℕ → List ℕ → ℕ
last_or p [] = p
last_or p (v ∷ vs) = last_or v vs

module _ (K : Kfifo) where
  open K use {Fifo, size, contents}

  -- In the middle of a character, with `n` bits received.
  abbrev pub busy : BitbangUart Fifo → ℕ → ℕ → BitbangUart Fifo
  busy d n x = record d {
    rx_timer = true;
    rx_chr = record { idx = pos n; parity_bit = d.rx_chr.parity_bit; value = x };
  }

  pub hear-start : (d : BitbangUart Fifo) → IsListening d → hear K 1 d 0 ≡ busy d 0 d.rx_chr.value
  unfolding hear rx_irq_handler rx_timer_cb rx_case
  hear-start d l = ground arith

  -- A falling edge within a character is ignored.
  pub on_edge-busy :
      (p : ℕ) (d : BitbangUart Fifo) (n x v : ℕ) → on_edge p (busy d n x) v ≡ busy d n x
  unfolding on_edge rx_irq_handler
  on_edge-busy p d n x v = ground arith

  sample-data :
      (d : BitbangUart Fifo) (n x v : ℕ)
      → n < 8
      → sample K (busy d n x) v ≡ busy d (n + 1) (insert_bit x v)
  unfolding sample rx_timer_cb rx_case
  sample-data d n x v h = ground arith

  hear-data :
      (p : ℕ) (d : BitbangUart Fifo) (n x v : ℕ)
      → n < 8
      → hear K p (busy d n x) v ≡ busy d (n + 1) (insert_bit x v)
  unfolding hear
  hear-data p d n x v h = ap (λ e. sample K e v) (on_edge-busy p d n x v) ∙ sample-data d n x v h

  listen-data :
      (p : ℕ) (d : BitbangUart Fifo) (n x v : ℕ) (rest : List ℕ)
      → n < 8
      → listen K p (busy d n x) (v ∷ rest) ≡ listen K v (busy d (n + 1) (insert_bit x v)) rest
  unfolding listen
  listen-data p d n x v rest h = ap (λ e. listen K v e rest) (hear-data p d n x v h)

  pub listen-bits :
      (vs : List ℕ) (p : ℕ) (d : BitbangUart Fifo) (n x : ℕ) (rest : List ℕ)
      → n + length vs ≤ 8
      → listen K p (busy d n x) (vs ++ rest)
        ≡ listen K (last_or p vs) (busy d (n + length vs) (insert_bits x vs)) rest
  listen-bits [] p d n x rest h =
      let e : n ≡ n + 0 = omega arith in ap (λ k. listen K p (busy d k x) rest) e
  listen-bits (v ∷ vs) p d n x rest h =
      let e : n + 1 + length vs ≡ n + suc (length vs) = omega arith in
      listen-data p d n x v (vs ++ rest) (omega arith)
      ∙ listen-bits vs v d (n + 1) (insert_bit x v) rest (omega arith)
      ∙ ap (λ k. listen K (last_or v vs) (busy d k (insert_bits (insert_bit x v) vs)) rest) e

  pub hear-parity :
      (p : ℕ) (d : BitbangUart Fifo) (x q : ℕ)
      → hear K p (busy d 8 x) q ≡ record d {
        rx_timer = true;
        rx_chr = record { idx = pos 9; parity_bit = q % 2; value = x };
      }
  unfolding hear sample rx_timer_cb rx_case
  hear-parity p d x q = ap (λ e. sample K e q) (on_edge-busy p d 8 x q)

  sample-stop :
      (d : BitbangUart Fifo) (b q s : ℕ) (bad : Bool)
      → (let t : Tick Fifo = rx_checked K (at_stop K d b q) s bad in
          record (t.next) { rx_timer = t.restart })
        ≡ stop_timer K (rx_checked K (at_stop K d b q) s bad)
  unfolding rx_checked
  sample-stop d b q s bad = elim (Bool-cases (not (s == 0) && not bad)) [
    | inl good ↦ rw (good, rx_checked)
    | inr wrong ↦ rw (wrong, rx_checked)
  ]

  abbrev pub timed : BitbangUart Fifo → BitbangUart Fifo
  timed d = record d { rx_timer = true }

  pub hear-stop :
      (p : ℕ) (d : BitbangUart Fifo) (b q s : ℕ)
      → b < 256
      → hear K p (at_stop K (timed d) b q) s ≡ stop_timer K (checked K (timed d) b q s)
  unfolding hear rx_timer_cb rx_case
  hear-stop p d b q s h =
      ap (λ e. sample K e s) (on_edge-busy p (at_stop K d b q) 9 b s)
      ∙ ap
          (λ bad.
            let t : Tick Fifo = rx_checked K (at_stop K (timed d) b q) s bad in
            record (t.next) { rx_timer = t.restart })
          (parity_agrees K b q h)
      ∙ sample-stop (timed d) b q s (not (parity_good b q))

  pub hear-idle : (d : BitbangUart Fifo) (p : ℕ) → d.rx_timer ≡ false → hear K p d 1 ≡ d
  unfolding hear sample on_edge
  hear-idle d p e = ground arith
