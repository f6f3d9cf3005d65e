-- ===== src/Bitbang/Rx/Frame.antt =====
-- What rx_timer_cb makes of the levels of one frame.
use Prim.Native.Nat.{bit_or}
use testings.Prelude.{
  ℕ, zero, suc, ◌+◌, ◌*◌, ◌/◌, ◌%◌, ◌<◌, ◌≡◌, ◌⊎◌, inl, inr, refl, sym, ap, subst, ◌∙◌, Bool, false,
  not, ◌&&◌, List, [], ◌∷◌, ◌++◌, arith, ◌==◌, if◌then◌else◌, Bool-cases, keep_last,
}
use testings.Prelude.Int.{pos, negsuc}
use testings.Prelude.Bits.{agree, byte_table, bits_of, popcount}
use testings.Kernel.Kfifo.{Kfifo}
use testings.Kernel.Kfifo.Overwrite.{contents-overwrite}
use testings.Bitbang.State.{BitbangUart, incr}
use testings.Bitbang.Parity.{parity_even8, parity_even8-popcount}
use testings.Bitbang.Rx.{
  Tick, insert_bit, differ, rx_stop, rx_checked, rx_case, rx_continue, rx_timer_cb, rx_run,
}

mod_two_cases : (v : ℕ) → (v % 2 ≡ 0) ⊎ (v % 2 ≡ 1)
mod_two_cases v = ground arith

insert_zero : (x : ℕ) → x < 256 → bit_or (x / 2) 0 ≡ x / 2
unfolding agree
insert_zero = byte_table (λ x. bit_or (x / 2) 0) (λ x. x / 2) refl

insert_one : (x : ℕ) → x < 256 → bit_or (x / 2) 128 ≡ x / 2 + 128
unfolding agree
insert_one = byte_table (λ x. bit_or (x / 2) 128) (λ x. x / 2 + 128) refl

-- INSERT_BIT shifts the byte down and puts the bit on top.
pub insert_bit_lem : (x v : ℕ) → x < 256 → insert_bit x v ≡ x / 2 + v % 2 * 128
unfolding insert_bit
insert_bit_lem x v h = elim (mod_two_cases v) [
  | inl e ↦ rw e (insert_zero x h ∙ omega arith)
  | inr e ↦ rw e (insert_one x h)
]

abbrev pub insert_bits : ℕ → List ℕ → ℕ
insert_bits x [] = x
insert_bits x (v ∷ vs) = insert_bits (insert_bit x v) vs

abbrev shift_bits : ℕ → List ℕ → ℕ
shift_bits x [] = x
shift_bits x (v ∷ vs) = shift_bits (x / 2 + v % 2 * 128) vs

insert_bits-shift : (vs : List ℕ) (x : ℕ) → x < 256 → insert_bits x vs ≡ shift_bits x vs
insert_bits-shift [] x h = refl
insert_bits-shift (v ∷ vs) x h =
    ap (λ y. insert_bits y vs) (insert_bit_lem x v h)
    ∙ insert_bits-shift vs (x / 2 + v % 2 * 128) (omega arith)

-- Eight bits push the old byte out.
pub insert_bits_of : (x b : ℕ) → x < 256 → b < 256 → insert_bits x (bits_of b) ≡ b
insert_bits_of x b hx hb = insert_bits-shift (bits_of b) x hx ∙ omega arith

-- The parity test of the code: `!(i ^ parity_bit)` on two bits.
differ-eq : (i p : ℕ) → i < 2 → p < 2 → differ i p ≡ not (p == i)
differ-eq zero zero h k = refl
differ-eq zero (suc zero) h k = refl
differ-eq (suc zero) zero h k = refl
differ-eq (suc zero) (suc zero) h k = refl
differ-eq zero (suc (suc p)) h k = absurd (omega arith)
differ-eq (suc zero) (suc (suc p)) h k = absurd (omega arith)
differ-eq (suc (suc i)) p h k = absurd (omega arith)

-- Where the levels carry `q` as the parity bit of `b` and `s` as the stop bit.
abbrev pub parity_good : ℕ → ℕ → Bool
parity_good b q = q % 2 == popcount b % 2

abbrev pub frame_good : ℕ → ℕ → ℕ → Bool
frame_good b q s = not (s == 0) && parity_good b q

module _ (K : Kfifo) where
  open K use {Fifo, size, contents}

  -- The receiver after one frame: what it delivers, what it counts, what it leaves alone.
  pub record Received (d : BitbangUart Fifo) (b q s : ℕ) (out : BitbangUart Fifo) : Type 0 where
    pub delivered : contents out.rx_fifo ≡ (
        if frame_good b q s
        then keep_last size (contents d.rx_fifo ++ b ∷ [])
        else contents d.rx_fifo)
    pub counted :
        out.stats.rx_counter
        ≡ (if frame_good b q s then incr d.stats.rx_counter else d.stats.rx_counter)
    pub parity_errors :
        out.stats.rx_errs_parity
        ≡ (if parity_good b q then d.stats.rx_errs_parity else incr d.stats.rx_errs_parity)
    pub stop_errors :
        out.stats.rx_errs_stop
        ≡ (if s == 0 then incr d.stats.rx_errs_stop else d.stats.rx_errs_stop)
    pub start_errors : out.stats.rx_errs_start ≡ d.stats.rx_errs_start
    pub idle : out.rx_chr.idx ≡ negsuc 0
    pub stopped : out.rx_timer ≡ false
    pub value : out.rx_chr.value ≡ b
    pub line : (out.irq_depth ≡ d.irq_depth) × (out.rx_gpio ≡ d.rx_gpio)
    pub sender : (out.tx_chr ≡ d.tx_chr) × (out.tx_fifo ≡ d.tx_fifo)

  -- The state in which the stop bit is sampled.
  abbrev pub at_stop : BitbangUart Fifo → ℕ → ℕ → BitbangUart Fifo
  at_stop d b q = record d { rx_chr = record { idx = pos 9; parity_bit = q % 2; value = b } }

  abbrev pub stop_timer : Tick Fifo → BitbangUart Fifo
  stop_timer t = record (t.next) { rx_timer = false }

  -- The parity that the code computes over `b` against the received `q`.
  abbrev pub checked : BitbangUart Fifo → ℕ → ℕ → ℕ → Tick Fifo
  checked d b q s = rx_checked K (at_stop d b q) s (not (parity_good b q))

  rx_stop-ends :
      (k : BitbangUart Fifo → BitbangUart Fifo) (d : BitbangUart Fifo) (v : ℕ) (bad : Bool)
      → rx_continue K k (rx_checked K d v bad) ≡ stop_timer (rx_checked K d v bad)
  unfolding rx_checked rx_continue
  rx_stop-ends k d v bad = elim (Bool-cases (not (v == 0) && not bad)) [
    | inl good ↦ rw (good, rx_checked)
    | inr wrong ↦ rw (wrong, rx_checked)
  ]

  pub parity_agrees : (b q : ℕ) → b < 256 → differ (parity_even8 b) (q % 2) ≡ not (parity_good b q)
  parity_agrees b q h =
      ap (λ i. differ i (q % 2)) (parity_even8-popcount b h)
      ∙ differ-eq (popcount b % 2) (q % 2) (omega arith) (omega arith)

  rx_run-checked :
      (d : BitbangUart Fifo) (b q s : ℕ)
      → d.rx_chr.idx ≡ negsuc 0
      → d.rx_chr.value < 256
      → b < 256
      → rx_run K (0 ∷ (bits_of b ++ (q ∷ s ∷ []))) d ≡ stop_timer (checked d b q s)
  unfolding rx_run rx_timer_cb
  rx_run-checked d b q s idle hx hb =
      ap (λ i. rx_continue K (rx_run K (bits_of b ++ (q ∷ s ∷ []))) (rx_case K d i 0)) idle
      ∙ ap (λ y. rx_continue K (λ x. x) (rx_stop K (at_stop d y q) s))
          (insert_bits_of d.rx_chr.value b hx hb)
      ∙ ap (λ t. rx_continue K (λ x. x) (rx_checked K (at_stop d b q) s t)) (parity_agrees b q hb)
      ∙ rx_stop-ends (λ x. x) (at_stop d b q) s (not (parity_good b q))

  pub checked-Received :
      (d : BitbangUart Fifo) (b q s : ℕ) → Received d b q s (stop_timer (checked d b q s))
  unfolding rx_checked
  checked-Received d b q s = ground (arith, contents-overwrite K d.rx_fifo b)

  -- An idle receiver that samples a start bit, the bits of `b`, a parity level `q` and a stop level
  -- `s` delivers `b`, dropping the oldest byte of a full fifo, exactly when the stop level is high
  -- and `q` makes the number of ones even; else it leaves the fifo alone. It counts what it
  -- delivers and each of the two errors, is idle again and has stopped its timer; the
  -- transmitter is not touched.
  pub rx_run-Received :
      (d : BitbangUart Fifo) (b q s : ℕ)
      → d.rx_chr.idx ≡ negsuc 0
      → d.rx_chr.value < 256
      → b < 256
      → Received d b q s (rx_run K (0 ∷ (bits_of b ++ (q ∷ s ∷ []))) d)
  rx_run-Received d b q s idle hx hb =
      subst (Received d b q s) (sym (rx_run-checked d b q s idle hx hb)) (checked-Received d b q s)
