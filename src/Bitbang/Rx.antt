-- ===== src/Bitbang/Rx.antt =====
-- rx_irq_handler and rx_timer_cb of uart.c: the start edge, then one call for each bit sampled.
pub mod Frame
use Prim.Native.Nat.{bit_or, bit_xor}
use testings.Prelude.{
  ℕ, zero, suc, ◌+◌, ◌*◌, ◌/◌, ◌%◌, ◌^◌, Bool, true, false, not, ◌&&◌, List, [], ◌∷◌, ltb, ◌==◌,
  if◌then◌else◌,
}
use testings.Prelude.Int.{ℤ, pos, negsuc}
use testings.Kernel.Kfifo.{Kfifo}
use testings.Kernel.Kfifo.Overwrite.{overwrite}
use testings.Bitbang.State.{BitbangUart, BitbangStats, BitbangChr, incr}
use testings.Bitbang.Parity.{parity_even8}

-- The new state, whether the callback returns HRTIMER_RESTART, whether it woke the readers.
pub record Tick (F : Type 0) : Type 0 where
  pub next : BitbangUart F
  pub restart : Bool
  pub wake : Bool

-- `if (d->rx_chr.idx == -1)`
abbrev pub is_idle : ℤ → Bool
is_idle (negsuc zero) = true
is_idle (negsuc (suc n)) = false
is_idle (pos n) = false

-- INSERT_BIT: `(byte >> 1) | ((bit & 1) << 7)`, the lowest bit arriving first
unfoldable pub insert_bit : ℕ → ℕ → ℕ
insert_bit byte bit = bit_or (byte / 2) (bit % 2 * 2 ^ 7)

-- `i ^ parity_bit`
abbrev pub differ : ℕ → ℕ → Bool
differ i p = not (bit_xor i p == 0)

module _ {F : Type 0} where
  -- A falling edge, with the level that the handler reads, starts the timer if no character is on
  -- the way. There is nothing to do without an RX pin.
  unfoldable pub rx_irq_handler : BitbangUart F → ℕ → BitbangUart F
  rx_irq_handler d v =
      if d.rx_gpio == 0
      then d
      else if not (v == 0)
      then d
      else if is_idle d.rx_chr.idx
      then record d { rx_timer = true }
      else d

  abbrev set_rx_idx : BitbangUart F → ℤ → BitbangUart F
  set_rx_idx d i = record d { rx_chr = record d.rx_chr { idx = i } }

  abbrev logic_error : BitbangUart F → Tick F
  logic_error d = record { next = set_rx_idx d (negsuc 0); restart = false; wake = false }

  -- case -1
  unfoldable pub rx_start : BitbangUart F → ℕ → Tick F
  rx_start d v =
      if not (v == 0)
      then record {
        next = record d { stats = record d.stats { rx_errs_start = incr d.stats.rx_errs_start } };
        restart = false;
        wake = false;
      }
      else record { next = set_rx_idx d (pos 0); restart = true; wake = false }

  -- case 8
  unfoldable pub rx_parity : BitbangUart F → ℕ → Tick F
  rx_parity d v = record {
    next = record d { rx_chr = record d.rx_chr { idx = pos 9; parity_bit = v % 2 } };
    restart = true;
    wake = false;
  }

  -- the default case
  unfoldable pub rx_data : BitbangUart F → ℕ → ℕ → Tick F
  rx_data d n v = record {
    next = record d {
      rx_chr = record d.rx_chr { idx = pos (n + 1); value = insert_bit d.rx_chr.value v };
    };
    restart = true;
    wake = false;
  }

-- the counters of a character that fails its checks: `d` is set if the parity differs
unfoldable pub count_errors : Bool → ℕ → BitbangStats → BitbangStats
count_errors d v s = record s {
  rx_errs_parity = if d then incr s.rx_errs_parity else s.rx_errs_parity;
  rx_errs_stop = if v == 0 then incr s.rx_errs_stop else s.rx_errs_stop;
}

module _ (K : Kfifo) where
  open K use {Fifo}

  -- case 9, by whether the computed parity and the received one differ
  unfoldable pub rx_checked : BitbangUart Fifo → ℕ → Bool → Tick Fifo
  unfolding count_errors
  rx_checked d v bad =
      let d' : BitbangUart Fifo = set_rx_idx d (negsuc 0) in
      if not (v == 0) && not bad
      then record {
        next = record d' {
          rx_fifo = overwrite K d.rx_fifo d.rx_chr.value;
          stats = record d.stats { rx_counter = incr d.stats.rx_counter };
        };
        restart = false;
        wake = true;
      }
      else record {
        next = record d' { stats = count_errors bad v d.stats };
        restart = false;
        wake = false;
      }

  unfoldable pub rx_stop : BitbangUart Fifo → ℕ → Tick Fifo
  unfolding rx_checked
  rx_stop d v = rx_checked d v (differ (parity_even8 d.rx_chr.value) d.rx_chr.parity_bit)

  unfoldable pub rx_bit : BitbangUart Fifo → ℕ → ℕ → Tick Fifo
  unfolding rx_parity rx_data rx_stop
  rx_bit d n v =
      if ltb 9 n
      then logic_error d
      else if n == 8
      then rx_parity d v
      else if n == 9
      then rx_stop d v
      else rx_data d n v

  unfoldable pub rx_case : BitbangUart Fifo → ℤ → ℕ → Tick Fifo
  unfolding rx_start rx_bit
  rx_case d (negsuc zero) v = rx_start d v
  rx_case d (negsuc (suc n)) v = logic_error d
  rx_case d (pos n) v = rx_bit d n v

  -- `v` is the level that RXBIT samples. The two out of range paths sample nothing.
  unfoldable pub rx_timer_cb : BitbangUart Fifo → ℕ → Tick Fifo
  unfolding rx_case
  rx_timer_cb d v = rx_case d d.rx_chr.idx v

  -- What hrtimer does after a call: the next one, or the timer becomes inactive.
  unfoldable pub rx_continue : (BitbangUart Fifo → BitbangUart Fifo) → Tick Fifo → BitbangUart Fifo
  rx_continue k t = elim t.restart [
    | true ↦ k t.next
    | false ↦ record (t.next) { rx_timer = false }
  ]

  -- The calls while the pin has these levels.
  unfoldable pub rx_run : List ℕ → BitbangUart Fifo → BitbangUart Fifo
  unfolding rx_continue
  rx_run [] d = d
  rx_run (v ∷ vs) d = rx_continue (rx_run vs) (rx_timer_cb d v)
