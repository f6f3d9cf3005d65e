-- ===== src/Bitbang/Tx.antt =====
-- tx_timer_cb of uart.c: one call for each bit that goes out.
pub mod Frame
use testings.Prelude.{
  ℕ, zero, suc, ◌+◌, ◌/◌, ◌%◌, ◌^◌, Bool, true, false, Option, none, some, List, [], ◌∷◌, ◌++◌, ltb,
  ◌==◌, if◌then◌else◌,
}
use testings.Prelude.Int.{ℤ, pos, negsuc}
use testings.Kernel.Kfifo.{Kfifo}
use testings.Bitbang.State.{BitbangUart, incr}
use testings.Bitbang.Parity.{parity_even8}

-- What a call does: the new state, whether it returns HRTIMER_RESTART, the level that TXBIT wrote
-- to the pin, and whether it woke the writers.
pub record Tick (F : Type 0) : Type 0 where
  pub next : BitbangUart F
  pub restart : Bool
  pub level : Option ℕ
  pub wake : Bool

-- `1 & (data >> idx)`
abbrev data_bit : ℕ → ℕ → ℕ
data_bit b n = b / 2 ^ n % 2

abbrev to_list : Option ℕ → List ℕ
to_list none = []
to_list (some v) = v ∷ []

module _ {F : Type 0} where
  abbrev set_tx_idx : BitbangUart F → ℤ → BitbangUart F
  set_tx_idx d i = record d { tx_chr = record d.tx_chr { idx = i } }

  -- `TXBIT(v); idx++`
  abbrev send : BitbangUart F → ℕ → ℕ → Tick F
  send d n v = record {
    next = set_tx_idx d (pos (n + 1));
    restart = true;
    level = some v;
    wake = false;
  }

  abbrev logic_error : BitbangUart F → Tick F
  logic_error d = record {
    next = set_tx_idx d (negsuc 0);
    restart = false;
    level = none;
    wake = false;
  }

  -- case -1, by what kfifo_out returned
  unfoldable pub tx_start : BitbangUart F → Option ℕ × F → Tick F
  tx_start d (none, f) = record {
    next = record d { tx_fifo = f };
    restart = false;
    level = none;
    wake = false;
  }
  tx_start d (some b, f) = record {
    next = record d {
      tx_fifo = f;
      tx_chr = record { idx = pos 0; parity_bit = parity_even8 b; value = b };
    };
    restart = true;
    level = some 0;
    wake = true;
  }

  -- case 10: the second stop bit ends the character
  unfoldable pub tx_last : BitbangUart F → Tick F
  tx_last d = record {
    next = record d {
      tx_chr = record d.tx_chr { idx = negsuc 0 };
      stats = record d.stats { tx_counter = incr d.stats.tx_counter };
    };
    restart = true;
    level = some 1;
    wake = false;
  }

  unfoldable pub tx_bit : BitbangUart F → ℕ → Tick F
  unfolding tx_last
  tx_bit d n =
      if ltb 10 n
      then logic_error d
      else if n == 8
      then send d n d.tx_chr.parity_bit
      else if n == 9
      then send d n 1
      else if n == 10
      then tx_last d
      else send d n (data_bit d.tx_chr.value n)

module _ (K : Kfifo) where
  open K use {Fifo, get}

  unfoldable pub tx_case : BitbangUart Fifo → ℤ → Tick Fifo
  unfolding tx_start tx_bit
  tx_case d (negsuc zero) = tx_start d (get d.tx_fifo)
  tx_case d (negsuc (suc n)) = logic_error d
  tx_case d (pos n) = tx_bit d n

  unfoldable pub tx_timer_cb : BitbangUart Fifo → Tick Fifo
  unfolding tx_case
  tx_timer_cb d = tx_case d d.tx_chr.idx

  -- What hrtimer does after a call: the next one, or the timer becomes inactive. With the levels
  -- that are written to the pin.
  unfoldable pub tx_continue :
      (BitbangUart Fifo → BitbangUart Fifo × List ℕ) → Tick Fifo → BitbangUart Fifo × List ℕ
  tx_continue k t = elim t.restart [
    | true ↦ ((k t.next).0, to_list t.level ++ (k t.next).1)
    | false ↦ (record (t.next) { tx_timer = false }, to_list t.level)
  ]

  -- At most `n` calls of the callback.
  unfoldable pub tx_run : ℕ → BitbangUart Fifo → BitbangUart Fifo × List ℕ
  unfolding tx_continue
  tx_run zero d = (d, [])
  tx_run (suc n) d = tx_continue (tx_run n) (tx_timer_cb d)
