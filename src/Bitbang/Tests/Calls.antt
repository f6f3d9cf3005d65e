-- ===== src/Bitbang/Tests/Calls.antt =====
-- Reads, writes and the system at concrete inputs.
use testings.Prelude.{ℕ, refl, List, [], ◌∷◌, arith, true}
use testings.Prelude.Int.{pos, negsuc}
use testings.Kernel.Kfifo.{Kfifo}
use testings.Kernel.Kfifo.Bounded.{list_fifo}
use testings.Bitbang.State.{BitbangUart, fresh}
use testings.Bitbang.Device.{woken, tx_copy, bitbang_rx, bitbang_tx, bitbang_uart_open}
use testings.Bitbang.Device.Reads.{Read, bitbang_rx-Read}
use testings.Bitbang.Device.Writes.{Write, bitbang_tx-Write}
use testings.Bitbang.System.{opened, writes, Reach, start, later}
use testings.Bitbang.System.Invariant.{Inv, Reach-Inv}

abbrev four : Kfifo
four = list_fifo 4 (omega arith)

abbrev quiet : BitbangUart (List ℕ)
quiet = fresh [] [] 530 532

abbrev filled : BitbangUart (List ℕ)
filled = record quiet { rx_fifo = 7 ∷ 8 ∷ 9 ∷ [] }

abbrev clogged : BitbangUart (List ℕ)
clogged = record quiet { tx_fifo = 1 ∷ 2 ∷ 3 ∷ 4 ∷ [] }

-- A reader waits on an empty fifo, and then takes two of three bytes.
abbrev after_read : BitbangUart (List ℕ)
after_read = record quiet { rx_fifo = 9 ∷ [] }

abbrev after_write : BitbangUart (List ℕ)
after_write = record quiet { tx_fifo = 5 ∷ 6 ∷ []; tx_timer = true }

bitbang_rx-Read_example : Read four (woken filled ∷ []) quiet [] 2 (pos 2) after_read
unfolding bitbang_rx
bitbang_rx-Read_example = bitbang_rx-Read four (woken filled ∷ []) quiet [] 2 refl

bitbang_tx-Write_example : Write four (woken quiet ∷ []) clogged (5 ∷ 6 ∷ []) 2 (pos 2) after_write
unfolding bitbang_tx
bitbang_tx-Write_example = bitbang_tx-Write four (woken quiet ∷ []) clogged (5 ∷ 6 ∷ []) 2 refl

-- Opened, and two bytes written.
abbrev opened_once : BitbangUart (List ℕ)
opened_once = record quiet {
  open_count = 1;
  irq_depth = 0;
  tx_chr = record { idx = negsuc 0; parity_bit = 0; value = 0 };
  rx_chr = record { idx = negsuc 0; parity_bit = 0; value = 0 };
}

abbrev written : BitbangUart (List ℕ)
written = record opened_once { tx_fifo = 5 ∷ 6 ∷ []; tx_timer = true }

written-Reach : Reach four written
unfolding bitbang_uart_open tx_copy
written-Reach =
    later
      (later {d = quiet} {e = opened_once} (start [] [] 530 532 (omega arith) refl refl)
        (opened (omega arith)))
      (writes (5 ∷ 6 ∷ []) 2 refl)

Reach-Inv_example : Inv four written
Reach-Inv_example = Reach-Inv four written-Reach
