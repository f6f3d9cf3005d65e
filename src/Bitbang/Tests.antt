-- ===== src/Bitbang/Tests.antt =====
-- The driver run on concrete inputs, and the theorems at inputs that meet their hypotheses.
mod Calls
mod Setup
mod Binding
use testings.Prelude.{
  ℕ, ◌≡◌, refl, List, [], ◌∷◌, ◌++◌, arith, Bool, true, false, some, none, Option, ◌≢◌,
}
use testings.Prelude.Int.{ℤ, pos, negsuc}
use testings.Prelude.Bits.{bits_of}
use testings.Kernel.Kfifo.{Kfifo}
use testings.Kernel.Kfifo.Bounded.{list_fifo}
use testings.Bitbang.State.{BitbangUart, fresh}
use testings.Bitbang.Tx.{tx_run}
use testings.Bitbang.Tx.Frame.{frame, Drained, tx_run-Drained}
use testings.Bitbang.Rx.{rx_run}
use testings.Bitbang.Rx.Frame.{Received, rx_run-Received}
use testings.Bitbang.Loopback.{listen}
use testings.Bitbang.Loopback.Cells.{IsListening}
use testings.Bitbang.Loopback.Frames.{Delivered, loopback}

abbrev pub four : Kfifo
four = list_fifo 4 (omega arith)

-- Two bytes to send, and a receiver that waits for them.
abbrev pub sender : BitbangUart (List ℕ)
sender = record (fresh (0x41 ∷ 0xc3 ∷ []) [] 530 532) {
  tx_timer = true;
  tx_chr = record { idx = negsuc 0; parity_bit = 0; value = 0 };
}

abbrev pub receiver : BitbangUart (List ℕ)
receiver = record (fresh [] [] 530 532) {
  irq_depth = 0;
  open_count = 1;
  rx_chr = record { idx = negsuc 0; parity_bit = 0; value = 0 };
}

receiver-IsListening : IsListening receiver
receiver-IsListening = record {
  idle = refl;
  stopped = refl;
  enabled = refl;
  wired = omega arith;
  byte = omega arith;
}

-- 0x41: two ones, so the parity bit is 0
frame_of_41 : frame 0x41 ≡ 0 ∷ 1 ∷ 0 ∷ 0 ∷ 0 ∷ 0 ∷ 0 ∷ 1 ∷ 0 ∷ 0 ∷ 1 ∷ 1 ∷ []
frame_of_41 = refl

loopback_example :
    Delivered four receiver (0x41 ∷ 0xc3 ∷ []) (listen four 1 receiver (tx_run four 25 sender).1)
loopback_example =
    loopback four (0x41 ∷ 0xc3 ∷ []) 25 sender receiver refl refl (omega arith) (omega arith)
      (omega arith) receiver-IsListening (omega arith)

tx_run-Drained_example : Drained four sender (0x41 ∷ 0xc3 ∷ []) (tx_run four 25 sender)
tx_run-Drained_example =
    tx_run-Drained four (0x41 ∷ 0xc3 ∷ []) 25 sender refl refl (omega arith) (omega arith)
      (omega arith)

-- 0x41 with a wrong parity bit
rx_run-Received_example :
    Received four receiver 0x41 1 1 (rx_run four (0 ∷ (bits_of 0x41 ++ (1 ∷ 1 ∷ []))) receiver)
rx_run-Received_example = rx_run-Received four receiver 0x41 1 1 refl (omega arith) (omega arith)
