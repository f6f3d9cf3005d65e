-- ===== src/SpiSlave/Tests.antt =====
-- A ring with a packet that has come in.
use testings.Prelude.{
  ℕ, zero, suc, ◌+◌, ◌-◌, ◌%◌, ◌≤◌, ◌<◌, ◌≡◌, ◌≢◌, refl, true, false, none, some, List, [], ◌∷◌,
  ◌++◌, map, length, arith,
}
use testings.Prelude.Int.{pos, negsuc}
use testings.Kernel.Errno.{success}
use testings.Kernel.Wait.{woken}
use testings.SpiSlave.Ring.{
  Circ, rx_ring_packets, rxring_clear, rxring_insert, rxring_get_free_idx, free_from, flagged,
}
use testings.SpiSlave.State.{SpiImxData, no_stats}
use testings.SpiSlave.Receive.{Round, sync_byte, receive_packet, rx_begin, rx_end, rx_words}
use testings.SpiSlave.Transfer.{take_packet, n_ready, spi_imx_transfer}
use testings.SpiSlave.System.{capacity, Reach, start, begins, words, ends, IsSound, make_room}
use testings.SpiSlave.System.Sound.{Reach-IsSound}
use testings.SpiSlave.System.Packet.{Received, receive_packet_lem}
use testings.SpiSlave.System.Calls.{Elsewhere, Reach-bounds, Served, spi_imx_transfer-Served}
use testings.SpiSlave.System.Delivery.{transfer_all, transfer_all_lem}
use testings.SpiSlave.Setup.{Answers, unbound, spi_imx_probe}

abbrev circ : Circ
circ = record {
  cnt = λ head tail. (head + rx_ring_packets - tail) % rx_ring_packets;
  space = λ head tail. rx_ring_packets - 1 - (head + rx_ring_packets - tail) % rx_ring_packets;
  cnt_lem = λ head tail h t. refl;
  space_lem = λ head tail h t. refl;
}

abbrev upto : ℕ → List ℕ
upto zero = []
upto (suc n) = n ∷ upto n

abbrev sync_dword : ℕ
sync_dword = 0x47000010

-- The packet, behind a dword of noise and before the first of the next.
abbrev body : List ℕ
body = upto 45

abbrev before : SpiImxData
before = record {
  rx_ring = record { buf = λ i. pos 5; head = 3; tail = 2 };
  packets = λ i. upto 47;
  stats = no_stats;
  rx_thrd = true;
}

abbrev empty_ring : SpiImxData
empty_ring = record before { rx_ring = rxring_clear before.rx_ring }

abbrev first_round : Round
first_round = record { stop = false; stat = 0; arrived = 5 ∷ sync_dword ∷ [] }

abbrev second_round : Round
second_round = record { stop = false; stat = 8; arrived = 77 ∷ (body ++ sync_dword ∷ []) }

none_lost : (rx_begin circ empty_ring).1.stats.pkt_lost ≤ 1024
unfolding rx_begin rxring_clear
none_lost = omega arith

no_sync : sync_byte 5 ≢ 0x47
no_sync = ground arith

receive_packet_lem_example :
    Received circ
      (receive_packet circ (first_round ∷ second_round ∷ []) [] (λ x. x) empty_ring)
      empty_ring
      []
      (sync_dword ∷ 77 ∷ body)
      (sync_dword ∷ [])
      1
receive_packet_lem_example =
    receive_packet_lem circ first_round (second_round ∷ []) [] (5 ∷ []) body (sync_dword ∷ [])
      sync_dword 77 empty_ring [] (start before) (λ i. refl) none_lost
      (refl, refl, (refl, refl, tt)) (no_sync, tt) refl refl refl

-- The states of a packet that comes in without any noise.
abbrev started : SpiImxData
started = (rx_begin circ empty_ring).1

abbrev filled : SpiImxData
filled =
    (rx_words 0 (sync_dword ∷ 77 ∷ body)
      (record { cnt = 0; rv = negsuc 0; device = started })).0.device

abbrev received : SpiImxData
received = rx_end circ 0 filled

abbrev queue : List (List ℕ)
queue = make_room [] ++ filled.packets 0 ∷ []

first_free : (rx_begin circ empty_ring).0 ≡ pos 0
unfolding rx_begin rxring_get_free_idx free_from rxring_clear
first_free = refl

received-Reach : Reach circ received none queue
received-Reach = ends (
    words (record { cnt = 0; rv = negsuc 0; device = started }) (sync_dword ∷ 77 ∷ body)
      (begins 0 first_free (start before)))

Reach-IsSound_example : IsSound circ received none queue
Reach-IsSound_example = Reach-IsSound circ received-Reach

Reach-bounds_example :
    (n_ready circ (λ w. w) received ≡ length queue)
    × (n_ready circ (λ w. w) (rx_begin circ received).1 < capacity)
    × ((idx : ℕ) × ((rx_begin circ received).0 ≡ pos idx)
        × (idx < rx_ring_packets)
        × (flagged ((rx_begin circ received).1.rx_ring.buf) idx ≡ false)
        × Elsewhere
            ((rx_begin circ received).1.rx_ring.buf)
            idx
            (n_ready circ (λ w. w) (rx_begin circ received).1)
            ((rx_begin circ received).1.rx_ring.tail))
Reach-bounds_example = Reach-bounds circ (λ w. w) received queue received-Reach

transfer_all_lem_example :
    (e : SpiImxData) × (transfer_all circ (λ w. w) 188 (length queue) received
      ≡ some (map (map (λ w. w)) queue, e))
    × (n_ready circ (λ w. w) e ≡ 0)
transfer_all_lem_example = transfer_all_lem circ (λ w. w) 188 queue received none received-Reach

-- The transfer waits once, until the packet is there.
waited :
    spi_imx_transfer circ (λ w. w) (woken received ∷ []) empty_ring 188
    ≡ some (take_packet circ (λ w. w) received 188)
unfolding spi_imx_transfer rxring_clear rxring_insert rx_end rx_words rx_begin
waited = refl

spi_imx_transfer-Served_example :
    Served circ
      (λ w. w)
      188
      (woken received ∷ [])
      ((none, queue, received-Reach), tt)
      empty_ring
      none
      []
      (take_packet circ (λ w. w) received 188)
spi_imx_transfer-Served_example =
    spi_imx_transfer-Served circ (woken received ∷ []) (λ w. w) 188 empty_ring none []
      (take_packet circ (λ w. w) received 188) (start before) ((none, queue, received-Reach), tt)
      waited

abbrev no_proc : Answers
no_proc = record {
  spi_alloc_slave = true;
  ioremap_resource = pos 0;
  platform_get_irq = pos 31;
  clk_get_ipg = pos 0;
  clk_get_per = pos 0;
  clk_enable_per = pos 0;
  clk_enable_ipg = pos 0;
  spi_bitbang_start = pos 0;
  kzalloc_packets = true;
  kzalloc_ring = true;
  proc_create = false;
}

abbrev all_well : Answers
all_well = record no_proc { proc_create = true }

probed : (spi_imx_probe all_well unbound).0 ≡ success
unfolding spi_imx_probe
probed = refl
