-- ===== src/SpiSlave/Receive.antt =====
-- paketizer, receive_packet and rx_thrd_fn of spi-slave-main.c.
pub mod Frame
pub mod Poll
use testings.Prelude.{
  assign, ℕ, zero, suc, ◌+◌, ◌-◌, ◌/◌, ◌%◌, ◌^◌, Bool, true, false, not, ◌||◌, Option, none, some,
  List, [], ◌∷◌, ◌++◌, ltb, set, ◌==◌, if◌then◌else◌,
}
use testings.Prelude.Int.{ℤ, pos, negsuc}
use testings.Kernel.Errno.{efault}
use testings.SpiSlave.Ring.{
  CircBuf, Circ, rxring_remove, rxring_insert, rxring_clear, rxring_get_free_idx,
}
use testings.SpiSlave.State.{SpiImxStatistic, SpiImxData, incr32, incr64, no_stats}

abbrev pub packet_size_dword : ℕ
packet_size_dword = 47

-- `(val >> 24) & 0xFF`
abbrev pub sync_byte : ℕ → ℕ
sync_byte val = val / 2 ^ 24 % 256

-- Is it greater than 0?
abbrev pub is_positive : ℤ → Bool
is_positive (pos zero) = false
is_positive (pos (suc n)) = true
is_positive (negsuc n) = false

-- What it returns, the packet, and `*pcnt`.
unfoldable pub paketizer : ℕ → List ℕ → ℕ → ℤ × List ℕ × ℕ
paketizer val packet cnt =
    let p = set packet cnt val in
    if cnt == 0
    then (if sync_byte val == 0x47 then (pos 0, p, 1) else (negsuc 2, p, 0))
    else if cnt + 1 == packet_size_dword
    then (pos 1, p, 0)
    else (pos 0, p, cnt + 1)

-- The counter of what paketizer returned.
unfoldable pub count_rv : ℤ → SpiImxStatistic → SpiImxStatistic
count_rv (pos zero) s = s
count_rv (pos (suc n)) s = record s { pkt_ok = incr64 s.pkt_ok }
count_rv (negsuc zero) s = record s { pkt_err = incr32 s.pkt_err }
count_rv (negsuc (suc zero)) s = record s { stream_err = incr32 s.stream_err }
count_rv (negsuc (suc (suc zero))) s = record s { skip = incr64 s.skip }
count_rv (negsuc (suc (suc (suc n)))) s = s

-- The variables of the loop, `cnt` being `bytes_cnt`.
pub record Loop : Type 0 where
  pub cnt : ℕ
  pub rv : ℤ
  pub device : SpiImxData

-- One dword for the packet `idx`.
unfoldable pub rx_word : ℕ → ℕ → Loop → Loop
unfolding paketizer count_rv
rx_word idx val l =
    let d = l.device in
    let r = paketizer val (d.packets idx) l.cnt in
    record {
      cnt = r.2;
      rv = r.0;
      device = record d {
        packets = assign d.packets idx r.1;
        stats = count_rv r.0 (record d.stats { dwords = incr64 d.stats.dwords });
      };
    }

-- The inner loop, over the dwords that the hardware has: it leaves those behind a packet.
unfoldable pub rx_words : ℕ → List ℕ → Loop → Loop × List ℕ
unfolding rx_word
rx_words idx [] l = (l, [])
rx_words idx (w ∷ ws) l =
    let next = rx_word idx w l in
    elim (is_positive next.rv) [ true ↦ (next, ws) | false ↦ rx_words idx ws next ]

-- What one round of the outer loop finds: kthread_should_stop, the status register, and the dwords
-- that have come in until the hardware has no more.
pub record Round : Type 0 where
  pub stop : Bool
  pub stat : ℕ
  pub arrived : List ℕ

abbrev pub overrun : ℕ → Bool
overrun stat = stat / 2 ^ 6 % 2 == 1

unfoldable pub count_overrun : ℕ → Loop → Loop
count_overrun stat l =
    let d = l.device in
    let s = record d.stats { overruns = incr32 d.stats.overruns } in
    if overrun stat then record l { device = record d { stats = s } } else l

-- The outer loop, with the dwords that the hardware still has. `none`: it goes on after these rounds.
unfoldable pub rx_poll : ℕ → List Round → List ℕ → Loop → Option (Loop × List ℕ)
unfolding rx_words count_overrun
rx_poll idx [] fifo l = if is_positive l.rv then some (l, fifo) else none
rx_poll idx (r ∷ rs) fifo l =
    let w = rx_words idx (fifo ++ r.arrived) (count_overrun r.stat l) in
    elim (r.stop || is_positive l.rv) [ true ↦ some (l, fifo) | false ↦ rx_poll idx rs w.1 w.0 ]

module _ (C : Circ) where
  -- The first part with the lock: the oldest packet gives way if the ring is full.
  unfoldable pub rx_begin : SpiImxData → ℤ × SpiImxData
  rx_begin d =
      let c = d.rx_ring in
      let e = record d {
        rx_ring = rxring_remove c;
        stats = record d.stats { pkt_lost = incr64 d.stats.pkt_lost };
      } in
      let d' = if C.space c.head c.tail == 0 then e else d in (rxring_get_free_idx d'.rx_ring, d')

  -- The second part with the lock.
  unfoldable pub rx_end : ℕ → SpiImxData → SpiImxData
  rx_end idx d =
      let c = rxring_insert d.rx_ring idx in
      let used = C.cnt c.head c.tail in
      let m = if ltb d.stats.max_ring_used used then used else d.stats.max_ring_used in
      record d { rx_ring = c; stats = record d.stats { max_ring_used = m } }

  -- `others` is what other threads do between the two parts.
  unfoldable pub receive_packet :
      List Round
      → List ℕ
      → (SpiImxData → SpiImxData)
      → SpiImxData
      → Option (ℤ × List ℕ × SpiImxData)
  unfolding rx_begin rx_poll rx_end
  receive_packet rs fifo others d =
      let b = rx_begin d in
      elim b.0 [
        | negsuc n ↦ some (efault, fifo, b.1)
        | pos idx ↦
            if ltb 1024 b.1.stats.pkt_lost
            then some (negsuc 0, fifo, b.1)
            else elim (rx_poll idx rs fifo (record { cnt = 0; rv = negsuc 0; device = b.1 })) [
              | none ↦ none
              | some (l, rest) ↦ some (l.rv, rest, rx_end idx (others l.device))
            ]
      ]

  -- The loop of rx_thrd_fn, a list of rounds for each call. `none`: the thread goes on.
  unfoldable pub rx_loop :
      List (List Round) → List ℕ → (SpiImxData → SpiImxData) → SpiImxData → Option SpiImxData
  unfolding receive_packet
  rx_loop [] fifo others d = none
  rx_loop (rs ∷ rss) fifo others d = elim (receive_packet rs fifo others d) [
    | none ↦ none
    | some (rv, rest, e) ↦ elim (is_positive rv) [
      | true ↦ rx_loop rss rest others e
      | false ↦ some (record e { rx_thrd = false })
    ]
  ]

  unfoldable pub rx_thrd_fn :
      List (List Round) → List ℕ → (SpiImxData → SpiImxData) → SpiImxData → Option SpiImxData
  unfolding rx_loop
  rx_thrd_fn rss fifo others d =
      rx_loop rss fifo others (record d { stats = no_stats; rx_ring = rxring_clear d.rx_ring })
