-- ===== src/SpiSlave/System.antt =====
-- The thread that receives, the readers and the messages that start, in any order.
pub mod Begins
pub mod Receives
pub mod Takes
pub mod Prepares
pub mod Sound
pub mod Packet
pub mod Calls
pub mod Delivery
use testings.Prelude.{
  ℕ, zero, suc, ◌+◌, ◌-◌, ◌*◌, ◌%◌, ◌^◌, ◌≤◌, ◌<◌, ◌≡◌, ◌≢◌, ◌⊎◌, inl, inr, refl, sym, ap, ap₂,
  subst, ◌∙◌, Bool, true, false, Option, none, some, List, [], ◌∷◌, ◌++◌, map, map-append, length,
  length-append, pop, arith, ltb, ◌==◌, if◌then◌else◌, Bool-cases,
}
use testings.Prelude.Int.{ℤ, pos, negsuc}
use testings.SpiSlave.Ring.{
  CircBuf, Circ, rx_ring_packets, flagged, rxring_insert, rxring_remove, rxring_clear,
  rxring_get_free_idx,
}
use testings.SpiSlave.Ring.Free.{In, rxring_get_free_idx_lem}
use testings.SpiSlave.Ring.Valid.{
  IsRing, Stored, distance, unmarked_out, insert-IsRing, remove-IsRing, clear-IsRing,
}
use testings.SpiSlave.State.{SpiImxStatistic, SpiImxData, no_stats}
use testings.SpiSlave.Receive.{Loop, rx_word, rx_words, count_overrun, rx_begin, rx_end, rx_thrd_fn}
use testings.SpiSlave.Transfer.{take_packet, n_ready, proc_status_show, spi_imx_prepare_message}

-- The packets of the ring, by what the locked parts did to them: a queue that gives its oldest packet
-- away when a reception begins and it is full.
abbrev pub capacity : ℕ
capacity = rx_ring_packets - 1

abbrev pub make_room : List (List ℕ) → List (List ℕ)
make_room q = if length q == capacity then (pop q).1 else q

module _ (C : Circ) where
  -- With the packet that is being received, and the queue.
  pub data Reach : SpiImxData → Option ℕ → List (List ℕ) → Type 0 where
    start : (d : SpiImxData) → Reach (record d { rx_ring = rxring_clear d.rx_ring }) none []
    begins :
        {d : SpiImxData} {q : List (List ℕ)} (idx : ℕ)
        → (rx_begin C d).0 ≡ pos idx
        → Reach d none q
        → Reach (rx_begin C d).1 (some idx) (make_room q)
    words :
        {idx : ℕ} {q : List (List ℕ)} (l : Loop) (ws : List ℕ)
        → Reach l.device (some idx) q
        → Reach ((rx_words idx ws l).0.device) (some idx) q
    polls :
        {idx : ℕ} {q : List (List ℕ)} (l : Loop) (stat : ℕ)
        → Reach l.device (some idx) q
        → Reach ((count_overrun stat l).device) (some idx) q
    ends :
        {d : SpiImxData} {idx : ℕ} {q : List (List ℕ)}
        → Reach d (some idx) q
        → Reach (rx_end C idx d) none (q ++ d.packets idx ∷ [])
    gives_up :
        {d : SpiImxData} {idx : ℕ} {q : List (List ℕ)} → Reach d (some idx) q → Reach d none q
    exits :
        {d : SpiImxData} {q : List (List ℕ)}
        → Reach d none q
        → Reach (record d { rx_thrd = false }) none q
    restarts :
        {d : SpiImxData} {q : List (List ℕ)}
        → Reach d none q
        → Reach (record d { stats = no_stats; rx_ring = rxring_clear d.rx_ring }) none []
    transfers :
        {d : SpiImxData} {p : Option ℕ} {q : List (List ℕ)} (swab32 : ℕ → ℕ) (len : ℕ)
        → n_ready C swab32 d ≢ 0
        → Reach d p q
        → Reach ((take_packet C swab32 d len).device) p (pop q).1
    shows :
        {d : SpiImxData} {p : Option ℕ} {q : List (List ℕ)}
        → Reach d p q
        → Reach (proc_status_show d) p q
    prepares :
        {d : SpiImxData} {p : Option ℕ} {q : List (List ℕ)} (hz now : ℕ) (created : ℤ)
        → Reach d p q
        → Reach (spi_imx_prepare_message hz now created d).1 p (
            if ltb (4 * hz) ((now + 2 ^ 64 - d.stats.last_message_jiffies) % 2 ^ 32) then [] else q)

  -- The packet that is being received is not in the ring, which has a slot for it.
  abbrev pub Pending : SpiImxData → List ℕ → Option ℕ → Type 0
  Pending d ids none = Unit
  Pending d ids (some idx) =
      (idx < rx_ring_packets) × (flagged d.rx_ring.buf idx ≡ false) × (length ids < capacity)

  pub record IsSound (d : SpiImxData) (p : Option ℕ) (q : List (List ℕ)) : Type 0 where
    pub ids : List ℕ
    pub ring : IsRing d.rx_ring ids
    pub shown : map d.packets ids ≡ q
    pub pending : Pending d ids p
