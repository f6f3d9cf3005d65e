-- ===== src/SpiSlave/System/Prepares.antt =====
-- A message that starts and may clear the ring, and what leaves the ring as it is.
use testings.Prelude.{
  ℕ, ◌+◌, ◌-◌, ◌*◌, ◌%◌, ◌^◌, ◌≡◌, inl, inr, refl, sym, ap, subst, ◌∙◌, Option, none, some, List,
  [], map, arith, ltb, if◌then◌else◌, Bool-cases,
}
use testings.Prelude.Int.{ℤ}
use testings.Kernel.Errno.{success}
use testings.SpiSlave.Ring.{Circ, flagged, rxring_clear}
use testings.SpiSlave.Ring.Valid.{IsRing, clear-IsRing}
use testings.SpiSlave.State.{SpiImxData, no_stats}
use testings.SpiSlave.Receive.{Loop, count_overrun}
use testings.SpiSlave.Transfer.{proc_status_show, init_rx_thread, spi_imx_prepare_message}
use testings.SpiSlave.System.{Pending, IsSound}
use testings.SpiSlave.System.Takes.{Pending-fewer}

overrun-same :
    (stat : ℕ) (l : Loop)
    → ((count_overrun stat l).device.rx_ring ≡ l.device.rx_ring)
      × ((count_overrun stat l).device.packets ≡ l.device.packets)
unfolding count_overrun
overrun-same stat l = (ground arith, ground arith)

module _ (C : Circ) where
  Pending-clear :
      (d e : SpiImxData) (ids : List ℕ) (p : Option ℕ)
      → e.rx_ring ≡ rxring_clear d.rx_ring
      → Pending C d ids p
      → Pending C e [] p
  unfolding rxring_clear
  Pending-clear d e ids none c w = tt
  Pending-clear d e ids (some idx) c w = (w.0, ap (λ r. flagged r.buf idx) c, omega arith)

  pub cleared :
      (d e : SpiImxData) (p : Option ℕ) (q : List (List ℕ))
      → e.rx_ring ≡ rxring_clear d.rx_ring
      → IsSound C d p q
      → IsSound C e p []
  cleared d e p q c s = record {
    ids = [];
    ring = subst (λ r. IsRing r []) (sym c) (clear-IsRing d.rx_ring);
    shown = refl;
    pending = Pending-clear d e s.ids p c s.pending;
  }

  -- Another state with the same ring and packets is as sound.
  pub kept :
      (d e : SpiImxData) (p : Option ℕ) (q : List (List ℕ))
      → e.rx_ring ≡ d.rx_ring
      → e.packets ≡ d.packets
      → IsSound C d p q
      → IsSound C e p q
  kept d e p q c k s = record {
    ids = s.ids;
    ring = subst (λ r. IsRing r s.ids) (sym c) s.ring;
    shown = ap (λ f. map f s.ids) k ∙ s.shown;
    pending =
        Pending-fewer C d e s.ids s.ids p (λ i off. ap (λ r. flagged r.buf i) c ∙ off) (omega arith)
          s.pending;
  }

  pub polls-IsSound :
      (l : Loop) (idx : ℕ) (q : List (List ℕ)) (stat : ℕ)
      → IsSound C l.device (some idx) q
      → IsSound C ((count_overrun stat l).device) (some idx) q
  polls-IsSound l idx q stat s =
      let same = overrun-same stat l in
      kept l.device ((count_overrun stat l).device) (some idx) q same.0 same.1 s

  pub shows-IsSound :
      (d : SpiImxData) (p : Option ℕ) (q : List (List ℕ))
      → IsSound C d p q
      → IsSound C (proc_status_show d) p q
  unfolding proc_status_show
  shows-IsSound d p q s = kept d (proc_status_show d) p q refl refl s

  -- The states before the thread is looked at.
  abbrev dated : SpiImxData → ℕ → SpiImxData
  dated d now = record d { stats = record d.stats { last_message_jiffies = now } }

  abbrev forgotten : SpiImxData → ℕ → SpiImxData
  forgotten d now = dated (record d { stats = no_stats; rx_ring = rxring_clear d.rx_ring }) now

  answer : ℤ → SpiImxData → ℤ × SpiImxData
  answer created d = if d.rx_thrd then (success, d) else init_rx_thread created d

  answer-same :
      (created : ℤ) (d : SpiImxData)
      → ((answer created d).1.rx_ring ≡ d.rx_ring) × ((answer created d).1.packets ≡ d.packets)
  unfolding answer init_rx_thread
  answer-same created d = (ground arith, ground arith)

  answered :
      (created : ℤ) (d : SpiImxData) (p : Option ℕ) (q : List (List ℕ))
      → IsSound C d p q
      → IsSound C (answer created d).1 p q
  answered created d p q s =
      let same = answer-same created d in kept d (answer created d).1 p q same.0 same.1 s

  pub prepare-IsSound :
      (hz now : ℕ) (created : ℤ) (d : SpiImxData) (p : Option ℕ) (q : List (List ℕ))
      → IsSound C d p q
      → IsSound C
          (spi_imx_prepare_message hz now created d).1
          p
          (if ltb (4 * hz) ((now + 2 ^ 64 - d.stats.last_message_jiffies) % 2 ^ 32) then [] else q)
  unfolding spi_imx_prepare_message answer
  prepare-IsSound hz now created d p q s =
      elim (Bool-cases (ltb (4 * hz) ((now + 2 ^ 64 - d.stats.last_message_jiffies) % 2 ^ 32))) [
        | inl old ↦
            rw old
              (answered created (forgotten d now) p [] (cleared d (forgotten d now) p q refl s))
        | inr new ↦
            rw new (answered created (dated d now) p q (kept d (dated d now) p q refl refl s))
      ]
