-- ===== src/SpiSlave/System/Takes.antt =====
-- A reader takes the oldest packet.
use testings.Prelude.{
  ℕ, ◌≤◌, ◌≡◌, ◌≢◌, sym, ap, ◌∙◌, false, Option, none, some, List, [], ◌∷◌, map, length, pop, arith,
}
use testings.Prelude.Int.{pos}
use testings.SpiSlave.Ring.{Circ, flagged, rxring_remove}
use testings.SpiSlave.Ring.Valid.{IsRing, remove-IsRing, remove-unflagged}
use testings.SpiSlave.State.{SpiImxData}
use testings.SpiSlave.Transfer.{take_packet, n_ready}
use testings.SpiSlave.System.{Pending, IsSound}

module _ (C : Circ) where
  pub Pending-fewer :
      (d e : SpiImxData) (ids js : List ℕ) (p : Option ℕ)
      → ((i : ℕ) → flagged d.rx_ring.buf i ≡ false → flagged e.rx_ring.buf i ≡ false)
      → length js ≤ length ids
      → Pending C d ids p
      → Pending C e js p
  Pending-fewer d e ids js none f h s = tt
  Pending-fewer d e ids js (some idx) f h s = (s.0, f idx s.1, omega (arith, s.2))

  -- What a reader gets that finds a packet ready: the oldest, with the bytes of its dwords swapped.
  pub record Taken (d : SpiImxData) (p : Option ℕ) (q : List (List ℕ)) (swab32 : ℕ → ℕ) (len : ℕ)
      : Type 0 where
    pub oldest : List ℕ
    pub first : q ≡ oldest ∷ (pop q).1
    pub returned : (take_packet C swab32 d len).ret ≡ pos len
    pub written : (take_packet C swab32 d len).written ≡ map swab32 oldest
    pub unlocked : (take_packet C swab32 d len).locked ≡ false
    pub device :
        (take_packet C swab32 d len).device ≡ record d { rx_ring = rxring_remove d.rx_ring }
    pub sound : IsSound C ((take_packet C swab32 d len).device) p (pop q).1

  take_ids :
      (d : SpiImxData) (p : Option ℕ) (q : List (List ℕ)) (swab32 : ℕ → ℕ) (len : ℕ) (ids : List ℕ)
      → IsRing d.rx_ring ids
      → map d.packets ids ≡ q
      → Pending C d ids p
      → n_ready C swab32 d ≢ 0
      → Taken d p q swab32 len
  unfolding take_packet
  take_ids d p q swab32 len [] r e w n =
      absurd (n (C.cnt_lem d.rx_ring.head d.rx_ring.tail r.head_in r.tail_in ∙ sym r.count))
  take_ids d p q swab32 len (x ∷ xs) r e w n =
      let there : d.rx_ring.buf d.rx_ring.tail ≡ pos x = r.stored.0 in
      record {
        oldest = d.packets x;
        first = sym e ∙ ap (λ ps. d.packets x ∷ (pop ps).1) e;
        returned = rw (there, take_packet);
        written = rw (there, take_packet);
        unlocked = rw (there, take_packet);
        device = rw (there, take_packet);
        sound =
            rw (there, take_packet)
              (record {
                ids = xs;
                ring = remove-IsRing d.rx_ring x xs r;
                shown = ap (λ ps. (pop ps).1) e;
                pending =
                    Pending-fewer d (record d { rx_ring = rxring_remove d.rx_ring }) (x ∷ xs) xs p
                      (λ i. remove-unflagged d.rx_ring x xs i r) (omega arith) w;
              });
      }

  pub take-Taken :
      (d : SpiImxData) (p : Option ℕ) (q : List (List ℕ)) (swab32 : ℕ → ℕ) (len : ℕ)
      → IsSound C d p q
      → n_ready C swab32 d ≢ 0
      → Taken d p q swab32 len
  take-Taken d p q swab32 len s n = take_ids d p q swab32 len s.ids s.ring s.shown s.pending n
