-- ===== src/SpiSlave/System/Begins.antt =====
-- The beginning of a reception: the oldest packet gives way, and a free one is found.
use testings.Prelude.{
  length-map, ℕ, ◌<◌, ◌≡◌, inl, inr, sym, ap, subst, ◌∙◌, true, false, none, some, List, [], ◌∷◌,
  map, length, pop, arith, ◌==◌, if◌then◌else◌, Bool-cases,
}
use testings.Prelude.Int.{pos}
use testings.SpiSlave.Ring.{CircBuf, Circ, rxring_remove}
use testings.SpiSlave.Ring.Free.{rxring_get_free_idx_lem}
use testings.SpiSlave.Ring.Valid.{IsRing, remove-IsRing}
use testings.SpiSlave.State.{SpiImxData}
use testings.SpiSlave.Receive.{rx_begin}
use testings.SpiSlave.System.{capacity, make_room, IsSound}

-- A ring that holds the packets `q` and has a slot for one more.
pub record HasRoom (c : CircBuf) (packets : ℕ → List ℕ) (q : List (List ℕ)) : Type 0 where
  pub ids : List ℕ
  pub ring : IsRing c ids
  pub shown : map packets ids ≡ q
  pub few : length ids < capacity

full_test : (n : ℕ) → n ≡ capacity → (n == capacity) ≡ true
full_test n e = ground arith

room_test : (n : ℕ) → n < capacity → (n == capacity) ≡ false
room_test n h = ground arith

drop_oldest :
    (c : CircBuf) (packets : ℕ → List ℕ) (ids : List ℕ)
    → IsRing c ids
    → length ids ≡ capacity
    → HasRoom (rxring_remove c) packets (make_room (map packets ids))
drop_oldest c packets [] r e = absurd (omega arith)
drop_oldest c packets (x ∷ xs) r e = record {
  ids = xs;
  ring = remove-IsRing c x xs r;
  shown =
      ap (λ t. if t then map packets xs else map packets (x ∷ xs))
        (sym (full_test (length (map packets (x ∷ xs))) (length-map packets (x ∷ xs) ∙ e)));
  few = omega arith;
}

module _ (C : Circ) where
  begin-HasRoom :
      (d : SpiImxData) (ids : List ℕ)
      → IsRing d.rx_ring ids
      → HasRoom
          ((rx_begin C d).1.rx_ring)
          ((rx_begin C d).1.packets)
          (make_room (map d.packets ids))
  unfolding rx_begin
  begin-HasRoom d ids r =
      let free = C.space_lem d.rx_ring.head d.rx_ring.tail r.head_in r.tail_in in
      elim (Bool-cases (C.space d.rx_ring.head d.rx_ring.tail == 0)) [
        | inl full ↦ rw full (drop_oldest d.rx_ring d.packets ids r (ground (arith, free, r.count)))
        | inr more ↦
            let few : length ids < capacity = ground (arith, free, r.count) in
            rw more (record {
              ids = ids;
              ring = r;
              shown =
                  ap (λ t. if t then (pop (map d.packets ids)).1 else map d.packets ids)
                    (sym (
                      room_test (length (map d.packets ids))
                        (omega (arith, length-map d.packets ids))));
              few = few;
            })
      ]

  -- Where a packet is not being received, a free one is found.
  pub begin-IsSound :
      (d : SpiImxData) (q : List (List ℕ))
      → IsSound C d none q
      → (idx : ℕ) × ((rx_begin C d).0 ≡ pos idx)
        × IsSound C (rx_begin C d).1 (some idx) (make_room q)
  unfolding rx_begin
  begin-IsSound d q s =
      let room = begin-HasRoom d s.ids s.ring in
      let free =
        rxring_get_free_idx_lem ((rx_begin C d).1.rx_ring) room.ids room.ring.marks
          (omega (arith, room.few)) in
      (
        free.0,
        free.1,
        record {
          ids = room.ids;
          ring = room.ring;
          shown = room.shown ∙ ap make_room s.shown;
          pending = (free.2, free.3, room.few);
        },
      )

  pos_inj : (i j : ℕ) → pos i ≡ pos j → i ≡ j
  pos_inj i j e = cc

  pub begun :
      (d : SpiImxData) (q : List (List ℕ)) (idx : ℕ)
      → (rx_begin C d).0 ≡ pos idx
      → (i : ℕ) × ((rx_begin C d).0 ≡ pos i) × IsSound C (rx_begin C d).1 (some i) (make_room q)
      → IsSound C (rx_begin C d).1 (some idx) (make_room q)
  begun d q idx e s =
      subst (λ i. IsSound C (rx_begin C d).1 (some i) (make_room q)) (pos_inj s.0 idx (sym s.1 ∙ e))
        s.2
