-- ===== src/SpiSlave/System/Calls.antt =====
-- The calls from the states that the system reaches: the bounds of the ring, and what a reader gets.
use testings.Prelude.{
  zero, suc, true, pop, ◌⊎◌, length-map, none-ne-some, some_inj, ℕ, ◌<◌, ◌≡◌, ◌≢◌, inl, inr, sym,
  ap, subst, ◌∙◌, false, Option, none, some, List, [], ◌∷◌, map, length, ◌==◌, Bool-cases, arith,
}
use testings.Prelude.Int.{ℤ, pos}
use testings.Kernel.Errno.{erestartsys}
use testings.Kernel.Wait.{Wait, woken, interrupted}
use testings.SpiSlave.Ring.{Circ, rx_ring_packets, flagged, advance, rxring_remove}
use testings.SpiSlave.Ring.Free.{In}
use testings.SpiSlave.Ring.Valid.{Stored, unmarked_out}
use testings.SpiSlave.State.{SpiImxData}
use testings.SpiSlave.Receive.{rx_begin}
use testings.SpiSlave.Transfer.{Transferred, take_packet, n_ready, spi_imx_transfer}
use testings.SpiSlave.System.{capacity, Reach, transfers, IsSound}
use testings.SpiSlave.System.Begins.{begin-IsSound}
use testings.SpiSlave.System.Takes.{take-Taken}
use testings.SpiSlave.System.Sound.{Reach-IsSound}

is_zero_false : (n : ℕ) → (n == 0) ≡ false → n ≢ 0
is_zero_false n h = ground arith

is_zero_true : (n : ℕ) → (n == 0) ≡ true → n ≡ 0
is_zero_true n h = ground arith

-- None of the `n` slots from `i` on holds the packet `idx`.
abbrev pub Elsewhere : (ℕ → ℤ) → ℕ → ℕ → ℕ → Type 0
Elsewhere b idx zero i = Unit
Elsewhere b idx (suc n) i = (b i ≢ pos idx) × Elsewhere b idx n (advance i)

pos_inj : (i j : ℕ) → pos i ≡ pos j → i ≡ j
pos_inj i j e = cc

Stored-Elsewhere :
    (b : ℕ → ℤ) (idx i : ℕ) (ids : List ℕ)
    → Stored b i ids
    → (In idx ids → ⊥)
    → Elsewhere b idx (length ids) i
Stored-Elsewhere b idx i [] s out = tt
Stored-Elsewhere b idx i (x ∷ xs) s out = (
  λ h. out (inl (pos_inj x idx (sym s.0 ∙ h))),
  Stored-Elsewhere b idx (advance i) xs s.1 (λ h. out (inr h)),
)

module _ (C : Circ) where
  pub ready-length :
      (swab32 : ℕ → ℕ) (d : SpiImxData) (p : Option ℕ) (q : List (List ℕ))
      → IsSound C d p q
      → n_ready C swab32 d ≡ length q
  ready-length swab32 d p q s =
      C.cnt_lem d.rx_ring.head d.rx_ring.tail s.ring.head_in s.ring.tail_in
      ∙ sym s.ring.count
      ∙ sym (length-map d.packets s.ids)
      ∙ ap length s.shown

  -- In every state that the system reaches without a reception: as many packets are ready for the
  -- readers as the queue has; once a reception begins the queue has less than 16383, and the buffer
  -- that it takes is one of the 16384, its flag is not set, and none of the slots of the packets that
  -- are then ready, from the tail of the ring on, holds it.
  pub Reach-bounds :
      (swab32 : ℕ → ℕ) (d : SpiImxData) (q : List (List ℕ))
      → Reach C d none q
      → (n_ready C swab32 d ≡ length q)
        × (n_ready C swab32 (rx_begin C d).1 < capacity)
        × ((idx : ℕ) × ((rx_begin C d).0 ≡ pos idx)
            × (idx < rx_ring_packets)
            × (flagged ((rx_begin C d).1.rx_ring.buf) idx ≡ false)
            × Elsewhere
                ((rx_begin C d).1.rx_ring.buf)
                idx
                (n_ready C swab32 (rx_begin C d).1)
                ((rx_begin C d).1.rx_ring.tail))
  Reach-bounds swab32 d q r =
      let s = Reach-IsSound C r in
      let b = begin-IsSound C d q s in
      let e = (rx_begin C d).1 in
      let few : length b.2.ids < capacity = b.2.pending.2 in
      let ready : n_ready C swab32 e ≡ length b.2.ids =
        C.cnt_lem e.rx_ring.head e.rx_ring.tail b.2.ring.head_in b.2.ring.tail_in
        ∙ sym b.2.ring.count in
      let out = unmarked_out e.rx_ring.buf b.0 b.2.ids b.2.ring.marked b.2.pending.1 in
      (
        ready-length swab32 d none q s,
        omega (arith, few, ready),
        (
          b.0,
          b.1,
          b.2.pending.0,
          b.2.pending.1,
          subst (λ n. Elsewhere e.rx_ring.buf b.0 n e.rx_ring.tail) (sym ready)
              (Stored-Elsewhere e.rx_ring.buf b.0 e.rx_ring.tail b.2.ids b.2.ring.stored out),
        ),
      )

  -- The waits show states that the system reaches.
  abbrev pub Seen : List (Wait SpiImxData) → Type 0
  Seen [] = Unit
  Seen (woken e ∷ ws) = ((p : Option ℕ) × (q : List (List ℕ)) × Reach C e p q) × Seen ws
  Seen (interrupted e ∷ ws) = Seen ws

  -- What a transfer gives to its caller that finds a packet ready, in the state `d` with the queue `q`:
  -- the oldest packet of `q`, the bytes of each dword swapped, of which nothing but the ring of `d` has
  -- changed.
  pub record Delivered (swab32 : ℕ → ℕ) (len : ℕ) (d : SpiImxData) (p : Option ℕ)
      (q : List (List ℕ)) (t : Transferred) : Type 0 where
    pub ready : n_ready C swab32 d ≢ 0
    pub oldest : List ℕ
    pub rest : List (List ℕ)
    pub queue : q ≡ oldest ∷ rest
    pub returned : t.ret ≡ pos len
    pub written : t.written ≡ map swab32 oldest
    pub unlocked : t.locked ≡ false
    pub device : t.device ≡ record d { rx_ring = rxring_remove d.rx_ring }
    pub reached : Reach C t.device p rest

  -- What a transfer gives, whose waits end as `ws` says: it looks at `d`, and as long as it finds no
  -- packet ready, at what it finds when it wakes up.
  abbrev pub Served :
      (swab32 : ℕ → ℕ)
      → ℕ
      → (ws : List (Wait SpiImxData)) → Seen ws
      → SpiImxData
      → Option ℕ
      → List (List ℕ)
      → Transferred
      → Type 0
  Served swab32 len [] s d p q t = Delivered swab32 len d p q t
  Served swab32 len (woken e ∷ ws) s d p q t =
      (n_ready C swab32 d ≡ 0) × Served swab32 len ws s.1 e s.0.0 s.0.1 t
      ⊎ Delivered swab32 len d p q t
  Served swab32 len (interrupted e ∷ ws) s d p q t =
      (n_ready C swab32 d ≡ 0)
        × (t ≡ record { ret = erestartsys; written = []; locked = false; device = e })
      ⊎ Delivered swab32 len d p q t

  take-Delivered :
      (swab32 : ℕ → ℕ) (len : ℕ) (d : SpiImxData) (p : Option ℕ) (q : List (List ℕ))
      (t : Transferred)
      → Reach C d p q
      → n_ready C swab32 d ≢ 0
      → some (take_packet C swab32 d len) ≡ some t
      → Delivered swab32 len d p q t
  take-Delivered swab32 len d p q t r n h =
      let taken = take-Taken C d p q swab32 len (Reach-IsSound C r) n in
      let e : take_packet C swab32 d len ≡ t = cc in
      subst (Delivered swab32 len d p q) e (record {
        ready = n;
        oldest = taken.oldest;
        rest = (pop q).1;
        queue = taken.first;
        returned = taken.returned;
        written = taken.written;
        unlocked = taken.unlocked;
        device = taken.device;
        reached = transfers swab32 len n r;
      })

  -- A transfer that returns, from a state that the system reaches, where the states that it wakes up
  -- in are such too: in the first of them in which a packet is ready it takes the oldest of the queue,
  -- and returns the length that was asked for and has written the packet, the bytes of each dword
  -- swapped; of the device only the ring has changed, and the packet is no longer in the queue. If it
  -- finds none and is interrupted, it returns -ERESTARTSYS, has written nothing and has changed nothing.
  -- It never returns -EFAULT, and never with the lock held.
  pub spi_imx_transfer-Served :
      (ws : List (Wait SpiImxData)) (swab32 : ℕ → ℕ) (len : ℕ) (d : SpiImxData) (p : Option ℕ)
      (q : List (List ℕ)) (t : Transferred)
      → Reach C d p q
      → (s : Seen ws) → spi_imx_transfer C swab32 ws d len ≡ some t
      → Served swab32 len ws s d p q t
  unfolding spi_imx_transfer
  spi_imx_transfer-Served [] swab32 len d p q t r s h =
      elim (Bool-cases (n_ready C swab32 d == 0)) [
        | inl e ↦ absurd (none-ne-some (rw (e, spi_imx_transfer) at h))
        | inr e ↦
            take-Delivered swab32 len d p q t r (is_zero_false (n_ready C swab32 d) e)
              (rw (e, spi_imx_transfer) at h)
      ]
  spi_imx_transfer-Served (woken e ∷ ws) swab32 len d p q t r s h =
      elim (Bool-cases (n_ready C swab32 d == 0)) [
        | inl b ↦ inl (
          is_zero_true (n_ready C swab32 d) b,
          spi_imx_transfer-Served ws swab32 len e s.0.0 s.0.1 t s.0.2 s.1
              (rw (b, spi_imx_transfer) at h),
        )
        | inr b ↦ inr (
            take-Delivered swab32 len d p q t r (is_zero_false (n_ready C swab32 d) b)
              (rw (b, spi_imx_transfer) at h))
      ]
  spi_imx_transfer-Served (interrupted e ∷ ws) swab32 len d p q t r s h =
      elim (Bool-cases (n_ready C swab32 d == 0)) [
        | inl b ↦
            inl
              (is_zero_true (n_ready C swab32 d) b, sym (some_inj (rw (b, spi_imx_transfer) at h)))
        | inr b ↦ inr (
            take-Delivered swab32 len d p q t r (is_zero_false (n_ready C swab32 d) b)
              (rw (b, spi_imx_transfer) at h))
      ]
