-- ===== src/SpiSlave/Ring.antt =====
-- The macros RXRING_ and rxring_get_free_idx of spi-slave-main.c. `buf` is one array of `int`: first
-- the indices of packets, in a ring from `tail` to `head`, then a flag for each packet.
pub mod Free
pub mod Valid
use testings.Prelude.{
  assign, ℕ, zero, suc, ◌+◌, ◌-◌, ◌%◌, ◌<◌, ◌≡◌, Bool, true, false, ltb, ◌==◌, if◌then◌else◌,
}
use testings.Prelude.Int.{ℤ, pos, negsuc, is_nonzero}

abbrev pub rx_ring_packets : ℕ
rx_ring_packets = 16384

-- `struct circ_buf`
pub record CircBuf : Type 0 where
  pub buf : ℕ → ℤ
  pub head : ℕ
  pub tail : ℕ

-- CIRC_CNT and CIRC_SPACE of linux/circ_buf.h, of two indices into a ring of this size: how many
-- slots are used, and how many can be until one is left.
pub record Circ : Type 0 where
  pub cnt : ℕ → ℕ → ℕ
  pub space : ℕ → ℕ → ℕ
  pub cnt_lem :
      (head tail : ℕ)
      → head < rx_ring_packets
      → tail < rx_ring_packets
      → cnt head tail ≡ (head + rx_ring_packets - tail) % rx_ring_packets
  pub space_lem :
      (head tail : ℕ)
      → head < rx_ring_packets
      → tail < rx_ring_packets
      → space head tail ≡ rx_ring_packets - 1 - (head + rx_ring_packets - tail) % rx_ring_packets

-- The place of a packet's flag; that of -1 is the last index.
abbrev pub flag_place : ℤ → ℕ
flag_place (pos i) = rx_ring_packets + i
flag_place (negsuc k) = rx_ring_packets - 1 - k

abbrev pub flagged : (ℕ → ℤ) → ℕ → Bool
flagged b i = is_nonzero (b (rx_ring_packets + i))

abbrev pub advance : ℕ → ℕ
advance end = (end + 1) % rx_ring_packets

-- RXRING_REMOVE
unfoldable pub rxring_remove : CircBuf → CircBuf
rxring_remove c = record c {
  buf = assign (assign c.buf (flag_place (c.buf c.tail)) (pos 0)) c.tail (negsuc 0);
  tail = advance c.tail;
}

-- RXRING_INSERT
unfoldable pub rxring_insert : CircBuf → ℕ → CircBuf
rxring_insert c idx = record c {
  buf = assign (assign c.buf c.head (pos idx)) (rx_ring_packets + idx) (pos 1);
  head = advance c.head;
}

-- RXRING_CLEAR
unfoldable pub rxring_clear : CircBuf → CircBuf
rxring_clear c = record { buf = λ i. pos 0; head = 0; tail = 0 }

-- The loop of rxring_get_free_idx from `i` on, with `n` flags left to look at.
unfoldable pub free_from : ℕ → (ℕ → ℤ) → ℕ → ℕ
free_from zero b i = i
free_from (suc n) b i = elim (flagged b i) [ true ↦ free_from n b (i + 1) | false ↦ i ]

unfoldable pub rxring_get_free_idx : CircBuf → ℤ
unfolding free_from
rxring_get_free_idx c =
    let i = free_from rx_ring_packets c.buf 0 in if ltb i rx_ring_packets then pos i else negsuc 0
