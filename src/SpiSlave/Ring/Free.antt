-- ===== src/SpiSlave/Ring/Free.antt =====
-- A free packet is found where fewer packets are in the ring than there are.
use testings.Prelude.{
  ℕ, zero, suc, ◌+◌, ◌≤◌, ◌<◌, ◌≡◌, ◌≢◌, ◌⊎◌, inl, inr, subst, true, false, List, [], ◌∷◌, length,
  arith, ltb, ◌==◌, if◌then◌else◌, Bool-cases,
}
use testings.Prelude.Int.{ℤ, pos, negsuc}
use testings.SpiSlave.Ring.{CircBuf, rx_ring_packets, flagged, free_from, rxring_get_free_idx}

abbrev pub In : ℕ → List ℕ → Type 0
In a [] = ⊥
In a (x ∷ xs) = (x ≡ a) ⊎ In a xs

erase : ℕ → List ℕ → List ℕ
erase a [] = []
erase a (x ∷ xs) = if x == a then xs else x ∷ erase a xs

length-erase : (a : ℕ) (xs : List ℕ) → In a xs → length xs ≡ length (erase a xs) + 1
unfolding erase
length-erase a [] h = elim h [ ]
length-erase a (x ∷ xs) (inl e) = ground arith
length-erase a (x ∷ xs) (inr h) = ground (arith, length-erase a xs h)

erase-In : (a b : ℕ) (xs : List ℕ) → a ≢ b → In b xs → In b (erase a xs)
unfolding erase
erase-In a b [] n h = h
erase-In a b (x ∷ xs) n (inl e) = ground arith
erase-In a b (x ∷ xs) n (inr h) = elim (Bool-cases (x == a)) [
  | inl y ↦ rw y h
  | inr y ↦ rw y (inr (erase-In a b xs n h))
]

-- A list that has every number below `n` has `n` elements.
pub all_In : (n : ℕ) (xs : List ℕ) → ((x : ℕ) → x < n → In x xs) → n ≤ length xs
all_In zero xs h = omega arith
all_In (suc n) xs h =
    let rest = all_In n (erase n xs) (λ x lt. erase-In n x xs (omega arith) (h x (omega arith))) in
    omega (arith, length-erase n xs (h n (omega arith)))

here_or_after : (i x : ℕ) → i ≤ x → (i ≡ x) ⊎ (i + 1 ≤ x)
here_or_after i x h = ground arith

-- The search stops at a free packet, or at the end with all flags set.
free_from_lem :
    (n : ℕ) (b : ℕ → ℤ) (i : ℕ)
    → (free_from n b i < i + n) × (flagged b (free_from n b i) ≡ false)
      ⊎ ((x : ℕ) → i ≤ x → x < i + n → flagged b x ≡ true)
unfolding free_from
free_from_lem zero b i = inr (λ x p q. absurd (omega arith))
free_from_lem (suc n) b i = elim (Bool-cases (flagged b i)) [
  | inl on ↦
      rw (on, free_from)
        (elim (free_from_lem n b (i + 1)) [
          | inl (lt, off) ↦ inl (omega arith, off)
          | inr all ↦ inr (λ x p q. elim (here_or_after i x p) [
            | inl e ↦ subst (λ y. flagged b y ≡ true) e on
            | inr later ↦ all x later (omega arith)
          ])
        ])
  | inr off ↦ rw (off, free_from) (inl (omega arith, off))
]

found : (i : ℕ) → i < rx_ring_packets → (if ltb i rx_ring_packets then pos i else negsuc 0) ≡ pos i
found i h = ground arith

-- Where every flag that is set is that of one of fewer packets than there are, rxring_get_free_idx
-- finds a packet whose flag is not set.
pub rxring_get_free_idx_lem :
    (c : CircBuf) (ids : List ℕ)
    → ((x : ℕ) → x < rx_ring_packets → flagged c.buf x ≡ true → In x ids)
    → length ids < rx_ring_packets
    → (i : ℕ) × (rxring_get_free_idx c ≡ pos i) × (i < rx_ring_packets) × (flagged c.buf i ≡ false)
unfolding rxring_get_free_idx
rxring_get_free_idx_lem c ids marks few = elim (free_from_lem rx_ring_packets c.buf 0) [
  | inl (lt, off) ↦ (
    free_from rx_ring_packets c.buf 0,
    found (free_from rx_ring_packets c.buf 0) (omega arith),
    omega arith,
    off,
  )
  | inr all ↦
      let full : rx_ring_packets ≤ length ids =
        all_In rx_ring_packets ids (λ x lt. marks x lt (all x (omega arith) (omega arith))) in
      absurd (omega arith)
]
