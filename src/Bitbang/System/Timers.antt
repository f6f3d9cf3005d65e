-- ===== src/Bitbang/System/Timers.antt =====
-- What one call of a timer callback keeps: the position in the character stays in range, the byte
-- that is assembled stays a byte, and the transmit timer stops only at an empty fifo.
use testings.Prelude.{
  ℕ, zero, suc, ◌≤◌, ◌<◌, ◌≡◌, ◌⊎◌, inl, inr, refl, sym, ◌∙◌, true, Option, none, some, List, [],
  ◌∷◌, arith, pop, Bool-cases, ◌==◌,
}
use testings.Prelude.Int.{ℤ, pos, negsuc}
use testings.Kernel.Kfifo.{Kfifo}
use testings.Bitbang.State.{BitbangUart}
use testings.Bitbang.Tx.{tx_case, tx_start, tx_bit, tx_timer_cb}
use testings.Bitbang.Rx.{rx_case, rx_bit, rx_start, rx_timer_cb}
use testings.Bitbang.Rx.Frame.{insert_bit_lem}

-- -1, or a position of at most `k`
abbrev pub InRange : ℕ → ℤ → Type 0
InRange k (negsuc zero) = Unit
InRange k (negsuc (suc n)) = ⊥
InRange k (pos n) = n ≤ k

module _ (K : Kfifo) where
  open K use {Fifo, contents, get, get_byte, get_rest}

  tx_bit-range : (d : BitbangUart Fifo) (n : ℕ) → n ≤ 10 → InRange 10 (tx_bit d n).next.tx_chr.idx
  unfolding tx_bit
  tx_bit-range d n h = ground arith

  tx_bit-restart : (d : BitbangUart Fifo) (n : ℕ) → n ≤ 10 → (tx_bit d n).restart ≡ true
  unfolding tx_bit
  tx_bit-restart d n h = ground arith

  tx_start-range :
      (d : BitbangUart Fifo) (o : Option ℕ) (f : Fifo)
      → InRange 10 d.tx_chr.idx
      → InRange 10 (tx_start d (o, f)).next.tx_chr.idx
  unfolding tx_start
  tx_start-range d none f h = h
  tx_start-range d (some b) f h = omega arith

  tx_case-range :
      (d : BitbangUart Fifo) (i : ℤ)
      → InRange 10 d.tx_chr.idx
      → InRange 10 i
      → InRange 10 (tx_case K d i).next.tx_chr.idx
  unfolding tx_case
  tx_case-range d (negsuc zero) g h = tx_start-range d (get d.tx_fifo).0 (get d.tx_fifo).1 g
  tx_case-range d (negsuc (suc n)) g h = absurd h
  tx_case-range d (pos n) g h = tx_bit-range d n h

  pub tx_timer_cb-range :
      (d : BitbangUart Fifo)
      → InRange 10 d.tx_chr.idx
      → InRange 10 (tx_timer_cb K d).next.tx_chr.idx
  unfolding tx_timer_cb
  tx_timer_cb-range d h = tx_case-range d d.tx_chr.idx h h

  -- Nothing to send is known only from an empty fifo.
  pop-none : (l : List ℕ) → (pop l).0 ≡ none → (pop l).1 ≡ []
  pop-none [] h = refl
  pop-none (x ∷ xs) h = cc

  tx_start-stops :
      (d : BitbangUart Fifo) (o : Option ℕ) (f : Fifo)
      → (o ≡ none → contents f ≡ [])
      → (contents (tx_start d (o, f)).next.tx_fifo ≡ []) ⊎ ((tx_start d (o, f)).restart ≡ true)
  unfolding tx_start
  tx_start-stops d none f h = inl (h refl)
  tx_start-stops d (some b) f h = inr refl

  tx_case-stops :
      (d : BitbangUart Fifo) (i : ℤ)
      → InRange 10 i
      → (contents (tx_case K d i).next.tx_fifo ≡ []) ⊎ ((tx_case K d i).restart ≡ true)
  unfolding tx_case
  tx_case-stops d (negsuc zero) h =
      tx_start-stops d (get d.tx_fifo).0 (get d.tx_fifo).1
        (λ e. get_rest d.tx_fifo ∙ pop-none (contents d.tx_fifo) (sym (get_byte d.tx_fifo) ∙ e))
  tx_case-stops d (negsuc (suc n)) h = absurd h
  tx_case-stops d (pos n) h = inr (tx_bit-restart d n h)

  pub tx_timer_cb-stops :
      (d : BitbangUart Fifo)
      → InRange 10 d.tx_chr.idx
      → (contents (tx_timer_cb K d).next.tx_fifo ≡ []) ⊎ ((tx_timer_cb K d).restart ≡ true)
  unfolding tx_timer_cb
  tx_timer_cb-stops d h = tx_case-stops d d.tx_chr.idx h

  -- What the receiver keeps.
  pub record RxSound (d : BitbangUart Fifo) : Type 0 where
    pub range : InRange 9 d.rx_chr.idx
    pub byte : d.rx_chr.value < 256

  rx_bit-RxSound :
      (d : BitbangUart Fifo) (n v : ℕ)
      → n ≤ 9
      → d.rx_chr.value < 256
      → RxSound (rx_bit K d n v).next
  unfolding rx_bit
  rx_bit-RxSound d n v h g = ground (arith, insert_bit_lem d.rx_chr.value v)

  rx_start-RxSound : (d : BitbangUart Fifo) (v : ℕ) → RxSound d → RxSound (rx_start d v).next
  unfolding rx_start
  rx_start-RxSound d v s = elim (Bool-cases (v == 0)) [
    | inl low ↦ rw (low, rx_start) (record { range = omega arith; byte = s.byte })
    | inr high ↦ rw (high, rx_start) (record { range = s.range; byte = s.byte })
  ]

  rx_case-RxSound :
      (d : BitbangUart Fifo) (i : ℤ) (v : ℕ)
      → RxSound d
      → InRange 9 i
      → RxSound (rx_case K d i v).next
  unfolding rx_case
  rx_case-RxSound d (negsuc zero) v s h = rx_start-RxSound d v s
  rx_case-RxSound d (negsuc (suc n)) v s h = absurd h
  rx_case-RxSound d (pos n) v s h = rx_bit-RxSound d n v h s.byte

  pub rx_timer_cb-RxSound :
      (d : BitbangUart Fifo) (v : ℕ) → RxSound d → RxSound (rx_timer_cb K d v).next
  unfolding rx_timer_cb
  rx_timer_cb-RxSound d v s = rx_case-RxSound d d.rx_chr.idx v s s.range

  -- What the transmit callback leaves alone.
  abbrev pub SameButTx : BitbangUart Fifo → BitbangUart Fifo → Type 0
  SameButTx d e =
      (e.rx_chr ≡ d.rx_chr) × (e.open_count ≡ d.open_count) × (e.irq_depth ≡ d.irq_depth)

  tx_case-same : (d : BitbangUart Fifo) (i : ℤ) → SameButTx d (tx_case K d i).next
  unfolding tx_case tx_start tx_bit
  tx_case-same d (negsuc zero) = go (get d.tx_fifo).0 (get d.tx_fifo).1
    where
      go : (o : Option ℕ) (f : Fifo) → SameButTx d (tx_start d (o, f)).next
      go none f = (refl, refl, refl)
      go (some b) f = (refl, refl, refl)
  tx_case-same d (negsuc (suc n)) = (refl, refl, refl)
  tx_case-same d (pos n) = ground arith

  pub tx_timer_cb-same : (d : BitbangUart Fifo) → SameButTx d (tx_timer_cb K d).next
  unfolding tx_timer_cb
  tx_timer_cb-same d = tx_case-same d d.tx_chr.idx

  -- What the receive callback leaves alone.
  abbrev pub SameButRx : BitbangUart Fifo → BitbangUart Fifo → Type 0
  SameButRx d e =
      (e.tx_chr ≡ d.tx_chr)
      × (e.tx_fifo ≡ d.tx_fifo)
      × (e.tx_timer ≡ d.tx_timer)
      × (e.open_count ≡ d.open_count)
      × (e.irq_depth ≡ d.irq_depth)

  rx_case-same : (d : BitbangUart Fifo) (i : ℤ) (v : ℕ) → SameButRx d (rx_case K d i v).next
  unfolding rx_case
  rx_case-same d (negsuc zero) v = ground arith
  rx_case-same d (negsuc (suc n)) v = (refl, refl, refl, refl, refl)
  rx_case-same d (pos n) v = ground arith

  pub rx_timer_cb-same : (d : BitbangUart Fifo) (v : ℕ) → SameButRx d (rx_timer_cb K d v).next
  unfolding rx_timer_cb
  rx_timer_cb-same d v = rx_case-same d d.rx_chr.idx v
