-- ===== src/Bitbang/Tx/Frame.antt =====
-- What tx_timer_cb puts on the wire: frames of twelve bits, until the fifo is empty.
use testings.Prelude.{
  ℕ, zero, suc, ◌+◌, ◌-◌, ◌*◌, ◌%◌, ◌^◌, ◌<◌, ◌≡◌, refl, ap, ◌∙◌, subst, false, some, List, [], ◌∷◌,
  ◌++◌, arith, length, pop,
}
use testings.Prelude.Int.{negsuc}
use testings.Prelude.Bits.{bits_of, popcount}
use testings.Kernel.Kfifo.{Kfifo}
use testings.Bitbang.State.{BitbangUart, incr}
use testings.Bitbang.Parity.{parity_even8, parity_even8-popcount}
use testings.Bitbang.Tx.{tx_timer_cb, tx_continue, tx_run, tx_case, tx_start}

-- A start bit, eight data bits with the lowest first, a bit that makes the number of ones even,
-- and two stop bits.
abbrev pub frame : ℕ → List ℕ
frame b = 0 ∷ (bits_of b ++ (popcount b % 2 ∷ 1 ∷ 1 ∷ []))

abbrev pub frames : List ℕ → List ℕ
frames [] = []
frames (b ∷ bs) = frame b ++ frames bs

abbrev pub AllBytes : List ℕ → Type 0
AllBytes [] = Unit
AllBytes (b ∷ bs) = (b < 256) × AllBytes bs

abbrev pub more : ℕ → ℕ → ℕ
more zero n = n
more (suc k) n = suc (more k n)

-- Between two characters.
abbrev pub IsIdle : {F : Type 0} → BitbangUart F → Type 0
IsIdle d = d.tx_chr.idx ≡ negsuc 0

module _ (K : Kfifo) where
  open K use {Fifo, contents, get, get_byte, get_rest}

  -- The state after a character `b` has been sent and the fifo is `f`.
  abbrev sent : BitbangUart Fifo → ℕ → Fifo → BitbangUart Fifo
  sent d b f = record d {
    tx_fifo = f;
    tx_chr = record { idx = negsuc 0; parity_bit = parity_even8 b; value = b };
    stats = record d.stats { tx_counter = incr d.stats.tx_counter };
  }

  tx_run-frame :
      (n : ℕ) (d : BitbangUart Fifo) (b : ℕ) (f : Fifo)
      → IsIdle d
      → get d.tx_fifo ≡ (some b, f)
      → b < 256
      → tx_run K (more 12 n) d
        ≡ ((tx_run K n (sent d b f)).0, frame b ++ (tx_run K n (sent d b f)).1)
  unfolding tx_run tx_timer_cb
  tx_run-frame n d b f idle e small =
      ap (tx_continue K (tx_run K (more 11 n))) (ap (tx_case K d) idle ∙ ap (tx_start d) e)
      ∙ ap (λ p. ((tx_run K n (sent d b f)).0, with_parity p ++ (tx_run K n (sent d b f)).1))
          (parity_even8-popcount b small)
    where
      with_parity : ℕ → List ℕ
      with_parity p = 0 ∷ (bits_of b ++ (p ∷ 1 ∷ 1 ∷ []))

  -- One more character sent, from a fifo that holds it first.
  tx_run-cons :
      (n : ℕ) (d : BitbangUart Fifo) (b : ℕ) (bs : List ℕ)
      → IsIdle d
      → contents d.tx_fifo ≡ b ∷ bs
      → b < 256
      → tx_run K (more 12 n) d ≡ (
        (tx_run K n (sent d b (get d.tx_fifo).1)).0,
        frame b ++ (tx_run K n (sent d b (get d.tx_fifo).1)).1,
      )
  tx_run-cons n d b bs idle e small =
      tx_run-frame n d b (get d.tx_fifo).1 idle
        (ap (λ o. (o, (get d.tx_fifo).1)) (get_byte d.tx_fifo ∙ ap (λ l. (pop l).0) e)) small

  -- With nothing to send the callback stops the timer and writes nothing.
  tx_run-empty :
      (n : ℕ) (d : BitbangUart Fifo)
      → IsIdle d
      → contents d.tx_fifo ≡ []
      → tx_run K (suc n) d ≡ (record d { tx_fifo = (get d.tx_fifo).1; tx_timer = false }, [])
  unfolding tx_run tx_timer_cb
  tx_run-empty n d idle e = ap (tx_continue K (tx_run K n)) (
      ap (tx_case K d) idle
      ∙ ap (λ o. tx_start d (o, (get d.tx_fifo).1)) (get_byte d.tx_fifo ∙ ap (λ l. (pop l).0) e))

  -- What holds when everything in the fifo has been sent: these levels, in this state.
  pub record Drained (d : BitbangUart Fifo) (bs : List ℕ) (out : BitbangUart Fifo × List ℕ)
      : Type 0 where
    pub levels : out.1 ≡ frames bs
    pub empty : contents out.0.tx_fifo ≡ []
    pub stopped : out.0.tx_timer ≡ false
    pub idle : IsIdle out.0
    pub counted : out.0.stats.tx_counter ≡ (d.stats.tx_counter + length bs) % 2 ^ 32
    pub receiver : (out.0.rx_chr ≡ d.rx_chr) × (out.0.rx_fifo ≡ d.rx_fifo)

  Drained-cons :
      (d : BitbangUart Fifo) (b : ℕ) (bs : List ℕ) (f : Fifo) (out : BitbangUart Fifo × List ℕ)
      → Drained (sent d b f) bs out
      → Drained d (b ∷ bs) (out.0, frame b ++ out.1)
  Drained-cons d b bs f out v = record {
    levels = ap (◌++◌ (frame b)) v.levels;
    empty = v.empty;
    stopped = v.stopped;
    idle = v.idle;
    counted = omega (arith, v.counted);
    receiver = v.receiver;
  }

  Drained-nil :
      (n : ℕ) (d : BitbangUart Fifo)
      → IsIdle d
      → contents d.tx_fifo ≡ []
      → d.stats.tx_counter < 2 ^ 32
      → Drained d [] (tx_run K (suc n) d)
  Drained-nil n d idle e c = rw (tx_run-empty n d idle e) (record {
    levels = refl;
    empty = get_rest d.tx_fifo ∙ ap (λ l. (pop l).1) e;
    stopped = refl;
    idle = idle;
    counted = omega arith;
    receiver = (refl, refl);
  })

  more-add : (k n : ℕ) → more k n ≡ k + n
  more-add zero n = omega arith
  more-add (suc k) n = omega (arith, more-add k n)

  -- From between two characters, with `bs` in the fifo, more than twelve calls for each byte send
  -- the frames of `bs` in order and nothing else, empty the fifo, stop the timer and count the
  -- characters modulo 2 ^ 32. The receiver is not touched.
  pub tx_run-Drained :
      (bs : List ℕ) (n : ℕ) (d : BitbangUart Fifo)
      → IsIdle d
      → contents d.tx_fifo ≡ bs
      → AllBytes bs
      → d.stats.tx_counter < 2 ^ 32
      → 12 * length bs < n
      → Drained d bs (tx_run K n d)
  tx_run-Drained [] n d idle e small c h =
      let m : suc (n - 1) ≡ n = omega arith in
      subst (λ k. Drained d [] (tx_run K k d)) m (Drained-nil (n - 1) d idle e c)
  tx_run-Drained (b ∷ bs) n d idle e small c h =
      let m : more 12 (n - 12) ≡ n = omega (arith, more-add 12 (n - 12)) in
      let f = (get d.tx_fifo).1 in
      let rest =
        tx_run-Drained bs (n - 12) (sent d b f) refl (get_rest d.tx_fifo ∙ ap (λ l. (pop l).1) e)
          small.1 (omega arith) (omega arith) in
      subst (λ k. Drained d (b ∷ bs) (tx_run K k d)) m
        (rw (tx_run-cons (n - 12) d b bs idle e small.0) (Drained-cons d b bs f _ rest))
