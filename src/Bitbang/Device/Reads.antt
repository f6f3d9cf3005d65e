-- ===== src/Bitbang/Device/Reads.antt =====
-- What a read of the device returns and does.
use testings.Prelude.{
  none-ne-some, some_inj, nil_of_length, ℕ, ◌<◌, min, ◌≡◌, ◌⊎◌, inl, inr, refl, sym, ap, subst, ◌∙◌,
  true, false, Option, none, some, List, [], ◌∷◌, ◌++◌, arith, length, take, length-take, ◌==◌,
  if◌then◌else◌, Bool-cases,
}
use testings.Prelude.Int.{ℤ, pos, is_nonzero}
use testings.Kernel.Errno.{success, eagain, efault, erestartsys}
use testings.Kernel.Kfifo.{Kfifo, Transfer}
use testings.Bitbang.State.{BitbangUart}
use testings.Bitbang.Device.{Wait, woken, interrupted, reply, rx_copy, bitbang_rx, bitbang_read}

pub reply-fault : {F : Type 0} (t : Transfer F) → t.ret ≡ efault → reply t ≡ efault
reply-fault t e = ap (λ r. if is_nonzero r then r else pos t.copied) e

pub reply-success :
    {F : Type 0} (t : Transfer F)
    → t.ret ≡ success
    → t.copied ≡ length t.moved
    → reply t ≡ pos (length t.moved)
reply-success t e c = ap (λ r. if is_nonzero r then r else pos t.copied) e ∙ ap pos c

-- A call that was interrupted.
pub stopped :
    {S : Type 0} (f : S) {r : ℤ} {e : S}
    → ◌≡◌ {A = Option (ℤ × S)} (some (erestartsys, f)) (some (r, e))
    → (r ≡ erestartsys) × (e ≡ f)
stopped {S} f {r} {e} h =
    let q : ◌≡◌ {A = ℤ × S} (erestartsys, f) (r, e) = some_inj h in
    (ap (λ o. o.0) (sym q), ap (λ o. o.1) (sym q))

module _ (K : Kfifo) where
  open K use {Fifo, User, size, contents, bytes, is_empty, is_full, to_user, from_user}

  -- A copy out of the fifo of `d`, with the lock held, as one call of kfifo_to_user makes it: either it
  -- meets a fault, and the bytes that have left are the oldest, or the user gets the oldest bytes, as
  -- many as asked for and there, and `r` is their count.
  pub record Took (d : BitbangUart Fifo) (u : User) (n : ℕ) (r : ℤ) (e : BitbangUart Fifo)
      : Type 0 where
    pub some_bytes : 0 < length (contents d.rx_fifo)
    pub gets :
        ((to_user d.rx_fifo u n).ret ≡ efault) × (r ≡ efault)
        ⊎ (r ≡ pos (min n (length (contents d.rx_fifo))))
          × ((to_user d.rx_fifo u n).moved ≡ take n (contents d.rx_fifo))
    pub split : contents d.rx_fifo ≡ (to_user d.rx_fifo u n).moved ++ contents e.rx_fifo
    pub rest : e ≡ record d { rx_fifo = (to_user d.rx_fifo u n).fifo }

  rx_copy-Took :
      (d : BitbangUart Fifo) (u : User) (n : ℕ)
      → is_empty d.rx_fifo ≡ false
      → Took d u n (rx_copy K d u n).0 (rx_copy K d u n).1
  unfolding rx_copy
  rx_copy-Took d u n filled = record {
    some_bytes = ground (arith, K.is_empty_lem d.rx_fifo);
    gets = elim (K.to_user_ret d.rx_fifo u n) [
      | inl fault ↦ inl (fault, reply-fault (to_user d.rx_fifo u n) fault)
      | inr (fine, moved) ↦ inr (
        reply-success (to_user d.rx_fifo u n) fine (K.to_user_copied d.rx_fifo u n)
            ∙ ap (λ m. pos (length m)) moved
            ∙ ap pos (length-take n (contents d.rx_fifo)),
        moved,
      )
    ];
    split = K.to_user_split d.rx_fifo u n;
    rest = refl;
  }

  -- What a read of `n` bytes returns with the state `e` that it leaves, whose waits end as the list says:
  -- it looks at `d`, and as long as the fifo is empty, at what it finds when it wakes up.
  abbrev pub Read :
      List (Wait (BitbangUart Fifo)) → BitbangUart Fifo → User → ℕ → ℤ → BitbangUart Fifo → Type 0
  Read [] d u n r e = Took d u n r e
  Read (woken f ∷ ws) d u n r e = (contents d.rx_fifo ≡ []) × Read ws f u n r e ⊎ Took d u n r e
  Read (interrupted f ∷ ws) d u n r e =
      (contents d.rx_fifo ≡ []) × (r ≡ erestartsys) × (e ≡ f) ⊎ Took d u n r e

  took :
      (d : BitbangUart Fifo) (u : User) (n : ℕ) {r : ℤ} {e : BitbangUart Fifo}
      → is_empty d.rx_fifo ≡ false
      → some (rx_copy K d u n) ≡ some (r, e)
      → Took d u n r e
  took d u n {r} {e} filled h =
      let q : rx_copy K d u n ≡ (r, e) = cc in
      subst (λ o. Took d u n o.0 o.1) q (rx_copy-Took d u n filled)

  empty_contents : (f : Fifo) → is_empty f ≡ true → contents f ≡ []
  empty_contents f e = nil_of_length (contents f) (ground (arith, K.is_empty_lem f))

  rx-filled :
      (ws : List (Wait (BitbangUart Fifo))) (d : BitbangUart Fifo) (u : User) (n : ℕ)
      → is_empty d.rx_fifo ≡ false
      → bitbang_rx K ws d u n ≡ some (rx_copy K d u n)
  unfolding bitbang_rx
  rx-filled [] d u n e = rw e
  rx-filled (woken f ∷ ws) d u n e = rw e
  rx-filled (interrupted f ∷ ws) d u n e = rw e

  -- What a blocked reader does: the list says how its waits end.
  abbrev rx_blocked : List (Wait (BitbangUart Fifo)) → User → ℕ → Option (ℤ × BitbangUart Fifo)
  rx_blocked [] u n = none
  rx_blocked (woken f ∷ ws) u n = bitbang_rx K ws f u n
  rx_blocked (interrupted f ∷ ws) u n = some (erestartsys, f)

  rx-empty :
      (ws : List (Wait (BitbangUart Fifo))) (d : BitbangUart Fifo) (u : User) (n : ℕ)
      → is_empty d.rx_fifo ≡ true
      → bitbang_rx K ws d u n ≡ rx_blocked ws u n
  unfolding bitbang_rx
  rx-empty [] d u n e = rw e
  rx-empty (woken f ∷ ws) d u n e = rw e
  rx-empty (interrupted f ∷ ws) d u n e = rw e

  -- A read that returns has taken bytes from the first of the fifos that it finds not empty, as it finds
  -- it: in one copy the oldest bytes, as many as asked for and there, whose number it returns, and
  -- nothing but that fifo has changed; if the copy meets a fault, it returns -EFAULT, and only the bytes
  -- that have been copied have left the fifo. If it is interrupted while it finds an empty fifo, it
  -- returns -ERESTARTSYS and has changed nothing.
  pub bitbang_rx-Read :
      (ws : List (Wait (BitbangUart Fifo))) (d : BitbangUart Fifo) (u : User) (n : ℕ) {r : ℤ}
      {e : BitbangUart Fifo}
      → bitbang_rx K ws d u n ≡ some (r, e)
      → Read ws d u n r e
  bitbang_rx-Read [] d u n h = elim (Bool-cases (is_empty d.rx_fifo)) [
    | inl nothing ↦ absurd (none-ne-some (sym (rx-empty [] d u n nothing) ∙ h))
    | inr filled ↦ took d u n filled (sym (rx-filled [] d u n filled) ∙ h)
  ]
  bitbang_rx-Read (woken f ∷ ws) d u n h = elim (Bool-cases (is_empty d.rx_fifo)) [
    | inl nothing ↦ inl (
      empty_contents d.rx_fifo nothing,
      bitbang_rx-Read ws f u n (sym (rx-empty (woken f ∷ ws) d u n nothing) ∙ h),
    )
    | inr filled ↦ inr (took d u n filled (sym (rx-filled (woken f ∷ ws) d u n filled) ∙ h))
  ]
  bitbang_rx-Read (interrupted f ∷ ws) d u n h = elim (Bool-cases (is_empty d.rx_fifo)) [
    | inl nothing ↦
        let o = stopped f (sym (rx-empty (interrupted f ∷ ws) d u n nothing) ∙ h) in
        inl (empty_contents d.rx_fifo nothing, o.0, o.1)
    | inr filled ↦ inr (took d u n filled (sym (rx-filled (interrupted f ∷ ws) d u n filled) ∙ h))
  ]

  -- Where the fifo is still as the test of O_NONBLOCK saw it, a nonblocking read returns at once:
  -- -EAGAIN and no change if there is nothing, else what one copy gives.
  pub bitbang_read_nonblock :
      (ws : List (Wait (BitbangUart Fifo))) (d : BitbangUart Fifo) (u : User) (n : ℕ)
      → bitbang_read K true ws d d u n
        ≡ some (if length (contents d.rx_fifo) == 0 then (eagain, d) else rx_copy K d u n)
  unfolding bitbang_read
  bitbang_read_nonblock ws d u n = elim (Bool-cases (is_empty d.rx_fifo)) [
    | inl nothing ↦ rw (nothing, sym (K.is_empty_lem d.rx_fifo) ∙ nothing)
    | inr filled ↦ rw (filled, sym (K.is_empty_lem d.rx_fifo) ∙ filled) (rx-filled ws d u n filled)
  ]

  -- Where another reader empties the fifo between that test and bitbang_rx, the nonblocking read
  -- waits all the same: it does not return before a wait ends.
  pub bitbang_read_blocks :
      (d e : BitbangUart Fifo) (u : User) (n : ℕ)
      → 0 < length (contents d.rx_fifo)
      → length (contents e.rx_fifo) ≡ 0
      → bitbang_read K true [] d e u n ≡ none
  unfolding bitbang_read
  bitbang_read_blocks d e u n filled nothing =
      let some_byte : is_empty d.rx_fifo ≡ false = ground (arith, K.is_empty_lem d.rx_fifo) in
      let no_byte : is_empty e.rx_fifo ≡ true = ground (arith, K.is_empty_lem e.rx_fifo) in
      rw some_byte (rx-empty [] e u n no_byte)
