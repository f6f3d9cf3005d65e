-- ===== src/Bitbang/Device/Writes.antt =====
-- What a write to the device returns and does.
use testings.Prelude.{
  none-ne-some, ℕ, ◌-◌, ◌<◌, ◌≡◌, ◌⊎◌, inl, inr, sym, ap, ap₂, nil_of_length, subst, ◌∙◌, Bool,
  true, false, not, ◌&&◌, Option, none, some, List, [], ◌∷◌, ◌++◌, arith, length, take, ◌==◌,
  if◌then◌else◌, Bool-cases,
}
use testings.Prelude.Int.{ℤ, pos}
use testings.Kernel.Errno.{efault, erestartsys}
use testings.Kernel.Kfifo.{Kfifo}
use testings.Bitbang.State.{BitbangUart}
use testings.Bitbang.Device.Reads.{reply-fault, reply-success, stopped}
use testings.Bitbang.Device.{Wait, woken, interrupted, tx_copy, tx_copy, bitbang_tx, bitbang_tx}

module _ (K : Kfifo) where
  open K use {Fifo, User, size, contents, bytes, is_full, from_user}

  -- How many of the `n` bytes at `u` fit into the fifo of `d`, and which.
  abbrev pub fitting : BitbangUart Fifo → User → ℕ → List ℕ
  fitting d u n = take (size - length (contents d.tx_fifo)) (take n (bytes u))

  -- A copy into the fifo of `d`, with the lock held, as one call of kfifo_from_user makes it: either it
  -- meets a fault, or the bytes that fit come in and `r` is their count. The bytes that came in stand
  -- behind the others, and the timer is active if there are any.
  pub record Gave (d : BitbangUart Fifo) (u : User) (n : ℕ) (r : ℤ) (e : BitbangUart Fifo)
      : Type 0 where
    pub had_room : length (contents d.tx_fifo) < size
    pub gives :
        ((from_user d.tx_fifo u n).ret ≡ efault) × (r ≡ efault)
        ⊎ (r ≡ pos (length (fitting d u n))) × ((from_user d.tx_fifo u n).moved ≡ fitting d u n)
    pub appended : contents e.tx_fifo ≡ contents d.tx_fifo ++ (from_user d.tx_fifo u n).moved
    pub rest : e ≡ record d {
      tx_fifo = (from_user d.tx_fifo u n).fifo;
      tx_timer = if length (from_user d.tx_fifo u n).moved == 0 then d.tx_timer else true;
    }

  start_test :
      (c : ℕ) (b : Bool)
      → (if not (c == 0) && not b then true else b) ≡ (if c == 0 then b else true)
  start_test c b = ground arith

  tx_copy-Gave :
      (d : BitbangUart Fifo) (u : User) (n : ℕ)
      → is_full d.tx_fifo ≡ false
      → Gave d u n (tx_copy K d u n).0 (tx_copy K d u n).1
  unfolding tx_copy
  tx_copy-Gave d u n room = record {
    had_room = ground (arith, K.is_full_lem d.tx_fifo);
    gives = elim (K.from_user_ret d.tx_fifo u n) [
      | inl fault ↦ inl (fault, reply-fault (from_user d.tx_fifo u n) fault)
      | inr (fine, moved) ↦ inr (
        reply-success (from_user d.tx_fifo u n) fine (K.from_user_copied d.tx_fifo u n)
            ∙ ap (λ m. pos (length m)) moved,
        moved,
      )
    ];
    appended = K.from_user_split d.tx_fifo u n;
    rest =
        ap (λ t. record d { tx_fifo = (from_user d.tx_fifo u n).fifo; tx_timer = t })
          (start_test (from_user d.tx_fifo u n).copied d.tx_timer
            ∙ ap (λ c. if c == 0 then d.tx_timer else true) (K.from_user_copied d.tx_fifo u n));
  }

  -- What a write of `n` bytes at `u` returns with the state `e` that it leaves, whose waits end as the
  -- list says: it looks at `d`, and as long as the fifo is full, at what it finds when it wakes up.
  abbrev pub Write :
      List (Wait (BitbangUart Fifo)) → BitbangUart Fifo → User → ℕ → ℤ → BitbangUart Fifo → Type 0
  Write [] d u n r e = Gave d u n r e
  Write (woken f ∷ ws) d u n r e =
      (length (contents d.tx_fifo) ≡ size) × Write ws f u n r e ⊎ Gave d u n r e
  Write (interrupted f ∷ ws) d u n r e =
      (length (contents d.tx_fifo) ≡ size) × (r ≡ erestartsys) × (e ≡ f) ⊎ Gave d u n r e

  gave :
      (d : BitbangUart Fifo) (u : User) (n : ℕ) {r : ℤ} {e : BitbangUart Fifo}
      → is_full d.tx_fifo ≡ false
      → some (tx_copy K d u n) ≡ some (r, e)
      → Gave d u n r e
  gave d u n {r} {e} room h =
      let q : tx_copy K d u n ≡ (r, e) = cc in
      subst (λ o. Gave d u n o.0 o.1) q (tx_copy-Gave d u n room)

  full_length : (f : Fifo) → is_full f ≡ true → length (contents f) ≡ size
  full_length f e = ground (arith, K.is_full_lem f, K.bounded f)

  tx-room :
      (ws : List (Wait (BitbangUart Fifo))) (d : BitbangUart Fifo) (u : User) (n : ℕ)
      → is_full d.tx_fifo ≡ false
      → bitbang_tx K ws d u n ≡ some (tx_copy K d u n)
  unfolding bitbang_tx
  tx-room [] d u n e = rw e
  tx-room (woken f ∷ ws) d u n e = rw e
  tx-room (interrupted f ∷ ws) d u n e = rw e

  -- What a blocked writer does: the list says how its waits end.
  abbrev tx_blocked : List (Wait (BitbangUart Fifo)) → User → ℕ → Option (ℤ × BitbangUart Fifo)
  tx_blocked [] u n = none
  tx_blocked (woken f ∷ ws) u n = bitbang_tx K ws f u n
  tx_blocked (interrupted f ∷ ws) u n = some (erestartsys, f)

  tx-full :
      (ws : List (Wait (BitbangUart Fifo))) (d : BitbangUart Fifo) (u : User) (n : ℕ)
      → is_full d.tx_fifo ≡ true
      → bitbang_tx K ws d u n ≡ tx_blocked ws u n
  unfolding bitbang_tx
  tx-full [] d u n e = rw e
  tx-full (woken f ∷ ws) d u n e = rw e
  tx-full (interrupted f ∷ ws) d u n e = rw e

  -- A write that returns has given bytes to the first of the fifos that it finds not full, as it finds
  -- it: in one copy it appends as many of the bytes as fit, in order, and returns their number; if the
  -- copy meets a fault, it returns -EFAULT and has appended the bytes that were copied. The timer is then
  -- active if any byte was appended, and nothing else has changed. If it is interrupted while it finds a
  -- full fifo, it returns -ERESTARTSYS and has changed nothing.
  pub bitbang_tx-Write :
      (ws : List (Wait (BitbangUart Fifo))) (d : BitbangUart Fifo) (u : User) (n : ℕ) {r : ℤ}
      {e : BitbangUart Fifo}
      → bitbang_tx K ws d u n ≡ some (r, e)
      → Write ws d u n r e
  bitbang_tx-Write [] d u n h = elim (Bool-cases (is_full d.tx_fifo)) [
    | inl full ↦ absurd (none-ne-some (sym (tx-full [] d u n full) ∙ h))
    | inr room ↦ gave d u n room (sym (tx-room [] d u n room) ∙ h)
  ]
  bitbang_tx-Write (woken f ∷ ws) d u n h = elim (Bool-cases (is_full d.tx_fifo)) [
    | inl full ↦ inl (
      full_length d.tx_fifo full,
      bitbang_tx-Write ws f u n (sym (tx-full (woken f ∷ ws) d u n full) ∙ h),
    )
    | inr room ↦ inr (gave d u n room (sym (tx-room (woken f ∷ ws) d u n room) ∙ h))
  ]
  bitbang_tx-Write (interrupted f ∷ ws) d u n h = elim (Bool-cases (is_full d.tx_fifo)) [
    | inl full ↦
        let o = stopped f (sym (tx-full (interrupted f ∷ ws) d u n full) ∙ h) in
        inl (full_length d.tx_fifo full, o.0, o.1)
    | inr room ↦ inr (gave d u n room (sym (tx-room (interrupted f ∷ ws) d u n room) ∙ h))
  ]

  -- What a copy leaves in the fifo has an active timer, if what was there before had one.
  pub tx_copy-pending :
      (d : BitbangUart Fifo) (u : User) (n : ℕ)
      → (contents d.tx_fifo ≡ []) ⊎ (d.tx_timer ≡ true)
      → (contents (tx_copy K d u n).1.tx_fifo ≡ []) ⊎ ((tx_copy K d u n).1.tx_timer ≡ true)
  unfolding tx_copy
  tx_copy-pending d u n (inr active) = inr (ground arith)
  tx_copy-pending d u n (inl nothing) = elim (Bool-cases ((from_user d.tx_fifo u n).copied == 0)) [
    | inl none_copied ↦
        let no_bytes =
          nil_of_length (from_user d.tx_fifo u n).moved
            (ground (arith, K.from_user_copied d.tx_fifo u n)) in
        inl (K.from_user_split d.tx_fifo u n ∙ ap₂ ◌++◌ nothing no_bytes)
    | inr some_copied ↦ inr (ground arith)
  ]
