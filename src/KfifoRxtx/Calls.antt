-- ===== src/KfifoRxtx/Calls.antt =====
-- What the file operations return and leave, and how they fit together.
use testings.Prelude.{
  ℕ, ◌≡◌, ◌≢◌, inl, inr, refl, sym, ap, ◌∙◌, Bool, true, false, not, some, List, [], ◌∷◌, ◌++◌,
  arith, length, length-append, ◌+◌, ◌==◌, if◌then◌else◌, Bool-cases,
}
use testings.Prelude.Int.{pos}
use testings.Kernel.Errno.{success, eagain}
use testings.Kernel.Kfifo.{Kfifo}
use testings.Kernel.Wait.{Wait, woken, interrupted}
use testings.KfifoRxtx.{
  Mydev, read_copy, write_copy, mydev_read, write_loop, mydev_write, mydev_poll, mydev_release,
}

full_cases :
    {A : Type 0} (x y : A) (b : Bool)
    → (if b then some x else some y) ≡ some (if not b then y else x)
full_cases x y true = refl
full_cases x y false = refl

module _ (K : Kfifo) where
  open K use {Fifo, User, size, contents, bytes, is_empty, is_full, to_user, from_user}

  unequal : (n : ℕ) → n ≢ 0 → (n == 0) ≡ false
  unequal n h = ground arith

  poll-read :
      (w : Wait (Mydev Fifo)) (d : Mydev Fifo) (u : User) (n : ℕ)
      → n ≢ 0
      → mydev_read K true w d d u n
        ≡ (if (mydev_poll K d).0 then read_copy K d u n else (eagain, d))
  unfolding mydev_read mydev_poll
  poll-read w d u n h = elim (Bool-cases (is_empty d.rx_fifo)) [
    | inl e ↦ rw (unequal n h) (rw e)
    | inr e ↦ rw (unequal n h) (rw e)
  ]

  loop_once :
      (ws : List (Wait (Mydev Fifo))) (d : Mydev Fifo) (u : User) (n : ℕ)
      → write_loop K true ws (λ x. x) d u n
        ≡ some (if not (is_full d.tx_fifo) then write_copy K d u n else (eagain, d))
  unfolding write_loop
  loop_once [] d u n = full_cases _ _ (is_full d.tx_fifo)
  loop_once (woken e ∷ ws) d u n = full_cases _ _ (is_full d.tx_fifo)
  loop_once (interrupted e ∷ ws) d u n = full_cases _ _ (is_full d.tx_fifo)

  poll-write :
      (ws : List (Wait (Mydev Fifo))) (d : Mydev Fifo) (u : User) (n : ℕ)
      → n ≢ 0
      → mydev_write K true ws (λ x. x) d u n
        ≡ some (if (mydev_poll K d).1 then write_copy K d u n else (eagain, d))
  unfolding mydev_write mydev_poll
  poll-write ws d u n h = rw (unequal n h) (loop_once ws d u n)

  -- Where nothing happens in between, mydev_poll foretells what a nonblocking call of more than 0
  -- bytes does: a read copies if POLLIN is set and else returns -EAGAIN, and so does a write with
  -- POLLOUT.
  pub mydev_poll_lem :
      (w : Wait (Mydev Fifo)) (ws : List (Wait (Mydev Fifo))) (d : Mydev Fifo) (u : User) (n : ℕ)
      → n ≢ 0
      → (mydev_read K true w d d u n
          ≡ (if (mydev_poll K d).0 then read_copy K d u n else (eagain, d)))
        × (mydev_write K true ws (λ x. x) d u n
            ≡ some (if (mydev_poll K d).1 then write_copy K d u n else (eagain, d)))
  mydev_poll_lem w ws d u n h = (poll-read w d u n h, poll-write ws d u n h)

  -- A blocking read of more than 0 bytes that is woken, but finds the fifo empty again when it has
  -- the lock, returns 0, which is the end of the file.
  pub mydev_read_zero :
      (d e x : Mydev Fifo) (u : User) (n : ℕ)
      → n ≢ 0
      → is_empty d.rx_fifo ≡ true
      → contents x.rx_fifo ≡ []
      → (to_user x.rx_fifo u n).ret ≡ success
      → (mydev_read K false (woken x) d e u n).0 ≡ pos 0
  unfolding mydev_read read_copy
  mydev_read_zero d e x u n h empty again fine =
      let t = to_user x.rx_fifo u n in
      let none_left : length t.moved + length (contents t.fifo) ≡ 0 =
        sym (length-append t.moved (contents t.fifo))
        ∙ ap length (sym (K.to_user_split x.rx_fifo u n) ∙ again) in
      let copied : t.copied ≡ 0 = K.to_user_copied x.rx_fifo u n ∙ omega (arith, none_left) in
      rw (unequal n h) (rw empty (rw fine (ap pos copied)))

  -- A write that copies bytes while one file is open, and the release of that file before the work
  -- item has run, leave the bytes in the fifo and no work item scheduled: the hardware was given
  -- nothing.
  pub release_strands :
      (d : Mydev Fifo) (u : User) (n : ℕ)
      → d.open_count ≡ 1
      → (from_user d.tx_fifo u n).ret ≡ success
      → let e = (write_copy K d u n).1 in
        (e.tx_work ≡ true)
        × ((mydev_release K e).tx_work ≡ false)
        × (contents (mydev_release K e).tx_fifo
            ≡ contents d.tx_fifo ++ (from_user d.tx_fifo u n).moved)
        × ((mydev_release K e).hw ≡ d.hw)
  unfolding write_copy mydev_release
  release_strands d u n one fine = ground (arith, K.from_user_split d.tx_fifo u n)
